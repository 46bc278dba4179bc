-- ===== src/RoomEvents/Followed.antt =====
-- Hubs that follow the room service (services/rooms/events/redis_notifier.go,
-- services/gateway/websocket/room_events.go).
use lan_sync.Prelude.{
  ◌≡◌, refl, ap, ◌∙◌, String, Bool, true, false, Option, none, some, List, [], ◌∷◌, ◌++◌,
  Option-cases, inl, inr,
}
use lan_sync.Prelude.Int.{ℤ}
use lan_sync.Rooms.{Notice, joins, leaves, disbands}
use lan_sync.Hub.{Hub, client_by_user, join_room, leave_room}
use lan_sync.Hub.Consistency.{IsConsistent}
use lan_sync.Hub.Moves.{join_room-IsConsistent, leave_room-IsConsistent}
use lan_sync.Hub.Lifetime.{disband_room-IsConsistent, client_by_user-disband_room}
use lan_sync.RoomEvents.{Event, event_of, publish, publish_all, apply_event, apply_payload, listen}
use lan_sync.RoomEvents.Subscriptions.{
  is_in, has_client, changed, join_client-is_in, leave_client-is_in, disband_room-is_in,
  join_client-client_by_user, leave_client-client_by_user,
}

-- Is the client of a user in the list of a room?
abbrev pub is_subscribed : Hub → ℤ → ℤ → Bool
is_subscribed h u r = is_in h (client_by_user h u) r

abbrev pub is_connected : Hub → ℤ → Bool
is_connected h u = has_client (client_by_user h u)

-- What changes of rooms make of a user's subscription, one after the other.
abbrev pub changed_by : List Notice → Bool → ℤ → ℤ → Bool → Bool
changed_by [] connected u r was = was
changed_by (notice ∷ rest) connected u r was =
    changed_by rest connected u r (changed notice connected u r was)

abbrev handle : Hub → Notice → Hub
handle h notice = apply_event h (event_of notice)

handle-IsConsistent : (h : Hub) (notice : Notice) → IsConsistent h → IsConsistent (handle h notice)
unfolding apply_event event_of
handle-IsConsistent h (joins user room) v = join_room-IsConsistent h user room v
handle-IsConsistent h (leaves user room) v = leave_room-IsConsistent h user room v
handle-IsConsistent h (disbands room) v = disband_room-IsConsistent h room v

handle-client_by_user :
    (h : Hub) (notice : Notice) (u : ℤ) → client_by_user (handle h notice) u ≡ client_by_user h u
unfolding apply_event event_of join_room leave_room
handle-client_by_user h (joins user room) u =
    join_client-client_by_user h (client_by_user h user) room u
handle-client_by_user h (leaves user room) u =
    leave_client-client_by_user h (client_by_user h user) room u
handle-client_by_user h (disbands room) u = client_by_user-disband_room h room u

handle-is_in :
    (h : Hub) (notice : Notice) (u r : ℤ)
    → IsConsistent h
    → is_in (handle h notice) (client_by_user h u) r
      ≡ changed notice (is_connected h u) u r (is_subscribed h u r)
unfolding apply_event event_of join_room leave_room
handle-is_in h (joins user room) u r v =
    join_client-is_in h user room u r (client_by_user h user) (client_by_user h u) v refl refl
handle-is_in h (leaves user room) u r v =
    leave_client-is_in h user room u r (client_by_user h user) (client_by_user h u) v refl refl
handle-is_in h (disbands room) u r v = disband_room-is_in h room r (client_by_user h u)

abbrev handle_all : Hub → List Notice → Hub
handle_all h [] = h
handle_all h (notice ∷ rest) = handle_all (handle h notice) rest

handle_all-is_subscribed :
    (h : Hub) (notices : List Notice) (u r : ℤ)
    → IsConsistent h
    → is_subscribed (handle_all h notices) u r
      ≡ changed_by notices (is_connected h u) u r (is_subscribed h u r)
handle_all-is_subscribed h [] u r v = refl
handle_all-is_subscribed h (notice ∷ rest) u r v =
    handle_all-is_subscribed (handle h notice) rest u r (handle-IsConsistent h notice v)
    ∙ (ap (λ p. changed_by rest (has_client p) u r (is_in (handle h notice) p r))
          (handle-client_by_user h notice u)
        ∙ ap (changed_by rest (is_connected h u) u r) (handle-is_in h notice u r v))

-- The notices that Redis takes.
abbrev if_taken : Notice → Bool → Option String → List Notice → List Notice
if_taken notice false payload rest = rest
if_taken notice true none rest = rest
if_taken notice true (some payload) rest = notice ∷ rest

abbrev pub taken : (Event → Option String) → List (Notice × Bool) → List Notice
taken marshal [] = []
taken marshal ((notice, sent) ∷ rest) =
    if_taken notice sent (marshal (event_of notice)) (taken marshal rest)

module _ (marshal : Event → Option String) (unmarshal : String → Option Event)
    (reads : (e : Event) (payload : String)
      → marshal e ≡ some payload
      → unmarshal payload ≡ some e) where
  listen-append :
      (h : Hub) (channel : List String) (payload : String)
      → listen unmarshal h (channel ++ payload ∷ [])
        ≡ apply_payload (listen unmarshal h channel) (unmarshal payload)
  unfolding listen
  listen-append h [] payload = refl
  listen-append h (x ∷ channel) payload =
      listen-append (apply_payload h (unmarshal x)) channel payload

  listen-publish_all :
      (h : Hub) (notices : List (Notice × Bool)) (channel : List String)
      → listen unmarshal h (publish_all marshal notices channel)
        ≡ handle_all (listen unmarshal h channel) (taken marshal notices)
  unfolding publish_all publish
  listen-publish_all h [] channel = refl
  listen-publish_all h ((notice, false) ∷ rest) channel =
      elim (Option-cases (marshal (event_of notice))) [
        | inl lost ↦ rw lost (listen-publish_all h rest channel)
        | inr (payload, made) ↦ rw made (listen-publish_all h rest channel)
      ]
  listen-publish_all h ((notice, true) ∷ rest) channel =
      elim (Option-cases (marshal (event_of notice))) [
        | inl lost ↦ rw lost (listen-publish_all h rest channel)
        | inr (payload, made) ↦ rw made (
            listen-publish_all h rest (channel ++ payload ∷ [])
            ∙ ap (λ g. handle_all g (taken marshal rest))
                (listen-append h channel payload
                  ∙ ap (apply_payload (listen unmarshal h channel))
                      (reads (event_of notice) payload made)))
      ]

  -- A gateway that has handled what the room service published has a user in the list of a room exactly if the
  -- changes that Redis took, one after the other, lead there: a user who joins is listed where the user is
  -- connected, a user who leaves is not, a disbanded room has no user, and every other subscription is kept. The
  -- hub is consistent at the start, no other method is called meanwhile, and a payload reads back as its event.
  pub listen-is_subscribed :
      (h : Hub) (notices : List (Notice × Bool)) (u r : ℤ)
      → IsConsistent h
      → is_subscribed (listen unmarshal h (publish_all marshal notices [])) u r
        ≡ changed_by (taken marshal notices) (is_connected h u) u r (is_subscribed h u r)
  unfolding listen
  listen-is_subscribed h notices u r v =
      ap (λ g. is_subscribed g u r) (listen-publish_all h notices [])
      ∙ handle_all-is_subscribed h (taken marshal notices) u r v
