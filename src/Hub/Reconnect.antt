-- ===== src/Hub/Reconnect.antt =====
-- What a closed connection leaves behind (services/gateway/websocket/hub.go, Unregister).
use lan_sync.Prelude.{
  ℕ, ◌≡◌, ◌≢◌, refl, ◌∙◌, true, false, some, List, arith, nat_eq, eq_self, eqb, eqb_iff,
}
use lan_sync.Prelude.Int.{ℤ, int_eq}
use lan_sync.Hub.{Hub, client_by_user, unregister, register, is_client}
use lan_sync.Hub.View.{is_member}
use lan_sync.Hub.Consistency.{IsConsistent, client_by_user-register, user_id-register}
use lan_sync.Hub.Steps.{unregister-IsConsistent, unregister-closes, client_by_user-unregister}

-- A client that Unregister has closed is in no room and is kept for no user, its channel is
-- closed, and the registry is still consistent.
pub record IsGone (h : Hub) (c : ℕ) : Type 0 where
  pub closed : (h.clients c).send_closed ≡ true
  pub in_no_room : (r : ℤ) → is_member h c r ≡ false
  pub not_kept : (u : ℤ) → client_by_user h u ≢ some c

-- Unregister of an active client in a consistent registry: its channel is closed, it is in the
-- list of no room, and no user has it.
pub unregister-IsGone :
    (h : Hub) (c : ℕ) → IsConsistent h → (h.clients c).active ≡ true → IsGone (unregister h c) c
unregister-IsGone h c v here =
    let (inactive, shut) = unregister-closes h c here in
    let w : IsConsistent (unregister h c) = unregister-IsConsistent h c v in
    record {
      closed = shut;
      in_no_room = λ r. ground (arith, w.rooms c r, inactive);
      not_kept = λ u e. ground (arith, (w.users u c e).0, inactive);
    }

-- A user whose second connection is registered before the first one is unregistered keeps the
-- second: the clients are different, have the same user, and both are active in turn.
pub reconnect-keeps_new :
    (h : Hub) (old new : ℕ) (rs : List ℤ)
    → IsConsistent h
    → eqb old new ≡ false
    → (h.clients new).user_id ≡ (h.clients old).user_id
    → (h.clients new).active ≡ false
    → client_by_user (unregister (register h new rs) old) (h.clients old).user_id ≡ some new
reconnect-keeps_new h old new rs v differ same fresh =
    let g = register h new rs in
    let user = (h.clients old).user_id in
    let kept : client_by_user g user ≡ some new =
      client_by_user-register h new rs v fresh user ∙ (rw (same, eq_self user) refl) in
    let other : is_client (client_by_user g (g.clients old).user_id) old ≡ false =
      (rw (user_id-register h new rs v fresh old differ, kept)
        (ground (arith, eqb_iff old new, eqb_iff new old))) in
    client_by_user-unregister g old user other ∙ kept
