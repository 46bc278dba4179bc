-- ===== src/Messages/Paging.antt =====
-- Reading the whole history of a room page by page (services/messages/api/history_handler.go over the
-- repositories).
use lan_sync.Prelude.{
  ℕ, zero, suc, ◌≤◌, ◌<◌, ◌≡◌, refl, sym, ap, ◌∙◌, Bool, true, false, none, some, List, [], ◌∷◌,
  ◌++◌, All, All-split, keep, take, drop, length, length-drop, take-append-drop, map, arith,
  Bool-cases, Option-cases, ltb, eqb, inl, inr, if◌then◌else◌,
}
use mathlib.Core.Path.{subst}
use lan_sync.Prelude.Int.{ℤ, pos, ◌<ℤ◌, int_eq}
use lan_sync.Prelude.Result.{Result, ok, err, ◌>>=◌}
use mathlib.Core.List.{append_assoc, reverse}
use lan_sync.Messages.{Row, DbError, to_message, oldest_first}
use lan_sync.Messages.Cache.{CachedMsg, cached_msg}
use lan_sync.Messages.Store.{IsHistory}
use lan_sync.Messages.History.{
  Module, HistoryRequest, HistoryReply, refused, from_redis, from_store, get_chat_history,
  store_page, redis_page, cached_page, full_page, first_id, clamp_limit,
}
use lan_sync.Messages.Pages.{
  Split, cut_page, length-map, length-take, take-all, shown, shown-append, length-shown,
}

-- A reader who asks for a room's history and goes on behind `next_cursor` while there is more: all messages
-- that it is shown, oldest first, or the status of a refusal.
abbrev pub read_more : HistoryReply → (ℤ → Result ℕ (List CachedMsg)) → Result ℕ (List CachedMsg)
read_more (refused status) go_on = err status
read_more (from_redis page next more) go_on =
    if more then (go_on next >>= λ older. ok (older ++ page)) else ok page
read_more (from_store page next more filled) go_on =
    if more then (go_on next >>= λ older. ok (older ++ page)) else ok page

abbrev pub request : ℤ → ℤ → ℤ → ℤ → HistoryRequest
request room user limit cursor = record {
  room_id = some room;
  user_id = user;
  cursor = cursor;
  limit = limit;
}

pub read_all : Module → ℤ → ℤ → ℤ → ℕ → ℤ → Result ℕ (List CachedMsg)
read_all m room user limit zero cursor = err 0
read_all m room user limit (suc fuel) cursor =
    read_more (get_chat_history m (request room user limit cursor))
      (read_all m room user limit fuel)

module _ (m : Module) (rows : List Row) (visible : ℤ → Row → Bool)
    (law : IsHistory m.get_history_by_cursor visible rows)
    (same_room : (room : ℤ) (y : Row) → visible room y ≡ true → y.room_id ≡ room) (room user : ℤ)
    (member : m.check_is_member room user ≡ ok true) (n : ℕ) (most : suc n ≤ 100) where
  abbrev view : List Row → List Row
  view = keep (visible room)

  abbrev reply : ℤ → HistoryReply
  reply cursor = get_chat_history m (request room user (pos (suc n)) cursor)

  abbrev stored : ℤ → HistoryReply
  stored cursor =
      store_page cursor (pos (suc n)) (m.get_history_by_cursor room cursor (pos (suc n)))

  -- A page whose rows are the newest of `back`.
  abbrev IsPage : ℤ → List Row → Type 0
  IsPage cursor back =
      m.get_history_by_cursor room cursor (pos (suc n))
      ≡ oldest_first (ok (take (suc n) (view back)))

  abbrev IsServed : ℤ → Type 0
  IsServed cursor =
      (go_on : ℤ → Result ℕ (List CachedMsg))
      → read_more (reply cursor) go_on ≡ read_more (stored cursor) go_on

  clamped : clamp_limit (pos (suc n)) ≡ pos (suc n)
  clamped = ground arith

  stored-IsServed : (cursor : ℤ) → cached_page m room cursor (pos (suc n)) ≡ none → IsServed cursor
  unfolding get_chat_history
  stored-IsServed cursor e go_on = rw (clamped, member, e) refl

  behind-IsServed : (cursor : ℤ) → pos 0 <ℤ cursor → IsServed cursor
  behind-IsServed cursor positive =
      stored-IsServed cursor (ground (arith, int_eq.beq_iff cursor (pos 0)))

  -- What the page of some rows comes to, where it is short and where it is full.
  abbrev page : List Row → ℤ → HistoryReply
  page some_rows cursor = store_page cursor (pos (suc n)) (oldest_first (ok some_rows))

  short_page :
      (some_rows : List Row) (go_on : ℤ → Result ℕ (List CachedMsg)) (cursor : ℤ)
      → length some_rows < suc n
      → read_more (page some_rows cursor) go_on ≡ ok (shown some_rows)
  short_page some_rows go_on cursor h =
      let e : eqb (length (map to_message (reverse some_rows))) (suc n) ≡ false =
        ground (arith, length-shown some_rows) in
      rw e refl

  filled_page :
      (some_rows : List Row) (go_on : ℤ → Result ℕ (List CachedMsg)) (cursor : ℤ)
      (older : List CachedMsg)
      → length some_rows ≡ suc n
      → go_on (first_id (shown some_rows)) ≡ ok older
      → read_more (page some_rows cursor) go_on ≡ ok (older ++ shown some_rows)
  filled_page some_rows go_on cursor older h next =
      let e : eqb (length (map to_message (reverse some_rows))) (suc n) ≡ true =
        ground (arith, length-shown some_rows) in
      rw (e, next) refl

  last_page :
      (back : List Row) (go_on : ℤ → Result ℕ (List CachedMsg)) (cursor : ℤ)
      → IsPage cursor back
      → length (view back) < suc n
      → read_more (stored cursor) go_on ≡ ok (shown (view back))
  last_page back go_on cursor is_page short =
      ap (λ r. read_more (store_page cursor (pos (suc n)) r) go_on) is_page
      ∙ (ap (λ v. read_more (page v cursor) go_on) (take-all (suc n) (view back) (omega arith))
          ∙ short_page (view back) go_on cursor short)

  first_last : (front : List Row) (x : Row) → first_id (shown (front ++ x ∷ [])) ≡ x.id
  first_last front x = rw (shown-append front (x ∷ [])) refl

  page_then :
      (back : List Row) (go_on : ℤ → Result ℕ (List CachedMsg)) (cursor : ℤ)
      → IsPage cursor back
      → (s : Split (visible room) (suc n) back) → suc n ≤ length (view back)
      → go_on s.last.id ≡ ok (shown (view s.back))
      → read_more (stored cursor) go_on ≡ ok (shown (view back))
  page_then back go_on cursor is_page s long older =
      let at : first_id (shown (take (suc n) (view back))) ≡ s.last.id =
        ap (λ v. first_id (shown v)) s.page_is ∙ first_last (view s.front) s.last in
      ap (λ r. read_more (store_page cursor (pos (suc n)) r) go_on) is_page
      ∙ (filled_page (take (suc n) (view back)) go_on cursor (shown (view s.back))
            (length-take (suc n) (view back) long) (ap go_on at ∙ older)
          ∙ ap ok (
              ap (λ v. shown v ++ shown (take (suc n) (view back))) s.rest_is
              ∙ (sym (shown-append (take (suc n) (view back)) (drop (suc n) (view back)))
                  ∙ ap shown (take-append-drop (suc n) (view back)))))

  abbrev IsRead : ℕ → Type 0
  IsRead fuel =
      (front back : List Row) (cursor : ℤ)
      → rows ≡ front ++ back
      → All (λ y. pos 0 <ℤ y.id) back
      → IsServed cursor
      → IsPage cursor back
      → length (view back) < fuel
      → read_all m room user (pos (suc n)) fuel cursor ≡ ok (shown (view back))

  next_page :
      (fuel : ℕ) (front back : List Row) (s : Split (visible room) (suc n) back)
      → rows ≡ front ++ back
      → All (λ y. pos 0 <ℤ y.id) back
      → length (view back) < suc fuel
      → suc n ≤ length (view back)
      → IsRead fuel
      → read_all m room user (pos (suc n)) fuel s.last.id ≡ ok (shown (view s.back))
  next_page fuel front back s e positive h long rest =
      let (_, at) =
        All-split (λ y. pos 0 <ℤ y.id) s.front (s.last ∷ s.back)
          (subst (All (λ y. pos 0 <ℤ y.id)) s.rows_are positive) in
      let around : rows ≡ (front ++ s.front) ++ s.last ∷ s.back =
        e
        ∙ (ap (λ l. front ++ l) s.rows_are ∙ sym (append_assoc front s.front (s.last ∷ s.back))) in
      rest ((front ++ s.front) ++ s.last ∷ []) s.back s.last.id
        (around ∙ sym (append_assoc (front ++ s.front) (s.last ∷ []) s.back)) at.1
        (behind-IsServed s.last.id at.0)
        (law.behind room (suc n) (front ++ s.front) s.last s.back around
          (same_room room s.last s.picked) at.0)
        (omega (arith, ap length s.rest_is, length-drop (suc n) (view back)))

  -- From any page on, the rest of the history is read, in at most as many pages as it has messages, and one.
  pages : (fuel : ℕ) → IsRead fuel
  unfolding read_all
  pages zero front back cursor e positive served is_page h = absurd (omega arith)
  pages (suc fuel) front back cursor e positive served is_page h =
      elim (Bool-cases (ltb (length (view back)) (suc n))) [
        | inl short ↦
            served (read_all m room user (pos (suc n)) fuel)
            ∙ last_page back (read_all m room user (pos (suc n)) fuel) cursor is_page (ground arith)
        | inr long ↦
            let enough : suc n ≤ length (view back) = ground arith in
            let s = cut_page (visible room) n back enough in
            served (read_all m room user (pos (suc n)) fuel)
            ∙ page_then back (read_all m room user (pos (suc n)) fuel) cursor is_page s enough
                (next_page fuel front back s e positive h enough (pages fuel))
      ]

  -- A full page of the cache is the newest page of the store.
  abbrev pub IsFresh : Type 0
  IsFresh =
      (cached : List CachedMsg)
      → m.get_latest_messages room (pos (suc n)) ≡ ok cached
      → length cached ≡ suc n
      → cached ≡ shown (take (suc n) (view rows))

  full_page-some :
      (r : Result DbError (List CachedMsg)) (cached : List CachedMsg)
      → full_page (pos (suc n)) r ≡ some cached
      → (r ≡ ok cached) × (length cached ≡ suc n)
  full_page-some (err e) cached h = cc h
  full_page-some (ok found) cached h = ground arith

  cached_page-some :
      (cached : List CachedMsg)
      → cached_page m room (pos 0) (pos (suc n)) ≡ some cached
      → (m.get_latest_messages room (pos (suc n)) ≡ ok cached) × (length cached ≡ suc n)
  cached_page-some cached h = elim (Bool-cases m.store_is_mongo) [
    | inl mongo ↦ absurd (ground arith)
    | inr mysql ↦ full_page-some (m.get_latest_messages room (pos (suc n))) cached (rw mysql at h)
  ]

  -- Of equal contents the cache's page and the store's lead on alike.
  redis-store :
      (some_rows : List Row) (go_on : ℤ → Result ℕ (List CachedMsg))
      → read_more (redis_page (pos (suc n)) (shown some_rows)) go_on
        ≡ read_more (page some_rows (pos 0)) go_on
  redis-store some_rows go_on =
      ap
        (λ k.
          if eqb k (suc n)
          then (go_on (first_id (shown some_rows)) >>= λ older. ok (older ++ shown some_rows))
          else ok (shown some_rows))
        (length-map cached_msg (map to_message (reverse some_rows)))

  redis-IsServed :
      (cached : List CachedMsg)
      → IsFresh
      → cached_page m room (pos 0) (pos (suc n)) ≡ some cached
      → IsServed (pos 0)
  unfolding get_chat_history
  redis-IsServed cached fresh e go_on =
      let (found, full) = cached_page-some cached e in
      rw (clamped, member, e)
        (ap (λ c. read_more (redis_page (pos (suc n)) c) go_on) (fresh cached found full)
          ∙ (redis-store (take (suc n) (view rows)) go_on
              ∙ sym (
                  ap (λ r. read_more (store_page (pos 0) (pos (suc n)) r) go_on)
                    (law.newest room (suc n)))))

  first-IsServed : IsFresh → IsServed (pos 0)
  first-IsServed fresh = elim (Option-cases (cached_page m room (pos 0) (pos (suc n)))) [
    | inl missed ↦ stored-IsServed (pos 0) missed
    | inr (cached, hit) ↦ redis-IsServed cached fresh hit
  ]

  -- A member of a room who reads its history with any page size from 1 to 100, page by page, until no more is
  -- announced, is shown every message of the room that is not deleted, once and from the oldest to the newest;
  -- the pages are at most as many as the messages, and one. A full page of the cache must be the newest page of
  -- the store.
  pub read_all-shown :
      All (λ y. pos 0 <ℤ y.id) rows
      → IsFresh
      → read_all m room user (pos (suc n)) (suc (length (view rows))) (pos 0)
        ≡ ok (shown (view rows))
  read_all-shown positive fresh =
      pages (suc (length (view rows))) [] rows (pos 0) refl positive (first-IsServed fresh)
        (law.newest room (suc n)) (omega arith)
