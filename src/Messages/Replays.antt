-- ===== src/Messages/Replays.antt =====
-- A message that is saved again keeps what was stored first (services/messages/repository, message_identity.go).
use lan_sync.Prelude.{
  ◌≡◌, refl, sym, ◌∙◌, ◌⊎◌, inl, inr, Bool, true, false, not, some, List, [], ◌∷◌, ◌&&◌, ◌||◌, ◌==◌,
  if◌then◌else◌, string_eq, pair_eq, Bool-cases, eq_of, arith,
}
use mathlib.Core.Path.{subst, subst₂}
use mathlib.Core.List.{Memᴰ}
use lan_sync.Prelude.Int.{pos, ltb_ℤ, int_eq}
use lan_sync.Prelude.Assoc.{Assoc, lookup, insert, lookup-insert}
use lan_sync.Prelude.Result.{Result, ok, err, or_fail, or_fail-eq-ok, bind-ok, ok-injective}
use lan_sync.Messages.{Message, DbError}
use lan_sync.Messages.Saving.{
  SaveError, MessageRequestKey, request_key, is_conflict, reconcile_message, by_key, reconcile_all,
  MessageTable, client_ids, transaction, reconciled, after_write, mysql_save_message_batch,
  store_failed, missing_message,
}

-- The parts of a numbered message that never change.
pub record IsSame (m n : Message) : Type 0 where
  pub id : m.id ≡ n.id
  pub room_seq : m.room_seq ≡ n.room_seq
  pub room_id : m.room_id ≡ n.room_id
  pub sender_id : m.sender_id ≡ n.sender_id
  pub client_msg_id : m.client_msg_id ≡ n.client_msg_id
  pub content : m.content ≡ n.content
  pub type : m.type ≡ n.type

-- What the test of the code leaves, as a fact about seven comparisons.
all_equal :
    (numbered a b c d e f g : Bool)
    → (numbered && (not a || not b || not c || not d || not e || not f || not g)) ≡ false
    → (numbered ≡ false)
      ⊎ ((a ≡ true) × (b ≡ true) × (c ≡ true) × (d ≡ true) × (e ≡ true) × (f ≡ true) × (g ≡ true))
all_equal false a b c d e f g h = inl refl
all_equal true a b c d e f g h = inr (ground arith)

conflict-IsSame :
    (m n : Message) → is_conflict m n ≡ false → (ltb_ℤ (pos 0) m.room_seq ≡ false) ⊎ (IsSame m n)
conflict-IsSame m n h =
    elim (all_equal (ltb_ℤ (pos 0) m.room_seq) (m.id == n.id) (m.room_seq == n.room_seq)
      (m.room_id == n.room_id) (m.sender_id == n.sender_id) (m.client_msg_id == n.client_msg_id)
      (m.content == n.content) (m.type == n.type) h) [
        | inl unnumbered ↦ inl unnumbered
        | inr (a, b, c, d, e, f, g) ↦ inr (record {
          id = eq_of m.id n.id a;
          room_seq = eq_of m.room_seq n.room_seq b;
          room_id = eq_of m.room_id n.room_id c;
          sender_id = eq_of m.sender_id n.sender_id d;
          client_msg_id = eq_of m.client_msg_id n.client_msg_id e;
          content = eq_of m.content n.content f;
          type = eq_of m.type n.type g;
        })
      ]

-- A property of the stored messages under their keys.
module _ {ℓ} (P : MessageRequestKey → Message → Type ℓ) where
  chosen-keeps :
      (table : Assoc MessageRequestKey Message) (x : Message) (j : MessageRequestKey) (y : Message)
      (b : Bool)
      → (request_key x == j) ≡ b
      → (lookup j table ≡ some y → P j y)
      → P (request_key x) x
      → (if b then some x else lookup j table) ≡ some y
      → P j y
  chosen-keeps table x j y true same old new h =
      let e : x ≡ y = cc h in subst₂ P (eq_of (request_key x) j same) e new
  chosen-keeps table x j y false other old new h = old h

  by_key-keeps :
      (table : Assoc MessageRequestKey Message) (rest : List Message)
      → ((k : MessageRequestKey) (m : Message) → lookup k table ≡ some m → P k m)
      → ((m : Message) → Memᴰ m rest → P (request_key m) m)
      → (k : MessageRequestKey) (m : Message) → lookup k (by_key table rest) ≡ some m
      → P k m
  unfolding by_key
  by_key-keeps table [] old new k m h = old k m h
  by_key-keeps table (x ∷ rest) old new k m h =
      by_key-keeps (insert (request_key x) x table) rest
        (λ j y e.
          chosen-keeps table x j y (request_key x == j) refl (old j y) (new x (Memᴰ.head refl))
            (sym (lookup-insert (request_key x) j x table) ∙ e))
        (λ y within. new y (Memᴰ.tail within)) k m h

-- What a message becomes: one of those that the store has under its sender and client id, which is the
-- same message where it has a number.
abbrev pub IsSaved : List Message → Message → Message → Type 0
IsSaved found m saved =
    (Memᴰ saved found)
    × (request_key saved ≡ request_key m)
    × ((ltb_ℤ (pos 0) m.room_seq ≡ false) ⊎ (IsSame m saved))

abbrev pub AreSaved : List Message → List Message → List Message → Type 0
AreSaved found [] [] = Unit
AreSaved found (m ∷ msgs) (saved ∷ others) = IsSaved found m saved × AreSaved found msgs others
AreSaved found _ _ = ⊥

abbrev IsFound : List Message → MessageRequestKey → Message → Type 0
IsFound found k m = (Memᴰ m found) × (request_key m ≡ k)

lookup-IsFound :
    (found : List Message) (k : MessageRequestKey) (m : Message)
    → lookup k (by_key [] found) ≡ some m
    → IsFound found k m
unfolding lookup
lookup-IsFound found =
    by_key-keeps (IsFound found) [] found (λ k m h. cc h) (λ m within. (within, refl))

reconcile-IsSaved :
    (found : List Message) (m stored saved : Message)
    → IsFound found (request_key m) stored
    → reconcile_message m stored ≡ ok saved
    → IsSaved found m saved
unfolding reconcile_message
reconcile-IsSaved found m stored saved at h = elim (Bool-cases (is_conflict m stored)) [
  | inl conflict ↦ absurd (let k = rw conflict at h in cc k)
  | inr agree ↦
      let same : stored ≡ saved = ok-injective (rw agree at h) in
      rw (← same) (at.0, at.1, conflict-IsSame m stored agree)
]

reconcile_all-AreSaved :
    (found msgs saved : List Message)
    → reconcile_all (by_key [] found) msgs ≡ ok saved
    → AreSaved found msgs saved
unfolding reconcile_all
reconcile_all-AreSaved found [] [] h = tt
reconcile_all-AreSaved found [] (s ∷ saved) h = absurd (cc h)
reconcile_all-AreSaved found (m ∷ msgs) saved h =
    let (stored, e₁, h₁) =
      bind-ok (or_fail (lookup (request_key m) (by_key [] found)) missing_message) _ h in
    let (same, e₂, h₂) = bind-ok (reconcile_message m stored) _ h₁ in
    let (others, e₃, h₃) = bind-ok (reconcile_all (by_key [] found) msgs) _ h₂ in
    subst (AreSaved found (m ∷ msgs)) (ok-injective h₃) (
      reconcile-IsSaved found m stored same
          (lookup-IsFound found (request_key m) stored
            (or_fail-eq-ok (lookup (request_key m) (by_key [] found)) missing_message e₁))
          e₂,
      reconcile_all-AreSaved found msgs others e₃,
    )

module _ {S : Type 0} (table : MessageTable S) where
  -- A batch that is saved: what the store then answers holds every message, under its sender and client id.
  abbrev pub IsBatchSaved : List Message → List Message → S → Type 0
  IsBatchSaved msgs saved t =
      (found : List Message) × ((msgs ≡ [])
        ⊎ (table.find_by_client_ids (client_ids table msgs) t ≡ ok found))
      × (AreSaved found msgs saved)

  -- A call either fails and leaves the store as it was, or saves the batch.
  abbrev pub IsOutcome : List Message → S → Result SaveError (List Message) → S → Type 0
  IsOutcome msgs s result t =
      ((e : SaveError) × (result ≡ err e) × (t ≡ s))
      ⊎ ((saved : List Message) × (result ≡ ok saved) × (IsBatchSaved msgs saved t))

  taken_back :
      (msgs : List Message) (s t : S) (found : List Message) (r : Result SaveError (List Message))
      → table.find_by_client_ids (client_ids table msgs) t ≡ ok found
      → reconcile_all (by_key [] found) msgs ≡ r
      → IsOutcome msgs s (transaction s (r, t)).0 (transaction s (r, t)).1
  taken_back msgs s t found (err e) answer h = inl (e, refl, refl)
  taken_back msgs s t found (ok saved) answer h =
      inr (saved, refl, (found, inr answer, reconcile_all-AreSaved found msgs saved h))

  reconciled-IsOutcome :
      (msgs : List Message) (s t : S) (answer : Result DbError (List Message))
      → table.find_by_client_ids (client_ids table msgs) t ≡ answer
      → IsOutcome msgs s
          (transaction s (reconciled table msgs t answer)).0
          (transaction s (reconciled table msgs t answer)).1
  reconciled-IsOutcome msgs s t (err e) h = inl (store_failed, refl, refl)
  reconciled-IsOutcome msgs s t (ok found) h =
      taken_back msgs s t found (reconcile_all (by_key [] found) msgs) h refl

  written-IsOutcome :
      (msgs : List Message) (s : S) (x : Result DbError (Unit {0}) × S)
      → IsOutcome msgs s
          (transaction s (after_write table msgs x)).0
          (transaction s (after_write table msgs x)).1
  written-IsOutcome msgs s (err e, t) = inl (store_failed, refl, refl)
  written-IsOutcome msgs s (ok _, t) =
      reconciled-IsOutcome msgs s t (table.find_by_client_ids (client_ids table msgs) t) refl

  -- SaveMessageBatch over MySQL either returns an error and leaves the database as it was, or each message of
  -- the batch becomes one that the database has under its sender and client id: the same message in its id,
  -- room, number, content and type where it has a number, however often it was saved before.
  pub mysql_save_message_batch-IsOutcome :
      (msgs : List Message) (s : S)
      → IsOutcome msgs s
          (mysql_save_message_batch table msgs s).0
          (mysql_save_message_batch table msgs s).1
  unfolding mysql_save_message_batch
  mysql_save_message_batch-IsOutcome [] s = inr ([], refl, ([], inl refl, tt))
  mysql_save_message_batch-IsOutcome (m ∷ rest) s =
      written-IsOutcome (m ∷ rest) s (table.create_in_batches (m ∷ rest) s)
