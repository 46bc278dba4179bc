-- ===== src/Archiver/Cursor.antt =====
-- The cursor of the archiver and the messages that are saved
-- (services/messages/archiver/worker-kafka.go).
use mathlib.Core.List.{append_assoc, append-nil, map-append}
use lan_sync.Prelude.{
  ◌≡◌, refl, sym, ap, ◌∙◌, ◌⊎◌, inl, inr, Bool, true, false, not, Option, some, List, [], ◌∷◌, ◌++◌,
  map, if◌then◌else◌, arith, if_cases,
}
use lan_sync.Prelude.Int.{ℤ}
use lan_sync.Events.{MessageEnvelope}
use lan_sync.Consumer.{KafkaMessage}
use lan_sync.Pipeline.Numbered.{acked, acked-append}
use lan_sync.Archiver.{
  Error, Flush, Worker, Status, push_latest, save_offset, save_batch, flush_batch, flush, take_in,
  and_then, exit,
}

abbrev pub messages : List (ℤ × MessageEnvelope) → List MessageEnvelope
messages xs = map (λ x. x.1) xs

-- The offset of the last record of a list, or what stands before it.
abbrev pub offset_after : List (ℤ × MessageEnvelope) → Option ℤ → Option ℤ
offset_after [] before = before
offset_after ((o, m) ∷ xs) before = offset_after xs (some o)

offset_after-append :
    (xs ys : List (ℤ × MessageEnvelope)) (before : Option ℤ)
    → offset_after (xs ++ ys) before ≡ offset_after ys (offset_after xs before)
offset_after-append [] ys before = refl
offset_after-append ((o, m) ∷ xs) ys before = offset_after-append xs ys (some o)

abbrev pub offsets : List KafkaMessage → List ℤ
offsets records = map (λ r. r.offset) records

abbrev pub offsets_in : List (ℤ × MessageEnvelope) → List ℤ
offsets_in xs = map (λ x. x.0) xs

module _ (topic : List KafkaMessage) (first : Option ℤ) where
  -- The accepted records are the first ones of the partition. The cursor stands at the last of the
  -- records `settled`, and at least their messages are saved.
  pub record Safe (w : Worker) : Type 0 where
    pub unread : List ℤ
    pub read : offsets_in w.accepted ++ unread ≡ offsets topic
    pub settled : List (ℤ × MessageEnvelope)
    pub ahead : List (ℤ × MessageEnvelope)
    pub left : List (ℤ × MessageEnvelope)
    pub accepted : settled ++ (ahead ++ left) ≡ w.accepted
    pub saved : acked w.attempts ≡ messages (settled ++ ahead)
    pub cursor : w.cursor ≡ (if w.has_redis then offset_after settled first else first)

  -- While the worker runs, everything that was accepted is saved or in the batch.
  pub record Steady (w : Worker) : Type 0 where
    pub read : offsets_in w.accepted ++ offsets w.source ≡ offsets topic
    pub settled : List (ℤ × MessageEnvelope)
    pub waiting : List (ℤ × MessageEnvelope)
    pub accepted : settled ++ waiting ≡ w.accepted
    pub saved : acked w.attempts ≡ messages settled
    pub in_batch : w.batch ≡ messages waiting
    pub cursor : w.cursor ≡ (if w.has_redis then offset_after settled first else first)
    pub last :
        (before : Option ℤ) → (waiting ≡ []) ⊎ (offset_after waiting before ≡ some w.last_offset)

  -- What a pass ends in: an orderly exit leaves nothing unsaved.
  abbrev pub After : Status × Worker → Type 0
  After (Status.running, w) = Steady w
  After (Status.exited, w) = Steady w × (w.batch ≡ [])
  After (Status.failed e, w) = Safe w

  pub Steady-Safe : (w : Worker) → Steady w → Safe w
  Steady-Safe w v = record {
    unread = offsets w.source;
    read = v.read;
    settled = v.settled;
    ahead = [];
    left = v.waiting;
    accepted = v.accepted;
    saved = v.saved ∙ ap messages (sym (append-nil v.settled));
    cursor = v.cursor;
  }

  abbrev pub Flushed : Status × Worker → Type 0
  Flushed (Status.running, w) = Steady w × (w.batch ≡ [])
  Flushed (Status.exited, w) = Steady w × (w.batch ≡ [])
  Flushed (Status.failed e, w) = Safe w

  -- A saved batch: its messages follow those that were saved before.
  saved_more :
      (w : Worker) (v : Steady w)
      → acked (w.attempts ++ (w.batch, true) ∷ []) ≡ messages (v.settled ++ v.waiting)
  saved_more w v = rw (
    acked-append w.attempts ((w.batch, true) ∷ []),
    append-nil w.batch,
    v.saved,
    v.in_batch,
    map-append (λ (x : ℤ × MessageEnvelope). x.1) v.settled v.waiting,
  )

  saved_none :
      (w : Worker) (v : Steady w) → acked (w.attempts ++ (w.batch, false) ∷ []) ≡ messages v.settled
  saved_none w v =
      rw (acked-append w.attempts ((w.batch, false) ∷ []), append-nil (acked w.attempts)) v.saved

  not_waiting :
      (m : MessageEnvelope) (ms : List MessageEnvelope) (xs : List (ℤ × MessageEnvelope))
      → m ∷ ms ≡ messages xs
      → xs ≡ []
      → ⊥
  not_waiting m ms xs h e = let bad : m ∷ ms ≡ [] = h ∙ ap messages e in cc bad

  last_saved :
      (w : Worker) (v : Steady w) (m : MessageEnvelope) (ms : List MessageEnvelope)
      → w.batch ≡ m ∷ ms
      → offset_after (v.settled ++ v.waiting) first ≡ some w.last_offset
  last_saved w v m ms e = elim (v.last (offset_after v.settled first)) [
    | inl nothing ↦ absurd (not_waiting m ms v.waiting (sym e ∙ v.in_batch) nothing)
    | inr last ↦ offset_after-append v.settled v.waiting first ∙ last
  ]

  cursor_kept :
      (b : Bool) (c o n : Option ℤ)
      → c ≡ (if b then o else first)
      → not b ≡ true
      → c ≡ (if b then n else first)
  cursor_kept true c o n h e = ground arith
  cursor_kept false c o n h e = h

  cursor_moved : (b : Bool) (o n : Option ℤ) → n ≡ o → not b ≡ false → o ≡ (if b then n else first)
  cursor_moved true o n h e = sym h
  cursor_moved false o n h e = ground arith

  save_offset-Flushed :
      (f : Flush) (w : Worker) (v : Steady w) (m : MessageEnvelope) (ms : List MessageEnvelope)
      (cached : List MessageEnvelope)
      → w.batch ≡ m ∷ ms
      → Flushed (
          save_offset f
            (record w { attempts = w.attempts ++ (w.batch, true) ∷ []; cached = cached }))
  save_offset-Flushed f w v m ms cached e =
      let saved = record w { attempts = w.attempts ++ (w.batch, true) ∷ []; cached = cached } in
      if_cases Flushed (not w.has_redis) (Status.running, record saved { batch = [] })
        (if f.sets_cursor
          then (Status.running, record saved { cursor = some w.last_offset; batch = [] })
          else (Status.failed Error.cursor_failed, saved))
        (λ off. (
          record {
            read = v.read;
            settled = v.settled ++ v.waiting;
            waiting = [];
            accepted = append-nil (v.settled ++ v.waiting) ∙ v.accepted;
            saved = saved_more w v;
            in_batch = refl;
            cursor = cursor_kept w.has_redis w.cursor _ _ v.cursor off;
            last = λ before. inl refl;
          },
          refl,
        ))
        (λ on.
          if_cases Flushed f.sets_cursor
            (Status.running, record saved { cursor = some w.last_offset; batch = [] })
            (Status.failed Error.cursor_failed, saved)
            (λ _. (
              record {
                read = v.read;
                settled = v.settled ++ v.waiting;
                waiting = [];
                accepted = append-nil (v.settled ++ v.waiting) ∙ v.accepted;
                saved = saved_more w v;
                in_batch = refl;
                cursor = cursor_moved w.has_redis (some w.last_offset) _ (last_saved w v m ms e) on;
                last = λ before. inl refl;
              },
              refl,
            ))
            (λ _. record {
              unread = offsets w.source;
              read = v.read;
              settled = v.settled;
              ahead = v.waiting;
              left = [];
              accepted = ap (λ xs. v.settled ++ xs) (append-nil v.waiting) ∙ v.accepted;
              saved = saved_more w v;
              cursor = v.cursor;
            }))

  flush_batch-Flushed :
      (f : Flush) (w : Worker) (b : List MessageEnvelope)
      → Steady w
      → w.batch ≡ b
      → Flushed (flush_batch f w b)
  unfolding push_latest
  flush_batch-Flushed f w [] v e = (v, e)
  flush_batch-Flushed f w (m ∷ ms) v e =
      if_cases Flushed f.saves (save_offset f (push_latest (save_batch true w)))
        (Status.failed Error.save_failed, save_batch false w)
        (λ _. save_offset-Flushed f w v m ms _ e)
        (λ _. record {
          unread = offsets w.source;
          read = v.read;
          settled = v.settled;
          ahead = [];
          left = v.waiting;
          accepted = v.accepted;
          saved = saved_none w v ∙ ap messages (sym (append-nil v.settled));
          cursor = v.cursor;
        })

  pub flush-Flushed : (f : Flush) (w : Worker) → Steady w → Flushed (flush f w)
  unfolding flush
  flush-Flushed f w v = flush_batch-Flushed f w w.batch v refl

  pub Flushed-After : (r : Status × Worker) → Flushed r → After r
  Flushed-After (Status.running, w) (v, e) = v
  Flushed-After (Status.exited, w) v = v
  Flushed-After (Status.failed x, w) v = v

  pub Flushed-exit : (r : Status × Worker) → Flushed r → After (exit r)
  Flushed-exit (Status.running, w) v = v
  Flushed-exit (Status.exited, w) v = v
  Flushed-exit (Status.failed x, w) v = v

  pub After-and_then :
      (r : Status × Worker) (k : Worker → Status × Worker)
      → After r
      → ((w : Worker) → Steady w → After (k w))
      → After (and_then r k)
  After-and_then (Status.running, w) k v h = h w v
  After-and_then (Status.exited, w) k v h = v
  After-and_then (Status.failed x, w) k v h = v

  pub Steady-take_in :
      (w : Worker) (k : KafkaMessage) (source : List KafkaMessage) (m : MessageEnvelope)
      → Steady w
      → w.source ≡ k ∷ source
      → Steady (take_in (record w { source = source }) k.offset m)
  Steady-take_in w k source m v e =
      let o = k.offset in
      record {
        read =
            ap (λ xs. xs ++ offsets source)
              (map-append (λ (x : ℤ × MessageEnvelope). x.0) w.accepted ((o, m) ∷ []))
            ∙ append_assoc (offsets_in w.accepted) (o ∷ []) (offsets source)
            ∙ ap (λ xs. offsets_in w.accepted ++ xs) (ap offsets (sym e))
            ∙ v.read;
        settled = v.settled;
        waiting = v.waiting ++ (o, m) ∷ [];
        accepted =
            sym (append_assoc v.settled v.waiting ((o, m) ∷ []))
            ∙ ap (λ xs. xs ++ (o, m) ∷ []) v.accepted;
        saved = v.saved;
        in_batch =
            ap (λ xs. xs ++ m ∷ []) v.in_batch
            ∙ sym (map-append (λ (x : ℤ × MessageEnvelope). x.1) v.waiting ((o, m) ∷ []));
        cursor = v.cursor;
        last = λ before. inr (offset_after-append v.waiting ((o, m) ∷ []) before);
      }
