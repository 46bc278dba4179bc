-- ===== src/Archiver/Passes.antt =====
-- The passes of the archiver's loop (services/messages/archiver/worker-kafka.go).
use mathlib.Core.List.{append-nil, map-append}
use lan_sync.Prelude.{
  ◌≡◌, refl, sym, ap, ◌∙◌, inl, Bool, Option, List, [], ◌∷◌, ◌++◌, if◌then◌else◌, arith, length,
  ltb, if_cases,
}
use lan_sync.Prelude.Int.{ℤ}
use lan_sync.Prelude.Result.{Result, ok, err}
use lan_sync.Events
use lan_sync.Events.{MessageEnvelope, Codec, unmarshal}
use lan_sync.Consumer.{KafkaMessage}
use lan_sync.Pipeline.Numbered.{acked}
use lan_sync.Archiver.{
  Error, Pass, Worker, Status, start, flush, is_unnumbered, take_in, archive, and_then, exit,
  read_message, work, run, batch_size,
}
use lan_sync.Archiver.Cursor.{
  messages, offsets, Safe, Steady, After, Steady-Safe, Flushed-After, flush-Flushed, Flushed-exit,
  After-and_then, Steady-take_in,
}

module _ (topic : List KafkaMessage) (first : Option ℤ) where
  cut-Safe :
      (w : Worker) (source : List KafkaMessage)
      → Steady topic first w
      → Safe topic first (record w { source = source })
  cut-Safe w source v = record {
    unread = offsets w.source;
    read = v.read;
    settled = v.settled;
    ahead = [];
    left = v.waiting;
    accepted = v.accepted;
    saved = v.saved ∙ ap messages (sym (append-nil v.settled));
    cursor = v.cursor;
  }

  archive-After :
      (p : Pass) (w : Worker) (k : KafkaMessage) (source : List KafkaMessage)
      (r : Result Events.Error MessageEnvelope)
      → Steady topic first w
      → w.source ≡ k ∷ source
      → After topic first (archive p (record w { source = source }) k.offset r)
  archive-After p w k source (err x) v e = cut-Safe w source v
  archive-After p w k source (ok m) v e =
      let w1 = record w { source = source } in
      let next = take_in w1 k.offset m in
      let u : Steady topic first next = Steady-take_in topic first w k source m v e in
      if_cases (After topic first) (is_unnumbered m) (Status.failed Error.missing_number, w1)
        (if ltb (length next.batch) batch_size
          then (Status.running, next)
          else flush p.full_flush next)
        (λ _. cut-Safe w source v)
        (λ _.
          if_cases (After topic first) (ltb (length next.batch) batch_size) (Status.running, next)
            (flush p.full_flush next) (λ _. u)
            (λ _.
              Flushed-After topic first (flush p.full_flush next)
                (flush-Flushed topic first p.full_flush next u)))

  module _ (codec : Codec) where
    read_message-After :
        (p : Pass) (records : List KafkaMessage) (w : Worker)
        → w.source ≡ records
        → Steady topic first w
        → After topic first (read_message codec p records w)
    read_message-After p [] w e v = v
    read_message-After p (k ∷ source) w e v =
        let w1 = record w { source = source } in
        if_cases (After topic first) p.reads (archive p w1 k.offset (unmarshal codec p.now k.value))
          (Status.running, w) (λ _. archive-After p w k source (unmarshal codec p.now k.value) v e)
          (λ _. v)

    work-After : (p : Pass) (w : Worker) → Steady topic first w → After topic first (work codec p w)
    unfolding work
    work-After p w v =
        let ticked = if p.ticked then flush p.tick_flush w else (Status.running, w) in
        if_cases (After topic first) p.cancelled (exit (flush p.tick_flush w))
          (and_then ticked (λ w1. read_message codec p w1.source w1))
          (λ _.
            Flushed-exit topic first (flush p.tick_flush w)
              (flush-Flushed topic first p.tick_flush w v))
          (λ _.
            After-and_then topic first ticked (λ w1. read_message codec p w1.source w1)
              (if_cases (After topic first) p.ticked (flush p.tick_flush w) (Status.running, w)
                (λ _.
                  Flushed-After topic first (flush p.tick_flush w)
                    (flush-Flushed topic first p.tick_flush w v))
                (λ _. v))
              (λ w1 v1. read_message-After p w1.source w1 refl v1))

    run-After :
        (passes : List Pass) (w : Worker)
        → Steady topic first w
        → After topic first (run codec passes w)
    unfolding run
    run-After [] w v = v
    run-After (p ∷ passes) w v =
        After-and_then topic first (work codec p w) (run codec passes) (work-After p w v)
          (run-After passes)

After-Safe :
    (topic : List KafkaMessage) (first : Option ℤ) (r : Status × Worker)
    → After topic first r
    → Safe topic first r.1
After-Safe topic first (Status.running, w) v = Steady-Safe topic first w v
After-Safe topic first (Status.exited, w) (v, e) = Steady-Safe topic first w v
After-Safe topic first (Status.failed x, w) v = v

start-Steady :
    (source : List KafkaMessage) (has_redis : Bool) (first : Option ℤ)
    → Steady source first (start source has_redis first)
start-Steady source has_redis first = record {
  read = refl;
  settled = [];
  waiting = [];
  accepted = refl;
  saved = refl;
  in_batch = refl;
  cursor = ground arith;
  last = λ before. inl refl;
}

-- Whatever the storage, Redis and the reader answer, the archiver saves the messages in the order in which
-- it read them, each once, and its cursor stands at the last of a run of records from the first
-- on whose messages are all saved: after a restart behind the cursor no message is missing.
pub run-Safe :
    (codec : Codec) (source : List KafkaMessage) (has_redis : Bool) (first : Option ℤ)
    (passes : List Pass)
    → Safe source first (run codec passes (start source has_redis first)).1
run-Safe codec source has_redis first passes =
    After-Safe source first (run codec passes (start source has_redis first)) (
      run-After source first codec passes (start source has_redis first)
        (start-Steady source has_redis first))

exit-saved :
    (topic : List KafkaMessage) (first : Option ℤ) (r : Status × Worker)
    → After topic first r
    → r.0 ≡ Status.exited
    → acked r.1.attempts ≡ messages r.1.accepted
exit-saved topic first (Status.running, w) v e = cc e
exit-saved topic first (Status.failed x, w) v e = cc e
exit-saved topic first (Status.exited, w) (v, none_left) e =
    v.saved
    ∙ sym (append-nil (messages v.settled))
    ∙ ap (λ xs. messages v.settled ++ xs) (sym none_left ∙ v.in_batch)
    ∙ sym (map-append (λ (x : ℤ × MessageEnvelope). x.1) v.settled v.waiting)
    ∙ ap messages v.accepted

-- When the archiver exits because its context is done, every message that it read is saved.
pub run-exited :
    (codec : Codec) (source : List KafkaMessage) (has_redis : Bool) (first : Option ℤ)
    (passes : List Pass)
    → (run codec passes (start source has_redis first)).0 ≡ Status.exited
    → let w = (run codec passes (start source has_redis first)).1 in
      acked w.attempts ≡ messages w.accepted
run-exited codec source has_redis first passes e =
    exit-saved source first (run codec passes (start source has_redis first))
      (run-After source first codec passes (start source has_redis first)
        (start-Steady source has_redis first))
      e
