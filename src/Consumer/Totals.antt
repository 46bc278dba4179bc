-- ===== src/Consumer/Totals.antt =====
-- What the handlers of consumeBatches add up to (services/messages/sequencer/batch.go).
use mathlib.Core.List.{append-nil}
use lan_sync.Prelude.{
  ◌≡◌, refl, inl, inr, Option, none, some, List, [], ◌∷◌, ◌++◌, concat, concat-append, Bool-cases,
}
use lan_sync.Prelude.Int.{pos, ltb_ℤ}
use lan_sync.Retry.{Attempt, retry}
use lan_sync.Consumer.{
  KafkaMessage, size, BatchOptions, Batch, collect, Round, Status, running, blocked, stopped, Error,
  Consumer, Handled, handled_ok, handler_waiting, handler_error, start, commit_batch, finish,
  after_handle, process, fetch_first, consume_round, go_on, consume_loop, consume_batches,
  bounds_invalid,
}

-- What a handler adds up over the batches that it accepts holds of all that the loop has handled.
module _ {H : Type 0} (opts : BatchOptions)
    (handle : List Attempt → List KafkaMessage → H → Handled × H)
    (P : List KafkaMessage → H → Type 0)
    (extends : (rounds : List Attempt) (done records : List KafkaMessage) (h : H)
      → P done h
      → (handle rounds records h).0 ≡ handled_ok
      → P (done ++ records) (handle rounds records h).1) where
  abbrev Holds : Status × Consumer H → Type 0
  Holds (running, c) = P (concat c.handled) c.handler
  Holds (blocked, c) = Unit
  Holds (stopped e, c) = Unit

  finish-Holds :
      (terminal : Option Error) (records : List KafkaMessage) (rounds : List Attempt)
      (c : Consumer H)
      → P (concat c.handled) c.handler
      → Holds (finish terminal (retry (commit_batch records) rounds c))
  unfolding retry
  finish-Holds terminal records [] c v = tt
  finish-Holds terminal records (Attempt.cancelled ∷ rounds) c v = tt
  finish-Holds none records (Attempt.succeeds ∷ rounds) c v = v
  finish-Holds (some e) records (Attempt.succeeds ∷ rounds) c v = tt
  finish-Holds terminal records (Attempt.fails ∷ rounds) c v =
      finish-Holds terminal records rounds c v
  finish-Holds terminal records (Attempt.fails_cancelled ∷ rounds) c v = tt

  after_handle-Holds :
      (r : Round) (b : Batch) (c : Consumer H) (p : Handled × H)
      → (p.0 ≡ handled_ok → P (concat c.handled ++ b.records) p.1)
      → Holds (after_handle r b c p)
  after_handle-Holds r b c (handler_waiting, h) v = tt
  after_handle-Holds r b c (handler_error e, h) v = tt
  after_handle-Holds r b c (handled_ok, h) v =
      finish-Holds b.terminal b.records r.commits _
        (rw (concat-append c.handled (b.records ∷ []), append-nil b.records) (v refl))

  process-Holds :
      (r : Round) (m : KafkaMessage) (c : Consumer H)
      → P (concat c.handled) c.handler
      → Holds (process opts handle r m c)
  unfolding process
  process-Holds r m c v = elim (Bool-cases (ltb_ℤ opts.max_bytes (pos (size m)))) [
    | inl over ↦ rw over tt
    | inr fits ↦ rw fits (elim (Bool-cases r.cancelled) [
      | inl stop ↦ rw stop tt
      | inr continue ↦ rw continue (
          let b = collect opts (m ∷ []) (size m) r.polls c.source in
          let taken = record c { source = b.source; pending = b.pending; in_flight = b.records } in
          after_handle-Holds r b taken (handle r.handling b.records c.handler)
            (extends r.handling (concat c.handled) b.records c.handler v))
    ])
  ]

  fetch_first-Holds :
      (r : Round) (pending : Option KafkaMessage) (source : List KafkaMessage) (c : Consumer H)
      → P (concat c.handled) c.handler
      → Holds (fetch_first opts handle r pending source c)
  unfolding process
  fetch_first-Holds r (some m) source c v = process-Holds r m (record c { pending = none }) v
  fetch_first-Holds r none [] c v = elim (Bool-cases r.fetch_fails) [
    | inl bad ↦ rw bad tt
    | inr good ↦ rw good tt
  ]
  fetch_first-Holds r none (m ∷ source) c v = elim (Bool-cases r.fetch_fails) [
    | inl bad ↦ rw bad tt
    | inr good ↦ simp good (process-Holds r m (record c { source = source }) v)
  ]

  go_on-Holds :
      (next : Consumer H → Status × Consumer H)
      → ((d : Consumer H) → P (concat d.handled) d.handler → Holds (next d))
      → (p : Status × Consumer H) → Holds p
      → Holds (go_on opts handle next p)
  go_on-Holds next keep (running, d) w = keep d w
  go_on-Holds next keep (blocked, d) w = w
  go_on-Holds next keep (stopped e, d) w = w

  consume_loop-Holds :
      (rounds : List Round) (c : Consumer H)
      → P (concat c.handled) c.handler
      → Holds (consume_loop opts handle rounds c)
  unfolding consume_loop
  consume_loop-Holds [] c v = v
  consume_loop-Holds (r ∷ rounds) c v =
      go_on-Holds (consume_loop opts handle rounds) (consume_loop-Holds rounds)
        (consume_round opts handle r c)
        (unfold consume_round in fetch_first-Holds r c.pending c.source c v)

  running-Holds :
      (p : Status × Consumer H) → Holds p → p.0 ≡ running → P (concat p.1.handled) p.1.handler
  running-Holds (running, c) v e = v
  running-Holds (blocked, c) v e = cc e
  running-Holds (stopped x, c) v e = cc e

  pub consume_batches-adds_up :
      (topic : List KafkaMessage) (h : H) (rounds : List Round)
      → P [] h
      → let r = consume_batches opts handle rounds (start topic h) in
        r.0 ≡ running → P (concat r.1.handled) r.1.handler
  unfolding consume_batches
  consume_batches-adds_up topic h rounds v = elim (Bool-cases (bounds_invalid opts)) [
    | inl bad ↦ rw bad (λ e. cc e)
    | inr good ↦ rw good (running-Holds _ (consume_loop-Holds rounds (start topic h) v))
  ]
