-- ===== src/Pipeline/Numbered.antt =====
-- What RunBatched writes (services/messages/sequencer/batch.go).
use mathlib.Core.List.{append_assoc, append-nil}
use lan_sync.Prelude.{
  ◌≡◌, refl, sym, ◌∙◌, Bool, true, false, List, [], ◌∷◌, ◌++◌, concat, if◌then◌else◌,
}
use lan_sync.Prelude.Result.{Result, ok, err}
use lan_sync.Events
use lan_sync.Events.{Bytes, MessageEnvelope, Codec, unmarshal, marshal}
use lan_sync.Sequencer
use lan_sync.Retry.{Attempt, RetryOutcome, done, context_done, waiting, retry}
use lan_sync.Consumer.{KafkaMessage, BatchOptions, Error, handled_ok, Round, running}
use lan_sync.Consumer.Totals.{consume_batches-adds_up}
use lan_sync.Pipeline.{
  Runtime, Progress, Numberer, cons_ok, assigned, output, emit, emit_value, emit_input, prepare,
  write, send, handled_by, run_batch, run_batched,
}

-- The messages of the writes that were acknowledged, in order.
abbrev pub acked {ℓ} : {A : Type ℓ} → List (List A × Bool) → List A
acked [] = []
acked ((ms, b) ∷ attempts) = let rest = acked attempts in if b then ms ++ rest else rest

pub acked-append {ℓ} :
    {A : Type ℓ} (xs ys : List (List A × Bool)) → acked (xs ++ ys) ≡ acked xs ++ acked ys
acked-append [] ys = refl
acked-append ((ms, true) ∷ xs) ys =
    rw (acked-append xs ys) (sym (append_assoc ms (acked xs) (acked ys)))
acked-append ((ms, false) ∷ xs) ys = acked-append xs ys

abbrev pub Prepared : Type 0
Prepared = Result Error (List KafkaMessage) × Progress

abbrev prepend : List KafkaMessage → Prepared → Prepared
prepend os (ok more, p) = (ok (os ++ more), p)
prepend os (err e, p) = (err e, p)

abbrev and_then : Prepared → (Progress → Prepared) → Prepared
and_then (ok os, p) k = prepend os (k p)
and_then (err e, p) k = (err e, p)

prepend-nil : (a : Prepared) → prepend [] a ≡ a
prepend-nil (ok os, p) = refl
prepend-nil (err e, p) = refl

cons_ok-and_then :
    (o : KafkaMessage) (a : Prepared) (k : Progress → Prepared)
    → cons_ok o (and_then a k) ≡ and_then (cons_ok o a) k
cons_ok-and_then o (err e, p) k = refl
cons_ok-and_then o (ok os, p) k = cons_ok-prepend o os (k p)
  where
    cons_ok-prepend :
        (o : KafkaMessage) (os : List KafkaMessage) (b : Prepared)
        → cons_ok o (prepend os b) ≡ prepend (o ∷ os) b
    cons_ok-prepend o os (ok more, p) = refl
    cons_ok-prepend o os (err e, p) = refl

pub done_of_handled : (r : RetryOutcome) → handled_by r ≡ handled_ok → r ≡ done
done_of_handled done h = refl
done_of_handled context_done h = cc h
done_of_handled waiting h = cc h

module _ (rt : Runtime) where
  module _ (rest both k : Progress → Prepared)
      (ih : (p : Progress) → both p ≡ and_then (rest p) k) where
    emit_value-and_then :
        (m : MessageEnvelope) (p : Progress) (v : Result Events.Error Bytes)
        → emit_value rt both m p v ≡ and_then (emit_value rt rest m p v) k
    emit_value-and_then m p (err e) = refl
    emit_value-and_then m p (ok value) = rw (ih p) (cons_ok-and_then (output rt m value) (rest p) k)

    emit-and_then :
        (a : Result Sequencer.Error MessageEnvelope × Progress)
        → emit rt both a ≡ and_then (emit rt rest a) k
    emit-and_then (err e, p) = ih p
    emit-and_then (ok m, p) = emit_value-and_then m p (marshal rt.codec m)

    emit_input-and_then :
        (p : Progress) (i : Result Events.Error MessageEnvelope)
        → emit_input rt both p i ≡ and_then (emit_input rt rest p i) k
    emit_input-and_then p (err e) = refl
    emit_input-and_then p (ok input) = emit-and_then (assigned rt (rt.clock_ms p.processed) p input)

  -- Numbering a list of records is numbering its two parts, one after the other.
  pub prepare-append :
      (xs ys : List KafkaMessage) (p : Progress)
      → prepare rt (xs ++ ys) p ≡ and_then (prepare rt xs p) (prepare rt ys)
  unfolding prepare
  prepare-append [] ys p = sym (prepend-nil (prepare rt ys p))
  prepare-append (x ∷ xs) ys p =
      emit_input-and_then (prepare rt xs) (prepare rt (xs ++ ys)) (prepare rt ys)
        (prepare-append xs ys) p (unmarshal rt.codec (rt.clock_ns p.processed) x.value)

  -- A write that is retried until it is acknowledged counts once.
  retry-write :
      (os : List KafkaMessage) (rounds : List Attempt) (st : Numberer)
      → (retry (write rt os) rounds st).0 ≡ done
      → (
        ok (acked (retry (write rt os) rounds st).1.attempts),
        (retry (write rt os) rounds st).1.progress,
      )
        ≡ prepend (acked st.attempts) (ok os, st.progress)
  unfolding retry
  retry-write os [] st h = cc h
  retry-write os (Attempt.cancelled ∷ rounds) st h = cc h
  retry-write os (Attempt.succeeds ∷ rounds) st h =
      rw (acked-append st.attempts ((os, true) ∷ []), append-nil os)
  retry-write os (Attempt.fails ∷ rounds) st h =
      retry-write os rounds (write rt os false st) h
      ∙ rw (acked-append st.attempts ((os, false) ∷ []), append-nil (acked st.attempts))
  retry-write os (Attempt.fails_cancelled ∷ rounds) st h = cc h

  -- What the process has had acknowledged and the state that it is in are what the specification
  -- says of the records.
  abbrev pub Numbered : Progress → List KafkaMessage → Numberer → Type 0
  Numbered p0 records st = prepare rt records p0 ≡ (ok (acked st.attempts), st.progress)

  send_lem :
      (rounds : List Attempt) (sent : List (List KafkaMessage × Bool)) (a : Prepared)
      → (send rt rounds sent a).0 ≡ handled_ok
      → prepend (acked sent) a
        ≡ (ok (acked (send rt rounds sent a).1.attempts), (send rt rounds sent a).1.progress)
  send_lem rounds sent (err e, p) h = cc h
  send_lem rounds sent (ok [], p) h = rw (append-nil (acked sent))
  send_lem rounds sent (ok (o ∷ os), p) h =
      sym (
        retry-write (o ∷ os) rounds (record { progress = p; attempts = sent })
          (done_of_handled _ h))

  run_batch-Numbered :
      (p0 : Progress) (rounds : List Attempt) (before records : List KafkaMessage) (st : Numberer)
      → Numbered p0 before st
      → (run_batch rt rounds records st).0 ≡ handled_ok
      → Numbered p0 (before ++ records) (run_batch rt rounds records st).1
  unfolding run_batch
  run_batch-Numbered p0 rounds before records st v h =
      rw (prepare-append before records p0, v)
        (send_lem rounds st.attempts (prepare rt records st.progress) h)

  abbrev pub start_from : Progress → Numberer
  start_from p = record { progress = p; attempts = [] }

  -- While RunBatched runs, the messages that were acknowledged are, in order and each once, exactly
  -- those that numbering the handled records one after the other gives: the cut into batches, the
  -- failed writes and the retries make no difference.
  pub run_batched_numbers :
      (opts : BatchOptions) (topic : List KafkaMessage) (p0 : Progress) (rounds : List Round)
      → (run_batched rt opts topic (start_from p0) rounds).0 ≡ running
      → let c = (run_batched rt opts topic (start_from p0) rounds).1 in
        prepare rt (concat c.handled) p0 ≡ (ok (acked c.handler.attempts), c.handler.progress)
  run_batched_numbers opts topic p0 rounds =
      consume_batches-adds_up opts (run_batch rt) (Numbered p0) (run_batch-Numbered p0) topic
        (start_from p0) rounds (unfold prepare in refl)
