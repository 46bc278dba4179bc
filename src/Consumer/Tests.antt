-- ===== src/Consumer/Tests.antt =====
-- Runs of the batched consumer (services/messages/sequencer/batch.go).
use lan_sync.Prelude.{ℕ, ◌≡◌, refl, List, [], ◌∷◌, ◌++◌, Bool, true, false, ◌≢◌, ◌⊎◌}
use lan_sync.Prelude.Int.{pos}
use lan_sync.Retry.{Attempt, RetryOutcome, retry, retry_lem, iterate}
use lan_sync.Consumer.{
  KafkaMessage, BatchOptions, Poll, Round, Handled, start, collect, consume_batches, consume_loop,
  consume_round, process,
}
use lan_sync.Consumer.Delivery.{Sound, consume_batches-Sound}

abbrev message : ℕ → KafkaMessage
message n = record { key = []; value = n ∷ n ∷ []; offset = pos n }

abbrev topic : List KafkaMessage
topic = message 0 ∷ message 1 ∷ message 2 ∷ []

abbrev options : BatchOptions
options = record { max_messages = pos 2; max_bytes = pos 5; max_wait = pos 10 }

-- The first commit of the first batch fails.
abbrev rounds : List Round
rounds =
    (record {
      fetch_fails = false;
      polls = Poll.arrives ∷ Poll.arrives ∷ [];
      cancelled = false;
      handling = Attempt.succeeds ∷ [];
      commits = Attempt.fails ∷ Attempt.succeeds ∷ [];
    })
    ∷ (record {
      fetch_fails = false;
      polls = [];
      cancelled = false;
      handling = Attempt.succeeds ∷ [];
      commits = Attempt.cancelled ∷ [];
    })
    ∷ []

-- A handler that keeps the batches it is given.
abbrev keep_batches :
    List Attempt → List KafkaMessage → List (List KafkaMessage) → Handled × List (List KafkaMessage)
keep_batches attempts records seen = (Handled.handled_ok, seen ++ records ∷ [])

two_batches :
    (consume_batches options keep_batches rounds (start topic [])).1.handler
    ≡ (message 0 ∷ message 1 ∷ []) ∷ (message 2 ∷ []) ∷ []
unfolding consume_batches consume_loop consume_round process collect retry
two_batches = refl

Sound_example : Sound options topic (consume_batches options keep_batches rounds (start topic [])).1
Sound_example = consume_batches-Sound options keep_batches topic [] rounds

abbrev log_attempt : Bool → List Bool → List Bool
log_attempt acked log = log ++ acked ∷ []

retry_example :
    (n : ℕ) × (((retry log_attempt (Attempt.fails ∷ Attempt.succeeds ∷ []) []).0
          ≡ RetryOutcome.done)
        × ((retry log_attempt (Attempt.fails ∷ Attempt.succeeds ∷ []) []).1
            ≡ log_attempt true (iterate (log_attempt false) n []))
      ⊎ ((retry log_attempt (Attempt.fails ∷ Attempt.succeeds ∷ []) []).0 ≢ RetryOutcome.done)
        × ((retry log_attempt (Attempt.fails ∷ Attempt.succeeds ∷ []) []).1
            ≡ iterate (log_attempt false) n []))
retry_example = retry_lem log_attempt (Attempt.fails ∷ Attempt.succeeds ∷ []) []
