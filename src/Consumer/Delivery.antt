-- ===== src/Consumer/Delivery.antt =====
-- The messages of the partition in consumeBatches, for every handler
-- (services/messages/sequencer/batch.go).
use mathlib.Core.List.{append_assoc, append-nil}
use lan_sync.Prelude.{
  ◌≡◌, refl, sym, ◌⊎◌, inl, inr, true, false, Option, none, some, List, [], ◌∷◌, ◌++◌, arith,
  concat, concat-append, All, All-append, Bool-cases,
}
use lan_sync.Prelude.Int.{pos, ltb_ℤ}
use lan_sync.Retry.{Attempt, retry}
use lan_sync.Consumer.{
  KafkaMessage, size, BatchOptions, Batch, collect, Round, Status, running, blocked, stopped, Error,
  Consumer, Handled, handled_ok, handler_waiting, handler_error, start, commit_batch, finish,
  after_handle, process, fetch_first, consume_round, go_on, consume_loop, consume_batches,
  bounds_invalid,
}
use lan_sync.Consumer.Collect.{to_list, Fits, collect-conserves, collect-Fits}

module _ {ℓ} {H : Type ℓ} (opts : BatchOptions) (topic : List KafkaMessage) where
  -- No message of the partition is lost, repeated or reordered: the committed batches, the batch in
  -- hand, the pending message and the rest make up the partition. A batch is committed only after
  -- it was handled, at most one batch is handled and not committed, and all keep to the limits.
  pub record Sound (c : Consumer H) : Type ℓ where
    pub conserved : concat c.committed ++ (c.in_flight ++ (to_list c.pending ++ c.source)) ≡ topic
    pub handled_first : (c.handled ≡ c.committed) ⊎ (c.handled ≡ c.committed ++ c.in_flight ∷ [])
    pub sizes : All (Fits opts) c.handled

  -- Between two rounds everything that was handled is committed.
  pub record Idle (c : Consumer H) : Type ℓ where
    pub conserved : concat c.committed ++ (to_list c.pending ++ c.source) ≡ topic
    pub in_hand : c.in_flight ≡ []
    pub settled : c.handled ≡ c.committed
    pub sizes : All (Fits opts) c.handled

  pub Idle-Sound : {c : Consumer H} → Idle c → Sound c
  Idle-Sound {c} v = record {
    conserved = rw v.in_hand v.conserved;
    handled_first = inl v.settled;
    sizes = v.sizes;
  }

  abbrev pub After : Status × Consumer H → Type ℓ
  After (running, c) = Idle c
  After (blocked, c) = Sound c
  After (stopped e, c) = Sound c

  After-Sound : (p : Status × Consumer H) → After p → Sound p.1
  After-Sound (running, c) v = Idle-Sound v
  After-Sound (blocked, c) v = v
  After-Sound (stopped e, c) v = v

  -- A batch in hand that is not handled yet.
  record Taken (records : List KafkaMessage) (c : Consumer H) : Type ℓ where
    conserved : concat c.committed ++ (records ++ (to_list c.pending ++ c.source)) ≡ topic
    in_hand : c.in_flight ≡ records
    settled : c.handled ≡ c.committed
    sizes : All (Fits opts) c.handled

  Taken-Sound : {records : List KafkaMessage} {c : Consumer H} → Taken records c → Sound c
  Taken-Sound v = record {
    conserved = rw v.in_hand v.conserved;
    handled_first = inl v.settled;
    sizes = v.sizes;
  }

  -- A batch in hand that is handled and waits for its commit.
  record Ready (records : List KafkaMessage) (c : Consumer H) : Type ℓ where
    conserved : concat c.committed ++ (records ++ (to_list c.pending ++ c.source)) ≡ topic
    in_hand : c.in_flight ≡ records
    ahead : c.handled ≡ c.committed ++ records ∷ []
    sizes : All (Fits opts) c.handled

  Ready-Sound : {records : List KafkaMessage} {c : Consumer H} → Ready records c → Sound c
  Ready-Sound v = record {
    conserved = rw v.in_hand v.conserved;
    handled_first = inr (rw v.in_hand v.ahead);
    sizes = v.sizes;
  }

  commit-Idle :
      (records : List KafkaMessage) (c : Consumer H)
      → Ready records c
      → Idle (commit_batch records true c)
  commit-Idle records c v = record {
    conserved =
        rw (concat-append c.committed (records ∷ []), append-nil records, append_assoc) v.conserved;
    in_hand = refl;
    settled = v.ahead;
    sizes = v.sizes;
  }

  finish-After :
      (records : List KafkaMessage) (terminal : Option Error) (rounds : List Attempt)
      (c : Consumer H)
      → Ready records c
      → After (finish terminal (retry (commit_batch records) rounds c))
  unfolding retry
  finish-After records terminal [] c v = Ready-Sound v
  finish-After records terminal (Attempt.cancelled ∷ rounds) c v = Ready-Sound v
  finish-After records none (Attempt.succeeds ∷ rounds) c v = commit-Idle records c v
  finish-After records (some e) (Attempt.succeeds ∷ rounds) c v =
      Idle-Sound (commit-Idle records c v)
  finish-After records terminal (Attempt.fails ∷ rounds) c v =
      finish-After records terminal rounds c v
  finish-After records terminal (Attempt.fails_cancelled ∷ rounds) c v = Ready-Sound v

  after_handle-After :
      (r : Round) (b : Batch) (c : Consumer H) (h : Handled × H)
      → Taken b.records c
      → Fits opts b.records
      → After (after_handle r b c h)
  after_handle-After r b c (handler_waiting, h) v f = record {
    conserved = rw v.in_hand v.conserved;
    handled_first = inl v.settled;
    sizes = v.sizes;
  }
  after_handle-After r b c (handler_error e, h) v f = record {
    conserved = rw v.in_hand v.conserved;
    handled_first = inl v.settled;
    sizes = v.sizes;
  }
  after_handle-After r b c (handled_ok, h) v f =
      finish-After b.records b.terminal r.commits _ (record {
        conserved = v.conserved;
        in_hand = v.in_hand;
        ahead = rw v.settled;
        sizes = All-append (Fits opts) c.handled (b.records ∷ []) v.sizes (f, tt);
      })

module _ {ℓ} {H : Type ℓ} (opts : BatchOptions)
    (handle : List Attempt → List KafkaMessage → H → Handled × H) (topic : List KafkaMessage)
    (valid : bounds_invalid opts ≡ false) where
  alone-Fits : (m : KafkaMessage) → ltb_ℤ opts.max_bytes (pos (size m)) ≡ false → Fits opts (m ∷ [])
  alone-Fits m e = record { count = ground arith; bytes = ground arith; nonempty = omega arith }

  process-After :
      (r : Round) (m : KafkaMessage) (c : Consumer H)
      → concat c.committed ++ (m ∷ c.source) ≡ topic
      → c.handled ≡ c.committed
      → All (Fits opts) c.handled
      → c.pending ≡ none
      → After opts topic (process opts handle r m c)
  unfolding process
  process-After r m c e s f p = elim (Bool-cases (ltb_ℤ opts.max_bytes (pos (size m)))) [
    | inl over ↦ rw over (record { conserved = rw p e; handled_first = inl s; sizes = f })
    | inr fits ↦
        let b = collect opts (m ∷ []) (size m) r.polls c.source in
        let taken : Taken opts topic b.records
            (record c { source = b.source; pending = b.pending; in_flight = b.records }) =
          record {
            conserved = rw (collect-conserves opts (m ∷ []) (size m) r.polls c.source) e;
            in_hand = refl;
            settled = s;
            sizes = f;
          } in
        rw fits (elim (Bool-cases r.cancelled) [
          | inl stop ↦ rw stop (Taken-Sound opts topic taken)
          | inr continue ↦ rw continue (
              after_handle-After opts topic r b _ _ taken (
                collect-Fits opts (m ∷ []) (size m) r.polls c.source (omega arith)
                  (alone-Fits m fits)))
        ])
  ]

  fetch_first-After :
      (r : Round) (pending : Option KafkaMessage) (source : List KafkaMessage) (c : Consumer H)
      → pending ≡ c.pending
      → source ≡ c.source
      → Idle opts topic c
      → After opts topic (fetch_first opts handle r pending source c)
  unfolding process
  fetch_first-After r (some m) source c p s v =
      process-After r m (record c { pending = none }) (rw (← p) at v.conserved) v.settled v.sizes
        refl
  fetch_first-After r none [] c p s v = elim (Bool-cases r.fetch_fails) [
    | inl bad ↦ rw bad (Idle-Sound opts topic v)
    | inr good ↦ rw good (Idle-Sound opts topic v)
  ]
  fetch_first-After r none (m ∷ source) c p s v = elim (Bool-cases r.fetch_fails) [
    | inl bad ↦ rw bad (Idle-Sound opts topic v)
    | inr good ↦ simp good (
        process-After r m (record c { source = source }) (rw (← p, ← s) at v.conserved) v.settled
          v.sizes (sym p))
  ]

  go_on-After :
      (next : Consumer H → Status × Consumer H)
      → ((d : Consumer H) → Idle opts topic d → After opts topic (next d))
      → (p : Status × Consumer H) → After opts topic p
      → After opts topic (go_on opts handle next p)
  go_on-After next keep (running, d) w = keep d w
  go_on-After next keep (blocked, d) w = w
  go_on-After next keep (stopped e, d) w = w

  pub consume_loop-After :
      (rounds : List Round) (c : Consumer H)
      → Idle opts topic c
      → After opts topic (consume_loop opts handle rounds c)
  unfolding consume_loop
  consume_loop-After [] c v = v
  consume_loop-After (r ∷ rounds) c v =
      go_on-After (consume_loop opts handle rounds) (consume_loop-After rounds)
        (consume_round opts handle r c)
        (unfold consume_round in fetch_first-After r c.pending c.source c refl refl v)

start-Idle :
    {H : Type 0} (opts : BatchOptions) (source : List KafkaMessage) (h : H)
    → Idle opts source (start source h)
start-Idle opts source h = record { conserved = refl; in_hand = refl; settled = refl; sizes = tt }

-- Whatever the environment and the handler do, and wherever the loop is stopped: the committed
-- batches, the batch in hand, the pending message and the rest of the partition make up the
-- partition in its order; a batch is committed only after the handler accepted it, and at most one
-- accepted batch is not committed; every accepted batch is nonempty and keeps to MaxMessages and
-- MaxBytes. With options out of bounds nothing is fetched.
pub consume_batches-Sound :
    {H : Type 0} (opts : BatchOptions) (handle : List Attempt → List KafkaMessage → H → Handled × H)
    (topic : List KafkaMessage) (h : H) (rounds : List Round)
    → Sound opts topic (consume_batches opts handle rounds (start topic h)).1
unfolding consume_batches
consume_batches-Sound opts handle topic h rounds = elim (Bool-cases (bounds_invalid opts)) [
  | inl bad ↦ rw bad (Idle-Sound opts topic (start-Idle opts topic h))
  | inr good ↦ rw good (
      After-Sound opts topic _
        (consume_loop-After opts handle topic good rounds _ (start-Idle opts topic h)))
]
