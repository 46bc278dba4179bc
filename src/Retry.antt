-- ===== src/Retry.antt =====
-- `Retry` of services/messages/sequencer/pipeline.go. The environment decides how each round of
-- the loop goes; an action is a change of a state that is told whether it will be acknowledged,
-- since an attempt that reports an error may still have taken effect.
use lan_sync.Prelude.{ℕ, suc, ◌≡◌, ◌≢◌, refl, ◌⊎◌, inl, inr, Bool, true, false, List, [], ◌∷◌}

pub data Attempt : Type 0 where
  cancelled : Attempt  -- the context is done at the head of the loop
  succeeds : Attempt  -- the action returns nil
  fails : Attempt  -- the action fails, and the timer fires
  fails_cancelled : Attempt  -- the action fails, and the context is done before the timer fires

pub data RetryOutcome : Type 0 where
  done : RetryOutcome  -- returned nil
  context_done : RetryOutcome  -- returned ctx.Err()
  waiting : RetryOutcome  -- still in the loop

module _ {ℓ} {S : Type ℓ} where
  unfoldable pub retry : (Bool → S → S) → List Attempt → S → RetryOutcome × S
  retry action [] s = (waiting, s)
  retry action (cancelled ∷ rounds) s = (context_done, s)
  retry action (succeeds ∷ rounds) s = (done, action true s)
  retry action (fails ∷ rounds) s = retry action rounds (action false s)
  retry action (fails_cancelled ∷ rounds) s = (context_done, action false s)

  pub iterate : (S → S) → ℕ → S → S
  iterate f ℕ.zero s = s
  iterate f (suc n) s = iterate f n (f s)

  -- Nil is returned exactly after one acknowledged attempt, which comes last; every attempt before
  -- it is the same action, reported as failed. Where an error is returned, no attempt was
  -- acknowledged.
  pub retry_lem :
      (action : Bool → S → S) (rounds : List Attempt) (s : S)
      → (n : ℕ) × (((retry action rounds s).0 ≡ done)
            × ((retry action rounds s).1 ≡ action true (iterate (action false) n s))
          ⊎ ((retry action rounds s).0 ≢ done)
            × ((retry action rounds s).1 ≡ iterate (action false) n s))
  unfolding retry iterate
  retry_lem action [] s = (0, inr ((λ e. cc e), refl))
  retry_lem action (cancelled ∷ rounds) s = (0, inr ((λ e. cc e), refl))
  retry_lem action (succeeds ∷ rounds) s = (0, inl (refl, refl))
  retry_lem action (fails ∷ rounds) s =
      let (n, h) = retry_lem action rounds (action false s) in (suc n, h)
  retry_lem action (fails_cancelled ∷ rounds) s = (1, inr ((λ e. cc e), refl))
