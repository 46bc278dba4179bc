-- ===== src/Prelude/Command.antt =====
-- Code that reads and changes a state and may return an error; what it did before the error stays.
use mathlib.Core.Option.{Option, none, some}
use lan_sync.Prelude.Result.{Result, ok, err}

abbrev pub Command {ℓ κ} : Type ℓ → Type 0 → Type κ → Type (ℓ ⊔ κ)
Command S E A = S → Result E A × S

module _ {ℓ} {S : Type ℓ} {E : Type 0} where
  abbrev pub and_then {κ μ} :
      {A : Type κ} {B : Type μ} → (A → Command S E B) → Result E A × S → Result E B × S
  and_then f (ok a, s) = f a s
  and_then f (err e, s) = (err e, s)

  infixl 5 ◌>>=◌ ◌>>◌
  abbrev pub ◌>>=◌ {κ μ} :
      {A : Type κ} {B : Type μ} → Command S E A → (A → Command S E B) → Command S E B
  m >>= f = λ s. and_then f (m s)

  abbrev pub ◌>>◌ {κ} : {B : Type κ} → Command S E (Unit {0}) → Command S E B → Command S E B
  m >> k = m >>= λ _. k

  abbrev pub done {κ} : {A : Type κ} → A → Command S E A
  done a s = (ok a, s)

  abbrev pub fails {κ} : {A : Type κ} → E → Command S E A
  fails e s = (err e, s)

  -- A call whose error is ignored.
  abbrev pub ignoring : Command S E (Unit {0}) → Command S E (Unit {0})
  ignoring m s = (ok tt, (m s).1)

  abbrev pub or_error {κ} : {A : Type κ} → Option A → E → Command S E A
  or_error none e s = (err e, s)
  or_error (some a) e s = (ok a, s)

  -- What each step of a sequence keeps, the sequence keeps.
  pub and_then-keeps {κ μ ν} :
      {A : Type κ} {B : Type μ} (P : S → Type ν) (f : A → Command S E B) (r : Result E A × S)
      → P r.1
      → ((a : A) (s : S) → P s → P (f a s).1)
      → P (and_then f r).1
  and_then-keeps P f (ok a, s) h k = k a s h
  and_then-keeps P f (err e, s) h k = h
