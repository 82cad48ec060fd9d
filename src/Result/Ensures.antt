-- ===== src/Result/Ensures.antt =====
-- Total correctness of an outcome: no fault, enough fuel, a postcondition on what is returned,
-- and one on the status of a failure.
use mathlib.Core.Path.{subst}
use c_ares.Base.{◌≡◌, refl, Bool, true, false, if◌then◌else◌}
use c_ares.Result.{Status, Result, ok, fail, ◌>>=◌, guard}

pub data Ensures {A : Type 0} (E : Status → Type 0) (P : A → Type 0) : Result A → Type 0 where
  returns : {a : A} → P a → Ensures E P (ok a)
  fails : {s : Status} → E s → Ensures E P (fail s)

module _ {A : Type 0} {E : Status → Type 0} {P : A → Type 0} where
  pub Ensures-bind :
      {B : Type 0} {Q : B → Type 0} {r : Result A} {f : A → Result B}
      → Ensures E P r
      → ((a : A) → P a → Ensures E Q (f a))
      → Ensures E Q (r >>= f)
  Ensures-bind (returns p) k = k _ p
  Ensures-bind (fails e) k = fails e

  pub Ensures-mono :
      {Q : A → Type 0} {r : Result A} → Ensures E P r → ((a : A) → P a → Q a) → Ensures E Q r
  Ensures-mono (returns p) k = returns (k _ p)
  Ensures-mono (fails e) k = fails e

  pub Ensures-relax :
      {F : Status → Type 0} {r : Result A}
      → Ensures E P r
      → ((s : Status) → E s → F s)
      → Ensures F P r
  Ensures-relax (returns p) k = returns p
  Ensures-relax (fails e) k = fails (k _ e)

  pub Ensures-guard :
      (b : Bool) (s : Status) {m : Result A}
      → E s
      → (b ≡ true → Ensures E P m)
      → Ensures E P (guard b s >>= λ _. m)
  Ensures-guard true s e k = k refl
  Ensures-guard false s e k = fails e

  pub Ensures-if :
      (b : Bool) {m n : Result A}
      → (b ≡ true → Ensures E P m)
      → (b ≡ false → Ensures E P n)
      → Ensures E P (if b then m else n)
  Ensures-if true km kn = km refl
  Ensures-if false km kn = kn refl

  -- what a known successful outcome satisfies
  pub Ensures-at : {r : Result A} {a : A} → Ensures E P r → r ≡ ok a → P a
  Ensures-at (returns {a = b} p) e = subst P (cc) p
  Ensures-at (fails x) e = cc

  -- the postcondition beside the equation
  pub Ensures-self : {r : Result A} → Ensures E P r → Ensures E (λ a. (r ≡ ok a) × P a) r
  Ensures-self (returns p) = returns (refl, p)
  Ensures-self (fails e) = fails e
