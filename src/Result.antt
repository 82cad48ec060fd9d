-- ===== src/Result.antt =====
-- The outcome of C code that reads and writes memory: the status codes of include/ares.h, a
-- `fault` for an access outside a buffer, and `stuck` for a loop that has run out of fuel.
pub mod Ensures
use c_ares.Base.{◌≡◌, refl, Bool, true, false}

-- the codes of include/ares.h; `eother` stands for those that the modelled code only passes on
pub data Status : Type 0 where
  success enodata eformerr eservfail enotfound ebadname ebadfamily ebadresp enomem ebadstr : Status
  etimeout ecancelled efile eof enotimp erefused ebadquery econnrefused eother : Status

pub data Result {ℓ} (A : Type ℓ) : Type ℓ where
  ok : A → Result A
  fail : Status → Result A
  fault : Result A
  stuck : Result A

module _ {ℓ κ} {A : Type ℓ} {B : Type κ} where
  infixl 5 ◌>>=◌
  abbrev pub ◌>>=◌ : Result A → (A → Result B) → Result B
  fault >>= k = fault
  stuck >>= k = stuck
  fail s >>= k = fail s
  ok x >>= k = k x

  -- A chain that returns has returned in both parts.
  pub >>=-eq-ok :
      (r : Result A) (k : A → Result B) {y : B}
      → (r >>= k) ≡ ok y
      → (x : A) × (r ≡ ok x) × (k x ≡ ok y)
  >>=-eq-ok fault k e = cc
  >>=-eq-ok stuck k e = cc
  >>=-eq-ok (fail s) k e = cc
  >>=-eq-ok (ok x) k e = (x, refl, e)

infixl 5 ◌>>◌
abbrev pub ◌>>◌ {κ} : {B : Type κ} → Result (Unit {0}) → Result B → Result B
r >> next = r >>= λ _. next

-- an early `return s`, taken unless the test holds
abbrev pub guard : Bool → Status → Result (Unit {0})
guard true s = ok tt
guard false s = fail s

pub >>=_assoc {ℓ κ μ} :
    {A : Type ℓ} {B : Type κ} {C : Type μ} (m : Result A) (f : A → Result B) (g : B → Result C)
    → ((m >>= f) >>= g) ≡ (m >>= λ a. f a >>= g)
>>=_assoc (ok a) f g = refl
>>=_assoc (fail s) f g = refl
>>=_assoc fault f g = refl
>>=_assoc stuck f g = refl

pub >>=_ok {ℓ} : {A : Type ℓ} (m : Result A) → (m >>= ok) ≡ m
>>=_ok (ok a) = refl
>>=_ok (fail s) = refl
>>=_ok fault = refl
>>=_ok stuck = refl
