-- ===== src/Cmd/Safe.antt =====
-- Total correctness of code that allocates, whatever the allocator answers.
use c_ares.Base.{ℕ, ◌<◌, arith, ltb, ◌≡◌, refl, Bool, true, false, [], ◌∷◌, if◌then◌else◌}
use c_ares.Result.{Status, enomem, Result, ok}
use c_ares.Result.Ensures.{Ensures, returns, fails, Ensures-mono, Ensures-relax}
use c_ares.Cmd.{
  Allocs, Cmd, Buffer, pure, raise, lift, and_then, ◌>>=◌, guard, malloc, malloc_node, index,
  attempt, attempted,
}

pub record Safe {A : Type 0} (E : Status → Type 0) (P : A → Type 0) (m : Cmd A) : Type 0 where
  pub run : (h : Allocs) → Ensures E (λ (r : A × Allocs). P r.0) (m h)

module _ {A : Type 0} {E : Status → Type 0} {P : A → Type 0} where
  pub Safe-pure : {a : A} → P a → Safe E P (pure a)
  Safe-pure p = record { run = λ h. returns p }

  pub Safe-raise : {s : Status} → E s → Safe E P (raise s)
  Safe-raise e = record { run = λ h. fails e }

  lift-Ensures :
      {r : Result A} (h : Allocs) → Ensures E P r → Ensures E (λ (x : A × Allocs). P x.0) (lift r h)
  lift-Ensures h (returns p) = returns p
  lift-Ensures h (fails e) = fails e

  pub Safe-lift : {r : Result A} → Ensures E P r → Safe E P (lift r)
  Safe-lift e = record { run = λ h. lift-Ensures h e }

  -- a part whose result is known
  pub Safe-known : {r : Result A} {a : A} → r ≡ ok a → P a → Safe E P (lift r)
  Safe-known e p = rw e (record { run = λ h. returns p })

  pub Safe-mono : {Q : A → Type 0} {m : Cmd A} → Safe E P m → ((a : A) → P a → Q a) → Safe E Q m
  Safe-mono s k = record { run = λ h. Ensures-mono (s.run h) (λ r p. k r.0 p) }

  pub Safe-relax :
      {F : Status → Type 0} {m : Cmd A} → Safe E P m → ((s : Status) → E s → F s) → Safe F P m
  Safe-relax s k = record { run = λ h. Ensures-relax (s.run h) k }

  pub Safe-guard :
      (b : Bool) (s : Status) {m : Cmd A}
      → E s
      → (b ≡ true → Safe E P m)
      → Safe E P (guard b s >>= λ _. m)
  Safe-guard true s e k = record { run = λ h. (k refl).run h }
  Safe-guard false s e k = record { run = λ h. fails e }

  -- the test is known to have failed where the status is returned
  pub Safe-guard_else :
      (b : Bool) (s : Status) {m : Cmd A}
      → (b ≡ false → E s)
      → (b ≡ true → Safe E P m)
      → Safe E P (guard b s >>= λ _. m)
  Safe-guard_else true s e k = record { run = λ h. (k refl).run h }
  Safe-guard_else false s e k = record { run = λ h. fails (e refl) }

  pub Safe-if :
      (b : Bool) {m n : Cmd A}
      → (b ≡ true → Safe E P m)
      → (b ≡ false → Safe E P n)
      → Safe E P (if b then m else n)
  Safe-if true km kn = km refl
  Safe-if false km kn = kn refl

module _ {A B : Type 0} {E : Status → Type 0} {P : A → Type 0} {Q : B → Type 0} where
  then-Ensures :
      {r : Result (A × Allocs)} {f : A → Cmd B}
      → Ensures E (λ (x : A × Allocs). P x.0) r
      → ((a : A) → P a → Safe E Q (f a))
      → Ensures E (λ (x : B × Allocs). Q x.0) (and_then r f)
  then-Ensures (returns {a = (a, h)} p) k = (k a p).run h
  then-Ensures (fails e) k = fails e

  pub Safe-bind :
      {m : Cmd A} {f : A → Cmd B}
      → Safe E P m
      → ((a : A) → P a → Safe E Q (f a))
      → Safe E Q (m >>= f)
  Safe-bind s k = record { run = λ h. then-Ensures (s.run h) k }

module _ {A B : Type 0} {E F : Status → Type 0} {P : A → Type 0} {Q : B → Type 0} where
  attempted-Ensures :
      {r : Result (A × Allocs)} {k : A → Cmd B} {e : Status → Cmd B} (h : Allocs)
      → Ensures E (λ (x : A × Allocs). P x.0) r
      → ((a : A) → P a → Safe F Q (k a))
      → ((s : Status) → E s → Safe F Q (e s))
      → Ensures F (λ (x : B × Allocs). Q x.0) (attempted r h k e)
  attempted-Ensures h (returns {a = (a, h')} p) sk se = (sk a p).run h'
  attempted-Ensures h (fails {s} e) sk se = (se s e).run h

  pub Safe-attempt :
      {m : Cmd A} {k : A → Cmd B} {e : Status → Cmd B}
      → Safe E P m
      → ((a : A) → P a → Safe F Q (k a))
      → ((s : Status) → E s → Safe F Q (e s))
      → Safe F Q (attempt m k e)
  Safe-attempt m sk se = record { run = λ h. attempted-Ensures h (m.run h) sk se }

pub Safe-malloc :
    {E : Status → Type 0} (size : ℕ)
    → E enomem
    → Safe E (λ b. (b.room ≡ size) × (b.text ≡ [])) (malloc size)
unfolding malloc
Safe-malloc {E} size e = record { run = answers }
  where
    answers :
        (h : Allocs)
        → Ensures E (λ (r : Buffer × Allocs). (r.0.room ≡ size) × (r.0.text ≡ [])) (malloc size h)
    answers [] = returns (refl, refl)
    answers (true ∷ h) = returns (refl, refl)
    answers (false ∷ h) = fails e

pub Safe-malloc_node : {E : Status → Type 0} → E enomem → Safe E (λ _. Unit {0}) malloc_node
unfolding malloc_node
Safe-malloc_node {E} e = record { run = answers }
  where
    answers : (h : Allocs) → Ensures E (λ (r : Unit {0} × Allocs). Unit {0}) (malloc_node h)
    answers [] = returns tt
    answers (true ∷ h) = returns tt
    answers (false ∷ h) = fails e

pub Safe-index : {E : Status → Type 0} (i n : ℕ) → i < n → Safe E (λ _. Unit {0}) (lift (index i n))
Safe-index i n h = let e : ltb i n ≡ true = ground arith in rw e (record { run = λ h. returns tt })
