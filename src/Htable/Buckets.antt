-- ===== src/Htable/Buckets.antt =====
-- The array of buckets, read as one bucket at an index and as the list of all values; NULL and an
-- empty list read alike.
use Prim.Native.Nat.{min, digits, bit_and-bitwise}
use c_ares.Base.{
  ℕ, zero, suc, ◌+◌, ◌/◌, ◌≤◌, ◌<◌, ◌≡◌, refl, ap, ◌∙◌, arith, Bool, true, false, Option, none,
  some, List, [], ◌∷◌, ◌++◌, set, replicate, length, length-append, bit_and, All, ◌==◌,
  if◌then◌else◌,
}
use c_ares.Result.{ok}
use c_ares.Cmd.{Allocs}
use c_ares.Htable.{Done, answer, at, nodes, put_first, link}

-- every answer of the allocator is a block
abbrev pub Granted : Allocs → Type 0
Granted = All (λ (made : Bool). made ≡ true)

pub answer-Granted : (a : Allocs) → Granted a → ((answer a).0 ≡ true) × Granted (answer a).1
answer-Granted [] h = (refl, tt)
answer-Granted (made ∷ a) h = h

module _ {E : Type 0} where
  unfoldable pub chain_at : List (Option (List E)) → ℕ → List E
  chain_at [] i = []
  chain_at (b ∷ bs) zero = nodes b
  chain_at (b ∷ bs) (suc i) = chain_at bs i

  unfoldable pub entries : List (Option (List E)) → List E
  entries [] = []
  entries (b ∷ bs) = nodes b ++ entries bs

  pub at-chain_at :
      (bs : List (Option (List E))) (i : ℕ)
      → i < length bs
      → (b : Option (List E)) × (at bs i ≡ ok b) × (nodes b ≡ chain_at bs i)
  unfolding at chain_at
  at-chain_at [] i h = absurd (omega arith)
  at-chain_at (b ∷ bs) zero h = (b, refl, refl)
  at-chain_at (b ∷ bs) (suc i) h = at-chain_at bs i (omega arith)

  pub chain_at-set :
      (bs : List (Option (List E))) (i j : ℕ) (c : List E)
      → i < length bs
      → chain_at (set bs i (some c)) j ≡ (if i == j then c else chain_at bs j)
  unfolding chain_at
  chain_at-set [] i j c h = absurd (omega arith)
  chain_at-set (b ∷ bs) zero zero c h = refl
  chain_at-set (b ∷ bs) zero (suc j) c h = ground arith
  chain_at-set (b ∷ bs) (suc i) zero c h = ground arith
  chain_at-set (b ∷ bs) (suc i) (suc j) c h = ground (arith, chain_at-set bs i j c)

  pub length-entries-set :
      (bs : List (Option (List E))) (i : ℕ) (c : List E)
      → i < length bs
      → length (entries (set bs i (some c))) + length (chain_at bs i)
        ≡ length (entries bs) + length c
  unfolding entries chain_at
  length-entries-set [] i c h = absurd (omega arith)
  length-entries-set (b ∷ bs) zero c h = simp length-append (omega arith)
  length-entries-set (b ∷ bs) (suc i) c h =
      simp length-append (omega (arith, length-entries-set bs i c (omega arith)))

  pub chain_at-replicate : (n j : ℕ) → chain_at (replicate n none) j ≡ []
  unfolding chain_at
  chain_at-replicate zero j = refl
  chain_at-replicate (suc n) zero = refl
  chain_at-replicate (suc n) (suc j) = chain_at-replicate n j

  pub entries-replicate : (n : ℕ) → entries (replicate n none) ≡ []
  unfolding entries
  entries-replicate zero = refl
  entries-replicate (suc n) = entries-replicate n

  -- two arrays that differ in NULL and empty lists only
  pub record Same (bs bs' : List (Option (List E))) : Type 0 where
    pub width : length bs' ≡ length bs
    pub chains : (j : ℕ) → chain_at bs' j ≡ chain_at bs j
    pub values : entries bs' ≡ entries bs

  pub Same-refl : (bs : List (Option (List E))) → Same bs bs
  Same-refl bs = record { width = refl; chains = λ j. refl; values = refl }

  Same-set :
      (bs : List (Option (List E))) (i : ℕ) → at bs i ≡ ok none → Same bs (set bs i (some []))
  unfolding at chain_at entries
  Same-set [] i h = Same-refl []
  Same-set (none ∷ bs) zero h = record {
    width = refl;
    chains = λ j. elim j as (λ k. chain_at (some [] ∷ bs) k ≡ chain_at (none ∷ bs) k) [
      | zero ↦ refl
      | suc k ↦ refl
    ];
    values = refl;
  }
  Same-set (some c ∷ bs) zero h = cc
  Same-set (b ∷ bs) (suc i) h =
      let rest = Same-set bs i h in
      record {
        width = ap suc rest.width;
        chains = λ j. elim j as (λ k. chain_at (b ∷ set bs i (some [])) k ≡ chain_at (b ∷ bs) k) [
          | zero ↦ refl
          | suc k ↦ rest.chains k
        ];
        values = ap (◌++◌ (nodes b)) rest.values;
      }

  set_twice :
      (bs : List (Option (List E))) (i : ℕ) (b c : Option (List E))
      → set (set bs i b) i c ≡ set bs i c
  set_twice [] i b c = refl
  set_twice (x ∷ bs) zero b c = refl
  set_twice (x ∷ bs) (suc i) b c = ap (◌∷◌ x) (set_twice bs i b c)

  -- What `put_first` leaves: the value in front of the bucket, or nothing to be seen.
  pub record Placed (bs : List (Option (List E))) (i : ℕ) (e : E) (a : Allocs)
      (r : Done (List (Option (List E)))) : Type 0 where
    pub done : r.0 ≡ true → r.1 ≡ set bs i (some (e ∷ chain_at bs i))
    pub undone : r.0 ≡ false → Same bs r.1
    pub enough : Granted a → (r.0 ≡ true) × Granted r.2

  link-Placed :
      (bs bs' : List (Option (List E))) (i : ℕ) (c : List E) (e : E) (a : Allocs)
      → set bs' i (some (e ∷ c)) ≡ set bs i (some (e ∷ chain_at bs i))
      → Same bs bs'
      → (r : Done (List (Option (List E)))) × (link bs' i c e a ≡ ok r) × Placed bs i e a r
  unfolding link
  link-Placed bs bs' i c e [] p s =
      (_, refl, record { done = λ _. p; undone = λ f. cc; enough = λ g. (refl, tt) })
  link-Placed bs bs' i c e (true ∷ a) p s =
      (_, refl, record { done = λ _. p; undone = λ f. cc; enough = λ g. g })
  link-Placed bs bs' i c e (false ∷ a) p s =
      (_, refl, record { done = λ f. cc; undone = λ _. s; enough = λ g. cc })

  put_first_found :
      (bs : List (Option (List E))) (i : ℕ) (e : E) (a : Allocs) (b : Option (List E))
      → at bs i ≡ ok b
      → nodes b ≡ chain_at bs i
      → (r : Done (List (Option (List E)))) × (put_first bs i e a ≡ ok r) × Placed bs i e a r
  unfolding put_first
  put_first_found bs i e a (some c) found same =
      let (r, run, p) =
        link-Placed bs bs i c e a (ap (λ l. set bs i (some (e ∷ l))) same) (Same-refl bs) in
      (r, rw found run, p)
  put_first_found bs i e [] none found same =
      let (r, run, p) =
        link-Placed bs (set bs i (some [])) i [] e []
          (set_twice bs i _ _ ∙ ap (λ l. set bs i (some (e ∷ l))) same) (Same-set bs i found) in
      (r, rw found run, record { done = p.done; undone = p.undone; enough = p.enough })
  put_first_found bs i e (true ∷ a) none found same =
      let (r, run, p) =
        link-Placed bs (set bs i (some [])) i [] e a
          (set_twice bs i _ _ ∙ ap (λ l. set bs i (some (e ∷ l))) same) (Same-set bs i found) in
      (r, rw found run, record { done = p.done; undone = p.undone; enough = λ g. p.enough g.1 })
  put_first_found bs i e (false ∷ a) none found same = (
    (false, bs, a),
    rw found refl,
    record { done = λ f. cc; undone = λ _. Same-refl bs; enough = λ g. cc },
  )

  pub put_first-Placed :
      (bs : List (Option (List E))) (i : ℕ) (e : E) (a : Allocs)
      → i < length bs
      → (r : Done (List (Option (List E)))) × (put_first bs i e a ≡ ok r) × Placed bs i e a r
  put_first-Placed bs i e a h =
      let (b, found, same) = at-chain_at bs i h in put_first_found bs i e a b found same

digits_le : (n a b : ℕ) → digits (λ _. zero) min n a b ≤ b
digits_le zero a b = omega arith
digits_le (suc n) zero b = omega arith
digits_le (suc n) (suc a) b = omega (arith, digits_le n (suc a / 2) (b / 2))

pub bit_and-le : (a b : ℕ) → bit_and a b ≤ b
bit_and-le a b = rw bit_and-bitwise (digits_le a a b)
