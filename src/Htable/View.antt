-- ===== src/Htable/View.antt =====
-- Which values an array holds and how a key reads, and the effect of a write to one bucket.
use mathlib.Core.Logic.{Ne-symm}
use mathlib.Core.Option.{or_else}
use c_ares.Base.{
  ℕ, zero, suc, ◌+◌, ◌-◌, ◌≤◌, ◌<◌, ◌≡◌, ◌≢◌, refl, ap, arith, true, false, Option, none, some,
  List, [], ◌∷◌, ◌++◌, set, replicate, length, length-set, if◌then◌else◌,
}
use c_ares.Htable.{Callbacks, nodes, hash_idx, find}
use c_ares.Htable.Chains.{count, matches, key_eq_right, find-count_zero, count-find-none}
use c_ares.Htable.Buckets.{
  chain_at, entries, chain_at-set, length-entries-set, chain_at-replicate, entries-replicate, Same,
  bit_and-le,
}

module _ {K E : Type 0} (cb : Callbacks K E) (seed : ℕ) where
  pub hash_idx-lt : (size : ℕ) (key : K) → 0 < size → hash_idx cb seed size key < size
  unfolding hash_idx
  hash_idx-lt size key h = omega (arith, bit_and-le (cb.hash key seed) (size - 1))

  pub hash_idx-congr :
      (size : ℕ) (a b : K)
      → cb.key_eq a b ≡ true
      → hash_idx cb seed size a ≡ hash_idx cb seed size b
  unfolding hash_idx
  hash_idx-congr size a b e = rw (cb.hash_congr a b seed e)

  -- the bucket in which a key belongs
  abbrev pub home : List (Option (List E)) → K → List E
  home bs q = chain_at bs (hash_idx cb seed (length bs) q)

  -- A key stands in its own bucket only, and once at most.
  abbrev pub AtHome : List (Option (List E)) → Type 0
  AtHome bs =
      (q : K) (i : ℕ)
      → (count cb q (chain_at bs i) ≤ 1)
        × (hash_idx cb seed (length bs) q ≢ i → count cb q (chain_at bs i) ≡ 0)

  unfoldable pub view : List (Option (List E)) → K → Option E
  view bs q = find cb q (home bs q)

  count-append : (q : K) (a b : List E) → count cb q (a ++ b) ≡ count cb q a + count cb q b
  unfolding count
  count-append q [] b = omega arith
  count-append q (e ∷ a) b = omega (arith, count-append q a b)

  find-append : (q : K) (a b : List E) → find cb q (a ++ b) ≡ or_else (find cb q a) (find cb q b)
  unfolding find or_else
  find-append q [] b = refl
  find-append q (e ∷ a) b = rw (find-append q a b) (ground arith)

  absent-entries :
      (q : K) (bs : List (Option (List E)))
      → ((i : ℕ) → count cb q (chain_at bs i) ≡ 0)
      → count cb q (entries bs) ≡ 0
  unfolding entries chain_at count
  absent-entries q [] h = refl
  absent-entries q (b ∷ bs) h = rw (count-append, h 0, absent-entries q bs (λ i. h (suc i)))

  -- If only bucket `j` has the key, the list of all values reads as that bucket.
  only-entries :
      (q : K) (bs : List (Option (List E))) (j : ℕ)
      → ((i : ℕ) → i ≢ j → count cb q (chain_at bs i) ≡ 0)
      → (find cb q (entries bs) ≡ find cb q (chain_at bs j))
        × (count cb q (entries bs) ≡ count cb q (chain_at bs j))
  unfolding entries chain_at or_else
  only-entries q [] j h = (refl, refl)
  only-entries q (b ∷ bs) zero h =
      let others = absent-entries q bs (λ i. h (suc i) (omega arith)) in
      simp (find-append, count-append, others, find-count_zero cb q (entries bs) others)
        (ground arith)
  only-entries q (b ∷ bs) (suc j) h =
      let first = h 0 (omega arith) in
      let (found, counted) = only-entries q bs j (λ i n. h (suc i) (omega arith)) in
      simp (find-append, count-append, first, find-count_zero cb q (nodes b) first)
        (found, omega arith)

  pub entries-view :
      (bs : List (Option (List E))) (q : K)
      → AtHome bs
      → (find cb q (entries bs) ≡ view bs q) × (count cb q (entries bs) ≤ 1)
  unfolding view
  entries-view bs q placed =
      let (found, counted) = only-entries q bs _ (λ i n. (placed q i).1 (Ne-symm n)) in
      (found, rw counted (placed q _).0)

  -- An array of `size` buckets with `total` values, all at home, that reads as `f`.
  pub record Holds (size total : ℕ) (f : K → Option E) (bs : List (Option (List E))) : Type 0 where
    pub width : length bs ≡ size
    pub total_entries : length (entries bs) ≡ total
    pub at_home : AtHome bs
    pub reads : (q : K) → view bs q ≡ f q

  pub replicate-Holds : (n : ℕ) → Holds n 0 (λ _. none) (replicate n none)
  unfolding view count find
  replicate-Holds n = record {
    width = length-none n;
    total_entries = ap length (entries-replicate n);
    at_home = λ q i. rw chain_at-replicate (omega arith);
    reads = λ q. rw chain_at-replicate;
  }
    where
      length-none : (n : ℕ) → length {A = Option (List E)} (replicate n none) ≡ n
      length-none zero = refl
      length-none (suc n) = ap suc (length-none n)

  pub Same-Holds :
      {bs bs' : List (Option (List E))}
      → AtHome bs
      → Same bs bs'
      → Holds (length bs) (length (entries bs)) (view bs) bs'
  unfolding view
  Same-Holds {bs} {bs'} h s = record {
    width = s.width;
    total_entries = ap length s.values;
    at_home = λ q i. rw (s.width, s.chains) (h q i);
    reads = λ q. rw (s.width, s.chains);
  }

  module _ (bs : List (Option (List E))) (some_bucket : 0 < length bs) (h : AtHome bs) (k : K) where
    -- A write to the home of `k` that changes only how keys equal to `k` read.
    pub set-Holds :
        (f : K → Option E) (c : List E) (total : ℕ)
        → total + length (home bs k) ≡ length (entries bs) + length c
        → ((q : K) → cb.key_eq q k ≡ true → (find cb q c ≡ f q) × (count cb q c ≤ 1))
        → ((q : K)
            → cb.key_eq q k ≡ false
            → (find cb q c ≡ find cb q (home bs k))
              × (count cb q c ≤ count cb q (home bs k))
              × (f q ≡ view bs q))
        → Holds (length bs) total f (set bs (hash_idx cb seed (length bs) k) (some c))
    unfolding view
    set-Holds f c total sizes same other =
        let lt = hash_idx-lt (length bs) k some_bucket in
        record {
          width = length-set bs _ _;
          total_entries = omega (arith, length-entries-set bs _ c lt);
          at_home = λ q i.
              rw (length-set, chain_at-set bs _ i c lt)
                (ground (arith, h q i, same q, other q, hash_idx-congr (length bs) q k));
          reads = λ q.
              rw (length-set, chain_at-set bs _ _ c lt)
                (ground (arith, same q, other q, hash_idx-congr (length bs) q k));
        }

    -- a new value in front
    pub cons-Holds :
        (e : E)
        → cb.key_eq k (cb.bucket_key e) ≡ true
        → view bs k ≡ none
        → Holds
            (length bs)
            (length (entries bs) + 1)
            (λ q. if matches cb q e then some e else view bs q)
            (set bs (hash_idx cb seed (length bs) k) (some (e ∷ home bs k)))
    unfolding view count find
    cons-Holds e same absent =
        set-Holds (λ q. if matches cb q e then some e else view bs q) (e ∷ home bs k) _
          (omega arith)
          (λ q eq.
            ground
              (arith, key_eq_right cb q k (cb.bucket_key e), count-find-none cb k q (home bs k)))
          (λ q ne. ground (arith, key_eq_right cb q k (cb.bucket_key e)))
