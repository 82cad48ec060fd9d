-- ===== src/Htable/Chains.antt =====
-- One bucket of a table: the values found in it, and how many of them have a key.
use c_ares.Base.{
  ℕ, ◌+◌, ◌≤◌, ◌≡◌, refl, arith, Bool, true, false, none, some, List, [], ◌∷◌, length,
  if◌then◌else◌,
}
use c_ares.Htable.{Callbacks, find, replace, erase}

abbrev pub to_nat : Bool → ℕ
to_nat true = 1
to_nat false = 0

module _ {K E : Type 0} (cb : Callbacks K E) where
  pub key_eq_left : (a b c : K) → cb.key_eq a b ≡ true → cb.key_eq a c ≡ cb.key_eq b c
  key_eq_left a b c e =
      ground (arith, cb.key_eq_symm a b, cb.key_eq_trans a b c, cb.key_eq_trans b a c)

  pub key_eq_right : (a b c : K) → cb.key_eq b c ≡ true → cb.key_eq a b ≡ cb.key_eq a c
  key_eq_right a b c e = rw (cb.key_eq_symm a b, cb.key_eq_symm a c) (key_eq_left b c a e)

  -- how many values of a bucket have the key
  unfoldable pub count : K → List E → ℕ
  count q [] = 0
  count q (e ∷ c) = to_nat (cb.key_eq q (cb.bucket_key e)) + count q c

  -- a value has the key
  abbrev pub matches : K → E → Bool
  matches q e = cb.key_eq q (cb.bucket_key e)

  pub find-count_zero : (q : K) (c : List E) → count q c ≡ 0 → find cb q c ≡ none
  unfolding count find
  find-count_zero q [] h = refl
  find-count_zero q (e ∷ c) h = ground (arith, find-count_zero q c)

  pub count-find-none :
      (k q : K) (c : List E) → find cb k c ≡ none → cb.key_eq q k ≡ true → count q c ≡ 0
  unfolding count find
  count-find-none k q [] h same = refl
  count-find-none k q (e ∷ c) h same =
      ground (arith, count-find-none k q c, key_eq_left q k (cb.bucket_key e))

  pub find-matches : (k : K) (c : List E) (old : E) → find cb k c ≡ some old → matches k old ≡ true
  unfolding find
  find-matches k [] old h = cc
  find-matches k (e ∷ c) old h = ground (arith, find-matches k c old)

  module _ (k q : K) where
    pub find-replace :
        (new : E) (c : List E) (old : E)
        → cb.key_eq k (cb.bucket_key new) ≡ true
        → find cb k c ≡ some old
        → find cb q (replace cb k new c) ≡ (if matches q new then some new else find cb q c)
    unfolding find replace
    find-replace new [] old same h = cc
    find-replace new (e ∷ c) old same h = ground (
      arith,
      find-replace new c old,
      key_eq_right q k (cb.bucket_key new),
      key_eq_left q k (cb.bucket_key e),
      key_eq_right q k (cb.bucket_key e),
    )

    pub count-replace :
        (new : E) (c : List E)
        → cb.key_eq k (cb.bucket_key new) ≡ true
        → count q (replace cb k new c) ≡ count q c
    unfolding count replace
    count-replace new [] same = refl
    count-replace new (e ∷ c) same = ground (
      arith,
      count-replace new c,
      key_eq_right q k (cb.bucket_key new),
      key_eq_right q k (cb.bucket_key e),
    )

    pub find-erase :
        (c : List E)
        → count q c ≤ 1
        → find cb q (erase cb k c) ≡ (if cb.key_eq q k then none else find cb q c)
    unfolding find erase count
    find-erase [] h = ground arith
    find-erase (e ∷ c) h = ground (
      arith,
      find-erase c,
      find-count_zero q c,
      key_eq_left q k (cb.bucket_key e),
      key_eq_right q k (cb.bucket_key e),
    )

    pub count-erase-le : (c : List E) → count q (erase cb k c) ≤ count q c
    unfolding count erase
    count-erase-le [] = omega arith
    count-erase-le (e ∷ c) = ground (arith, count-erase-le c)

  pub length-replace : (k : K) (new : E) (c : List E) → length (replace cb k new c) ≡ length c
  unfolding replace
  length-replace k new [] = refl
  length-replace k new (e ∷ c) = ground (arith, length-replace k new c)

  pub length-erase :
      (k : K) (c : List E) (old : E) → find cb k c ≡ some old → length (erase cb k c) + 1 ≡ length c
  unfolding erase find
  length-erase k [] old h = cc
  length-erase k (e ∷ c) old h = ground (arith, length-erase k c old)
