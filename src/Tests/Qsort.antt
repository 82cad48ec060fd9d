-- ===== src/Tests/Qsort.antt =====
-- A C library whose `qsort` is an insertion sort, and a run of the sorting of addresses with it.
use mathlib.Core.List.Perm
use mathlib.Core.List.{Perm}
use c_ares.Base.{
  ℕ, ◌≡◌, ◌≢◌, refl, arith, Bool, true, false, List, [], ◌∷◌, All, ℤ, pos, neg, is_neg, some, ap,
  ◌∙◌, ◌==◌, if◌then◌else◌,
}
use c_ares.Result.{ok}
use c_ares.Cmd.{malloc}
use c_ares.Cmd.Safe.{Safe}
use c_ares.Sort.{
  SockAddr, inet, inet6, SortElem, rfc6724_compare, get_scope, get_label, get_precedence,
  scope_match, label_match, has_prefix, prefixlen, common_prefix_len, prefix_loop, first_bit, zeros,
  in6_multicast, in6_loopback, in6_linklocal, in6_sitelocal, in6_v4mapped, in6_v4compat, in6_ula,
  in6_teredo, in6_6to4, in6_6bone,
}
use c_ares.Sort.Order.{IsUnmapped}
use c_ares.Sort.Sorted.{
  Sockets, opened, Pairs, Before, IsConsistent, Qsort, find_src_addr, to_elems, sort_elems,
  sortaddrinfo,
}
use c_ares.Sort.Sorted.Total.{IsSortError, IsInOrder, sortaddrinfo-Safe}

module _ (cmp : SortElem → SortElem → ℤ) where
  unfoldable insert : SortElem → List SortElem → List SortElem
  insert x [] = x ∷ []
  insert x (y ∷ ys) = elim (is_neg (cmp x y)) [ true ↦ x ∷ y ∷ ys | false ↦ y ∷ insert x ys ]

  unfoldable insertion_sort : List SortElem → List SortElem
  insertion_sort [] = []
  insertion_sort (x ∷ xs) = insert x (insertion_sort xs)

  insert-Perm : (x : SortElem) (ys : List SortElem) → Perm (x ∷ ys) (insert x ys)
  unfolding insert
  insert-Perm x [] = Perm.refl (x ∷ [])
  insert-Perm x (y ∷ ys) =
      elim (is_neg (cmp x y))
        as (λ b. Perm (x ∷ y ∷ ys) (elim b [ true ↦ x ∷ y ∷ ys | false ↦ y ∷ insert x ys ])) [
          | true ↦ Perm.refl (x ∷ y ∷ ys)
          | false ↦ Perm.trans (Perm.swap y x ys) (Perm.cons y (insert-Perm x ys))
        ]

  insertion_sort-Perm : (xs : List SortElem) → Perm xs (insertion_sort xs)
  unfolding insertion_sort
  insertion_sort-Perm [] = Perm.refl []
  insertion_sort-Perm (x ∷ xs) =
      Perm.trans (Perm.cons x (insertion_sort-Perm xs)) (insert-Perm x (insertion_sort xs))

  module _ (Q : SortElem → Type 0) where
    All-insert : (x : SortElem) (ys : List SortElem) → Q x → All Q ys → All Q (insert x ys)
    unfolding insert
    All-insert x [] q h = (q, tt)
    All-insert x (y ∷ ys) q h =
        elim (is_neg (cmp x y))
          as (λ b. All Q (elim b [ true ↦ x ∷ y ∷ ys | false ↦ y ∷ insert x ys ])) [
            | true ↦ (q, h)
            | false ↦ (h.0, All-insert x ys q h.1)
          ]

    All-insertion_sort : (xs : List SortElem) → All Q xs → All Q (insertion_sort xs)
    unfolding insertion_sort
    All-insertion_sort [] h = tt
    All-insertion_sort (x ∷ xs) h = All-insert x (insertion_sort xs) h.0 (All-insertion_sort xs h.1)

  is_neg-neg : (r : ℤ) → is_neg r ≡ false → r ≢ pos 0 → is_neg (neg r) ≡ true
  is_neg-neg r h ne = ground arith

  module _ {P : SortElem → Type 0} (c : IsConsistent cmp P) where
    All-Before :
        (x y : SortElem) (ys : List SortElem)
        → P x
        → P y
        → All P ys
        → Before cmp x y
        → All (Before cmp y) ys
        → All (Before cmp x) ys
    All-Before x y [] p q ps h hs = tt
    All-Before x y (z ∷ zs) p q ps h hs =
        (c.chains x y z p q ps.0 h hs.0, All-Before x y zs p q ps.1 h hs.1)

    insert_sorted :
        (x : SortElem) (ys : List SortElem)
        → P x
        → All P ys
        → All (λ b. cmp x b ≢ pos 0) ys
        → Pairs (Before cmp) ys
        → Pairs (Before cmp) (insert x ys)
    unfolding insert
    insert_sorted x [] p ps ne h = (tt, tt)
    insert_sorted x (y ∷ ys) p ps ne h =
        by_cases (is_neg (cmp x y)) refl (insert_sorted x ys p ps.1 ne.1 h.1)
      where
        by_cases :
            (b : Bool)
            → is_neg (cmp x y) ≡ b
            → Pairs (Before cmp) (insert x ys)
            → Pairs (Before cmp) (elim b [ true ↦ x ∷ y ∷ ys | false ↦ y ∷ insert x ys ])
        by_cases true e later = ((e, All-Before x y ys p ps.0 ps.1 e h.0), h)
        by_cases false e later = (
          All-insert (Before cmp y) x ys
              (ap is_neg (c.negates x y p ps.0) ∙ is_neg-neg (cmp x y) e ne.0) h.0,
          later,
        )

    insertion_sort_sorted :
        (xs : List SortElem)
        → All P xs
        → Pairs (λ a b. cmp a b ≢ pos 0) xs
        → Pairs (Before cmp) (insertion_sort xs)
    unfolding insertion_sort
    insertion_sort_sorted [] ps ne = tt
    insertion_sort_sorted (x ∷ xs) ps ne =
        insert_sorted x (insertion_sort xs) ps.0 (All-insertion_sort P xs ps.1)
          (All-insertion_sort (λ b. cmp x b ≢ pos 0) xs ne.0) (insertion_sort_sorted xs ps.1 ne.1)

insertion : Qsort
insertion = record {
  qsort = insertion_sort;
  qsort-Perm = λ cmp P xs c h ne. insertion_sort-Perm cmp xs;
  qsort-sorted = λ cmp P xs c. insertion_sort_sorted cmp c xs;
}

-- 2001:db8::n
abbrev site : ℕ → ℕ → ℕ
site n i =
    if i == 0
    then 0x20
    else if i == 1
    then 1
    else if i == 2
    then 0x0d
    else if i == 3
    then 0xb8
    else if i == 15
    then n
    else 0

abbrev online : Sockets
online = record { open_socket = λ a. opened; connect_socket = λ a. true; getsockname = λ a. some a }

abbrev three : List SockAddr
three = inet 0x0a000001 ∷ inet6 (site 3) ∷ inet6 (site 9) ∷ []

sortaddrinfo_run :
    sortaddrinfo online insertion three []
    ≡ ok (inet6 (site 3) ∷ inet6 (site 9) ∷ inet 0x0a000001 ∷ [], [])
unfolding rfc6724_compare get_scope get_label get_precedence scope_match label_match has_prefix
    prefixlen common_prefix_len prefix_loop first_bit zeros in6_multicast in6_loopback in6_linklocal
    in6_sitelocal in6_v4mapped in6_v4compat in6_ula in6_teredo in6_6to4 in6_6bone insert
    insertion_sort sort_elems sortaddrinfo to_elems find_src_addr malloc insertion
sortaddrinfo_run = refl

three-IsUnmapped : All IsUnmapped three
unfolding in6_v4mapped zeros
three-IsUnmapped = (tt, (refl, (refl, tt)))

sortaddrinfo-Safe_example :
    Safe IsSortError (IsInOrder online three) (sortaddrinfo online insertion three)
sortaddrinfo-Safe_example = sortaddrinfo-Safe online insertion three three-IsUnmapped
