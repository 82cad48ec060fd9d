-- ===== src/Sort/Sorted/Total.antt =====
-- `ares__sortaddrinfo` returns a permutation in the order of RFC 6724.
use mathlib.Core.Path.{subst}
use mathlib.Core.List.{Perm}
use c_ares.Base.{ℕ, ◌+◌, ◌≤◌, ◌≡◌, ◌≢◌, refl, sym, arith, List, [], ◌∷◌, map, All, pos}
use c_ares.Result.{Status, enodata, enotfound, enomem}
use c_ares.Cmd.Safe.{Safe, Safe-pure, Safe-raise, Safe-bind, Safe-malloc}
use c_ares.Sort.{SockAddr, SortElem, rfc6724_compare}
use c_ares.Sort.Order.{IsUnmapped, rfc6724_compare_trans, neg-rfc6724_compare, rfc6724_compare_ne}
use c_ares.Sort.Sorted.{
  Sockets, Source, found, unreachable, fatal, find_src_addr, elem_of, to_elems, Pairs, Before,
  IsConsistent, Qsort, sort_elems, sortaddrinfo,
}

-- the statuses of `ares__sortaddrinfo`
abbrev pub IsSortError : Status → Type 0
IsSortError enodata = Unit
IsSortError enomem = Unit
IsSortError enotfound = Unit
IsSortError _ = ⊥

abbrev NotTied : SortElem → SortElem → Type 0
NotTied a b = rfc6724_compare a b ≢ pos 0

-- the source address of an element is what `find_src_addr` found, if it did
abbrev pub IsSourced : SortElem → Source → Type 0
IsSourced e (found src) = (e.has_src_addr ≡ 1) × (e.src_addr ≡ src)
IsSourced e unreachable = e.has_src_addr ≡ 0
IsSourced e fatal = ⊥

-- what the array is for a list
record IsArray (net : Sockets) (i : ℕ) (nodes : List SockAddr) (elems : List SortElem)
    : Type 0 where
  addrs : map (λ e. e.ai_addr) elems ≡ nodes
  behind : All (λ e. i ≤ e.original_order) elems
  untied : Pairs NotTied elems
  sources : All (λ e. IsSourced e (find_src_addr net e.ai_addr)) elems

All-imp :
    {P Q : SortElem → Type 0} (xs : List SortElem)
    → ((x : SortElem) → P x → Q x)
    → All P xs
    → All Q xs
All-imp [] h p = tt
All-imp (x ∷ xs) h p = (h x p.0, All-imp xs h p.1)

module _ (net : Sockets) where
  elem_of-Safe :
      (addr : SockAddr) (i : ℕ) (s : Source)
      → Safe IsSortError
          (λ e. ((e.ai_addr ≡ addr) × (e.original_order ≡ i)) × IsSourced e s)
          (elem_of addr i s)
  elem_of-Safe addr i (found src) = Safe-pure ((refl, refl), (refl, refl))
  elem_of-Safe addr i unreachable = Safe-pure ((refl, refl), refl)
  elem_of-Safe addr i fatal = Safe-raise tt

  to_elems-IsArray :
      (i : ℕ) (nodes : List SockAddr)
      → Safe IsSortError (IsArray net i nodes) (to_elems net i nodes)
  unfolding to_elems
  to_elems-IsArray i [] =
      Safe-pure (record { addrs = refl; behind = tt; untied = tt; sources = tt })
  to_elems-IsArray i (cur ∷ nodes) =
      Safe-bind (elem_of-Safe cur i (find_src_addr net cur)) λ e here.
        Safe-bind (to_elems-IsArray (i + 1) nodes) λ elems rest. Safe-pure (record {
          addrs = λ k. here.0.0 k ∷ rest.addrs k;
          behind = (omega (arith, here.0.1), All-imp elems (λ x h. omega (arith, h)) rest.behind);
          untied = (
            All-imp elems (λ x h. rfc6724_compare_ne e x (λ same. omega (arith, h, here.0.1, same)))
                rest.behind,
            rest.untied,
          );
          sources =
              (subst (λ a. IsSourced e (find_src_addr net a)) (sym here.0.0) here.1, rest.sources);
        })

unmapped :
    (nodes : List SockAddr) (elems : List SortElem)
    → map (λ e. e.ai_addr) elems ≡ nodes
    → All IsUnmapped nodes
    → All (λ e. IsUnmapped e.ai_addr) elems
unmapped nodes elems e h = from elems (rw e h)
  where
    from :
        (elems : List SortElem)
        → All IsUnmapped (map (λ e. e.ai_addr) elems)
        → All (λ e. IsUnmapped e.ai_addr) elems
    from [] h = tt
    from (x ∷ xs) h = (h.0, from xs h.1)

consistent : IsConsistent rfc6724_compare (λ e. IsUnmapped e.ai_addr)
consistent = record { negates = λ a b p q. neg-rfc6724_compare a b; chains = rfc6724_compare_trans }

-- The array that comes back is `qsort` of the array of a list.
sort_elems-IsArray :
    (net : Sockets) (lib : Qsort) (nodes : List SockAddr)
    → Safe IsSortError
        (λ elems.
          (xs : List SortElem) × IsArray net 0 nodes xs × (elems ≡ lib.qsort rfc6724_compare xs))
        (sort_elems net lib nodes)
unfolding sort_elems
sort_elems-IsArray net lib [] = Safe-raise tt
sort_elems-IsArray net lib (node ∷ nodes) =
    Safe-bind (Safe-malloc _ tt)
      λ _ _. Safe-bind (to_elems-IsArray net 0 (node ∷ nodes)) λ elems w. Safe-pure (elems, w, refl)

-- what `sortaddrinfo` promises of its result
pub record IsInOrder (net : Sockets) (nodes result : List SockAddr) : Type 0 where
  array : List SortElem
  sorted : List SortElem
  of_nodes : map (λ e. e.ai_addr) array ≡ nodes
  sources : All (λ e. IsSourced e (find_src_addr net e.ai_addr)) array
  permuted : Perm array sorted
  in_order : Pairs (Before rfc6724_compare) sorted
  result_is : result ≡ map (λ e. e.ai_addr) sorted

-- For destinations with IPv4 addresses, or IPv6 addresses that are not mapped from IPv4, whatever
-- the sockets and the allocator answer, and for a `qsort` that permutes and sorts an array if it
-- has no ties and the comparison is consistent on it: `sortaddrinfo` fails with ARES_ENODATA,
-- ARES_ENOMEM or ARES_ENOTFOUND, or returns the destinations of an array in the order of
-- `rfc6724_compare`. This array is a permutation of one that has an element for each destination
-- of the list, in order, with the source address that `find_src_addr` found for it, or none.
pub sortaddrinfo-Safe :
    (net : Sockets) (lib : Qsort) (nodes : List SockAddr)
    → All IsUnmapped nodes
    → Safe IsSortError (IsInOrder net nodes) (sortaddrinfo net lib nodes)
unfolding sortaddrinfo
sortaddrinfo-Safe net lib nodes h = Safe-bind (sort_elems-IsArray net lib nodes) λ elems w.
    let all_unmapped = unmapped nodes w.0 w.1.addrs h in
    Safe-pure (record {
      array = w.0;
      sorted = elems;
      of_nodes = w.1.addrs;
      sources = w.1.sources;
      permuted = subst (Perm w.0) (sym w.2) (
          lib.qsort-Perm rfc6724_compare (λ e. IsUnmapped e.ai_addr) w.0 consistent all_unmapped
            w.1.untied);
      in_order = subst (Pairs (Before rfc6724_compare)) (sym w.2) (
          lib.qsort-sorted rfc6724_compare (λ e. IsUnmapped e.ai_addr) w.0 consistent all_unmapped
            w.1.untied);
      result_is = refl;
    })
