-- ===== src/Sort/Sorted.antt =====
-- src/lib/ares__sortaddrinfo.c: `find_src_addr` and `ares__sortaddrinfo`. The sockets and `qsort`
-- are not part of the repository: they are parameters.
pub mod Total
use mathlib.Core.List.{Perm}
use c_ares.Base.{
  ℕ, zero, suc, ◌+◌, ◌*◌, ◌≡◌, ◌≢◌, Bool, true, false, List, [], ◌∷◌, map, length, All, ℤ, pos, neg,
  is_neg, Option, none, some,
}
use c_ares.Result.{enodata, enotfound}
use c_ares.Cmd.{Cmd, malloc, pure, raise, ◌>>=◌}
use c_ares.Sort.{SockAddr, inet, inet6, other, SortElem, rfc6724_compare}

-- what `ares__open_socket` answers: a socket, or none, with EAFNOSUPPORT or another error
pub data Opened : Type 0 where
  opened no_family failed : Opened

-- The calls of the system for a destination: the answer of `ares__connect_socket` is the one behind
-- the interruptions, and `getsockname` gives the address or fails.
pub record Sockets : Type 0 where
  pub open_socket : SockAddr → Opened
  pub connect_socket : SockAddr → Bool
  pub getsockname : SockAddr → Option SockAddr

-- the answers 1, 0 and -1 of `find_src_addr`
pub data Source : Type 0 where
  found : SockAddr → Source
  unreachable fatal : Source

unfoldable pub find_src_addr : Sockets → SockAddr → Source
find_src_addr net other = unreachable
find_src_addr net addr = elim (net.open_socket addr) [
  | no_family ↦ unreachable
  | failed ↦ fatal
  | opened ↦ elim (net.connect_socket addr) [
    | false ↦ unreachable
    | true ↦ elim (net.getsockname addr) [ none ↦ fatal | some src ↦ found src ]
  ]
]

-- the array element for a destination; an unreachable one leaves `src_addr` undefined
abbrev pub elem_of : SockAddr → ℕ → Source → Cmd SortElem
elem_of addr i (found src) =
    pure (record { ai_addr = addr; has_src_addr = 1; src_addr = src; original_order = i })
elem_of addr i unreachable =
    pure (record { ai_addr = addr; has_src_addr = 0; src_addr = other; original_order = i })
elem_of addr i fatal = raise enotfound

-- the conversion of the linked list to the array, from the index `i`
unfoldable pub to_elems : Sockets → ℕ → List SockAddr → Cmd (List SortElem)
to_elems net i [] = pure []
to_elems net i (cur ∷ nodes) = do
  e ← elem_of cur i (find_src_addr net cur)
  elems ← to_elems net (i + 1) nodes
  pure (e ∷ elems)

-- every element against those behind it
abbrev pub Pairs : (SortElem → SortElem → Type 0) → List SortElem → Type 0
Pairs R [] = Unit
Pairs R (x ∷ xs) = All (R x) xs × Pairs R xs

abbrev pub Before : (SortElem → SortElem → ℤ) → SortElem → SortElem → Type 0
Before cmp a b = is_neg (cmp a b) ≡ true

-- a comparison that is consistent on the elements with `P`
pub record IsConsistent (cmp : SortElem → SortElem → ℤ) (P : SortElem → Type 0) : Type 0 where
  pub negates : (a b : SortElem) → P a → P b → cmp b a ≡ neg (cmp a b)
  pub chains :
      (a b c : SortElem) → P a → P b → P c → Before cmp a b → Before cmp b c → Before cmp a c

-- The C library's `qsort`: if the comparison is consistent on an array without ties, it permutes
-- the array and sorts it.
pub record Qsort : Type 1 where
  pub qsort : (SortElem → SortElem → ℤ) → List SortElem → List SortElem
  pub qsort-Perm :
      (cmp : SortElem → SortElem → ℤ) (P : SortElem → Type 0) (xs : List SortElem)
      → IsConsistent cmp P
      → All P xs
      → Pairs (λ a b. cmp a b ≢ pos 0) xs
      → Perm xs (qsort cmp xs)
  pub qsort-sorted :
      (cmp : SortElem → SortElem → ℤ) (P : SortElem → Type 0) (xs : List SortElem)
      → IsConsistent cmp P
      → All P xs
      → Pairs (λ a b. cmp a b ≢ pos 0) xs
      → Pairs (Before cmp) (qsort cmp xs)

-- `sizeof(struct addrinfo_sort_elem)`
abbrev pub elem_size : ℕ
elem_size = 48

-- the sorted array, by which the list is linked again
unfoldable pub sort_elems : Sockets → Qsort → List SockAddr → Cmd (List SortElem)
sort_elems net lib [] = raise enodata
sort_elems net lib (node ∷ nodes) = do
  _ ← malloc (length (node ∷ nodes) * elem_size)
  elems ← to_elems net 0 (node ∷ nodes)
  pure (lib.qsort rfc6724_compare elems)

-- The result is the list that the sentinel starts, a node by its address.
unfoldable pub sortaddrinfo : Sockets → Qsort → List SockAddr → Cmd (List SockAddr)
sortaddrinfo net lib nodes = do elems ← sort_elems net lib nodes; pure (map (λ e. e.ai_addr) elems)
