-- ===== src/Addr/Host/Contents.antt =====
-- What `ares__addrinfo2hostent` returns, whatever the allocator answers.
use mathlib.Core.List.{append_assoc, append-nil}
use c_ares.Base.{
  length-zero, ℕ, suc, ◌+◌, ◌*◌, ◌≡◌, refl, sym, ap, ◌∙◌, arith, Bool, Bool-cases, ◌⊎◌, inl, inr,
  true, not, ◌&&◌, List, [], ◌∷◌, ◌++◌, Option, none, some, length, All, ◌==◌, length-append,
}
use c_ares.Result.{Status, enodata, enomem}
use c_ares.Cmd.{Buffer}
use c_ares.Cmd.Safe.{
  Safe, Safe-pure, Safe-known, Safe-bind, Safe-mono, Safe-relax, Safe-if, Safe-guard_else,
  Safe-malloc, Safe-malloc_node,
}
use c_ares.Cmd.Slots.{Slots, empty_slots, store-ok}
use c_ares.Cmd.Put.{put-ok}
use c_ares.Wire.Copy.{puts-ok}
use c_ares.Wire.Copy.{c_string}
use c_ares.Search.{strdup}
use c_ares.Search.Total.{IsNoMemory}
use c_ares.Addr.{Family, addr_size, AddrNode, Cname, AddrInfo}
use c_ares.Addr.Total.{IsNode}
use c_ares.Addr.Block.{
  same_family, Filled, of_family, joined, offsets, IsNode-size, copy_addresses-ok,
}
use c_ares.Addr.Host.{
  HostEntry, chosen_family, count_addrs, count_aliases, counted, copy_alias, copy_aliases,
  strdup_option, canonical_name, fill_addrs, addrinfo2hostent,
}

-- a copy of a name, as far as its first NUL
abbrev pub copied_name : Option (List ℕ) → Option (List ℕ)
copied_name none = none
copied_name (some s) = some (c_string s)

-- the names of the aliases that have one
abbrev pub with_alias : Option (List ℕ) → List (List ℕ) → List (List ℕ)
with_alias none names = names
with_alias (some a) names = c_string a ∷ names

abbrev pub alias_names : List Cname → List (List ℕ)
alias_names [] = []
alias_names (c ∷ cs) = with_alias c.alias (alias_names cs)

-- no address of the family, and no alias
abbrev pub is_empty : AddrInfo → Family → Bool
is_empty ai wanted =
    length (of_family (chosen_family wanted ai.nodes) ai.nodes) == 0
    && length (alias_names ai.cnames) == 0

-- the failures: no memory, or nothing to return
abbrev pub IsHostFailure : AddrInfo → Family → Status → Type 0
IsHostFailure ai wanted s = (s ≡ enomem) ⊎ ((s ≡ enodata) × (is_empty ai wanted ≡ true))

abbrev pub host_of : AddrInfo → Family → HostEntry
host_of ai wanted =
    let family = chosen_family wanted ai.nodes in
    let nodes = of_family family ai.nodes in
    record {
      h_name = copied_name (canonical_name ai);
      h_aliases = alias_names ai.cnames;
      h_addrtype = family;
      h_length = addr_size family;
      h_addr_list = offsets (addr_size family) 0 (length nodes);
      block = joined nodes;
    }

count_addrs-eq :
    (family : Family) (nodes : List AddrNode)
    → count_addrs family nodes ≡ length (of_family family nodes)
unfolding count_addrs
count_addrs-eq family [] = refl
count_addrs-eq family (n ∷ nodes) = ground (arith, count_addrs-eq family nodes)

length-with_alias :
    (alias : Option (List ℕ)) (names : List (List ℕ))
    → length (with_alias alias names) ≡ counted alias (length names)
length-with_alias none names = refl
length-with_alias (some a) names = refl

count_aliases-eq : (cs : List Cname) → count_aliases cs ≡ length (alias_names cs)
unfolding count_aliases
count_aliases-eq [] = refl
count_aliases-eq (c ∷ cs) =
    ap (counted c.alias) (count_aliases-eq cs) ∙ sym (length-with_alias c.alias (alias_names cs))

times_suc : (n k : ℕ) → suc n * k ≡ k + n * k
times_suc n k = omega arith

joined-length :
    (family : Family) (nodes : List AddrNode)
    → All IsNode nodes
    → length (joined (of_family family nodes)) ≡ length (of_family family nodes) * addr_size family
joined-length family [] w = omega arith
joined-length family (n ∷ nodes) w = elim (Bool-cases (same_family n.ai_family family)) [
  | inl h ↦
      let rest = joined-length family nodes w.1 in
      rw h (
        length-append n.ai_addr (joined (of_family family nodes))
        ∙ (rw (rest, ← IsNode-size family n w.0 h)
            (sym (times_suc (length (of_family family nodes)) (addr_size family)))))
  | inr h ↦ rw h (joined-length family nodes w.1)
]

strdup-Copies : (s : List ℕ) → Safe IsNoMemory (λ t. t ≡ s) (strdup s)
unfolding strdup
strdup-Copies s = Safe-bind (Safe-malloc (length s + 1) refl) λ b fresh.
    let copy : Buffer = record { room = 1; text = b.text ++ s } in
    Safe-bind {P = λ q. q ≡ copy} (Safe-known (puts-ok s b 1 fresh.0) refl) λ q e.
      Safe-bind {P = λ _. Unit {0}} (Safe-known (put-ok 0 q 0 (ap (λ (x : Buffer). x.room) e)) tt)
        λ _ _. Safe-pure (ap (λ (x : Buffer). x.text) e ∙ ap (λ t. t ++ s) fresh.1)

copy_alias-Copies :
    (alias : Option (List ℕ)) (q : Slots (List ℕ)) (names : List (List ℕ)) (r : ℕ)
    → q.free ≡ length (with_alias alias names) + r
    → Safe IsNoMemory
        (λ q'.
          (q'.free ≡ length names + r) × (q'.filled ++ names ≡ q.filled ++ with_alias alias names))
        (copy_alias alias q)
unfolding copy_alias
copy_alias-Copies none q names r h = Safe-pure (h, refl)
copy_alias-Copies (some a) q names r h = Safe-bind (strdup-Copies (c_string a)) λ s e. rw e (
    Safe-known (store-ok (c_string a) q (length names + r) (omega (arith, h)))
      (refl, append_assoc q.filled (c_string a ∷ []) names))

copy_aliases-Copies :
    (cs : List Cname) (q : Slots (List ℕ)) (r : ℕ)
    → q.free ≡ length (alias_names cs) + r
    → Safe IsNoMemory (λ q'. q'.filled ≡ q.filled ++ alias_names cs) (copy_aliases cs q)
unfolding copy_aliases
copy_aliases-Copies [] q r h = Safe-pure (sym (append-nil q.filled))
copy_aliases-Copies (c ∷ cs) q r h =
    Safe-bind (copy_alias-Copies c.alias q (alias_names cs) r h)
      λ q' w. Safe-mono (copy_aliases-Copies cs q' r w.0) λ q'' e. e ∙ w.1

strdup_option-Copies :
    (s : Option (List ℕ)) → Safe IsNoMemory (λ t. t ≡ copied_name s) (strdup_option s)
unfolding strdup_option
strdup_option-Copies none = Safe-pure refl
strdup_option-Copies (some s) = Safe-bind (strdup-Copies (c_string s)) λ t e. Safe-pure (ap some e)

abbrev IsFilled : Family → List AddrNode → Filled → Type 0
IsFilled family nodes q =
    (q.0.filled ≡ offsets (addr_size family) 0 (length nodes)) × (q.1.text ≡ joined nodes)

fill_addrs-Fills :
    (family : Family) (nodes : List AddrNode)
    → All IsNode nodes
    → Safe IsNoMemory
        (IsFilled family (of_family family nodes))
        (fill_addrs family (length (of_family family nodes)) nodes)
unfolding fill_addrs
fill_addrs-Fills family nodes w =
    let naddrs = length (of_family family nodes) in
    Safe-if (naddrs == 0)
      (λ z. rw (length-zero (of_family family nodes) (ground arith)) (Safe-pure (refl, refl)))
      (λ _. Safe-bind (Safe-malloc (naddrs * addr_size family) refl) λ block fresh.
        let size : block.room ≡ length (joined (of_family family nodes)) + 0 =
          omega (arith, fresh.0, joined-length family nodes w) in
        Safe-known
          (copy_addresses-ok family nodes (empty_slots (naddrs + 1), block) 1 0 w (omega arith)
            size)
          (refl, ap (λ t. t ++ joined (of_family family nodes)) fresh.1))

pub addrinfo2hostent-Safe :
    (ai : AddrInfo) (wanted : Family)
    → All IsNode ai.nodes
    → Safe (IsHostFailure ai wanted) (λ host. host ≡ host_of ai wanted) (addrinfo2hostent ai wanted)
unfolding addrinfo2hostent
addrinfo2hostent-Safe ai wanted w =
    let family = chosen_family wanted ai.nodes in
    let memory : (s : Status) → IsNoMemory s → IsHostFailure ai wanted s = λ s e. inl e in
    rw (count_addrs-eq family ai.nodes, count_aliases-eq ai.cnames)
      (Safe-bind (Safe-malloc_node (inl refl)) λ _ _. Safe-bind (Safe-malloc_node (inl refl)) λ _ _.
        Safe-bind
          (Safe-relax
            (copy_aliases-Copies ai.cnames (empty_slots (length (alias_names ai.cnames) + 1)) 1
              refl)
            memory)
          λ aliases copied. Safe-bind (Safe-malloc_node (inl refl)) λ _ _.
            Safe-bind (Safe-relax (strdup_option-Copies (canonical_name ai)) memory) λ name same.
              Safe-bind (Safe-relax (fill_addrs-Fills family ai.nodes w) memory) λ filled fills.
                Safe-guard_else (not (is_empty ai wanted)) enodata (λ e. inr (refl, ground arith))
                  λ _. Safe-pure (rw (copied, same, fills.0, fills.1) refl))
