-- ===== src/Addr/Host.antt =====
-- `ares__addrinfo2hostent` of src/lib/ares__addrinfo2hostent.c: a `struct hostent` of the addresses
-- of a reply. The caller's pointers are not NULL.
pub mod Contents
use c_ares.Base.{
  ℕ, suc, ◌+◌, ◌*◌, ◌&&◌, not, List, [], ◌∷◌, Option, none, some, length, ◌==◌, if◌then◌else◌,
}
use c_ares.Result.{enodata}
use c_ares.Cmd.{Cmd, Buffer, malloc, malloc_node, lift, pure, guard, ◌>>=◌, ◌>>◌}
use c_ares.Cmd.Slots.{Slots, empty_slots, store}
use c_ares.Wire.Copy.{c_string}
use c_ares.Search.{strdup}
use c_ares.Addr.{Family, af_unspec, addr_size, AddrNode, Cname, AddrInfo}
use c_ares.Addr.Block.{same_family, Filled, copy_addresses}

-- `struct hostent`. The elements of `h_addr_list` point into one block of memory: they are the
-- offsets into it.
pub record HostEntry : Type 0 where
  pub h_name : Option (List ℕ)
  pub h_aliases : List (List ℕ)
  pub h_addrtype : Family
  pub h_length : ℕ
  pub h_addr_list : List ℕ
  pub block : List ℕ

-- the family of the first node stands for AF_UNSPEC
abbrev pub chosen_family : Family → List AddrNode → Family
chosen_family af_unspec (n ∷ nodes) = n.ai_family
chosen_family family _ = family

unfoldable pub count_addrs : Family → List AddrNode → ℕ
count_addrs family [] = 0
count_addrs family (n ∷ nodes) =
    let rest = count_addrs family nodes in if same_family n.ai_family family then suc rest else rest

abbrev pub counted : Option (List ℕ) → ℕ → ℕ
counted none n = n
counted (some a) n = suc n

unfoldable pub count_aliases : List Cname → ℕ
count_aliases [] = 0
count_aliases (c ∷ cs) = counted c.alias (count_aliases cs)

unfoldable pub copy_alias : Option (List ℕ) → Slots (List ℕ) → Cmd (Slots (List ℕ))
copy_alias none q = pure q
copy_alias (some a) q = do s ← strdup (c_string a); lift (store s q)

unfoldable pub copy_aliases : List Cname → Slots (List ℕ) → Cmd (Slots (List ℕ))
copy_aliases [] q = pure q
copy_aliases (c ∷ cs) q = do q' ← copy_alias c.alias q; copy_aliases cs q'

-- `ares_strdup` (a name as far as its first NUL), of a pointer that can be NULL
unfoldable pub strdup_option : Option (List ℕ) → Cmd (Option (List ℕ))
strdup_option none = pure none
strdup_option (some s) = do t ← strdup (c_string s); pure (some t)

-- the name of the first alias, or that of the reply
abbrev pub canonical_name : AddrInfo → Option (List ℕ)
canonical_name ai = elim ai.cnames [ [] ↦ ai.name | c ∷ cs ↦ c.name ]

-- the block of the addresses, allocated if there is one, and the pointers into it
unfoldable pub fill_addrs : Family → ℕ → List AddrNode → Cmd Filled
fill_addrs family naddrs nodes =
    if naddrs == 0 then pure (empty_slots (naddrs + 1), record { room = 0; text = [] }) else (do
      block ← malloc (naddrs * addr_size family)
      lift (copy_addresses family nodes (empty_slots (naddrs + 1), block)))

unfoldable pub addrinfo2hostent : AddrInfo → Family → Cmd HostEntry
addrinfo2hostent ai wanted = do
  malloc_node
  let family = chosen_family wanted ai.nodes
  let naddrs = count_addrs family ai.nodes
  let naliases = count_aliases ai.cnames
  malloc_node
  aliases ← copy_aliases ai.cnames (empty_slots (naliases + 1))
  malloc_node
  name ← strdup_option (canonical_name ai)
  filled ← fill_addrs family naddrs ai.nodes
  guard (not (naddrs == 0 && naliases == 0)) enodata
  pure (record {
    h_name = name;
    h_aliases = aliases.filled;
    h_addrtype = family;
    h_length = addr_size family;
    h_addr_list = filled.0.filled;
    block = filled.1.text;
  })
