-- ===== src/Addr/Ttl.antt =====
-- `ares__addrinfo2addrttl` of src/lib/ares__addrinfo2hostent.c: the addresses of a family with their
-- TTLs. A TTL is an `int`, held as its bit pattern. The caller's pointers are not NULL.
pub mod Least
use c_ares.Base.{
  ℕ, ◌+◌, ◌%◌, Bool, not, ◌&&◌, ◌||◌, List, [], ◌∷◌, length, ltb, ◌==◌, if◌then◌else◌,
}
use c_ares.Result.{Result, ok, guard, ◌>>=◌, ◌>>◌, ebadquery}
use c_ares.Cmd.Slots.{Slots, empty_slots, store}
use c_ares.Wire.Copy.{memcpy}
use c_ares.Addr.{Family, af_inet, af_inet6, addr_size, AddrNode, Cname}
use c_ares.Addr.Block.{same_family}

-- `a < b`, of two `int`s
abbrev pub int_lt : ℕ → ℕ → Bool
int_lt a b = ltb ((a + 2147483648) % 4294967296) ((b + 2147483648) % 4294967296)

abbrev pub int_max : ℕ
int_max = 2147483647

-- `struct ares_addrttl` and `struct ares_addr6ttl`
pub record AddrTtl : Type 0 where
  pub ipaddr : List ℕ
  pub ttl : ℕ

unfoldable pub least_ttl : ℕ → List Cname → ℕ
least_ttl cname_ttl [] = cname_ttl
least_ttl cname_ttl (c ∷ cs) = least_ttl (if int_lt c.ttl cname_ttl then c.ttl else cname_ttl) cs

unfoldable pub write_addrttl : Family → ℕ → ℕ → AddrNode → Slots AddrTtl → Result (Slots AddrTtl)
write_addrttl family cname_ttl req n out =
    if same_family n.ai_family family && ltb (length out.filled) req
    then (do
      ip ← memcpy n.ai_addr 0 (addr_size family) (record { room = addr_size family; text = [] })
      store
          (record {
            ipaddr = ip.text;
            ttl = if int_lt cname_ttl n.ai_ttl then cname_ttl else n.ai_ttl;
          })
          out)
    else ok out

unfoldable pub write_addrttls :
    Family → ℕ → ℕ → List AddrNode → Slots AddrTtl → Result (Slots AddrTtl)
write_addrttls family cname_ttl req [] out = ok out
write_addrttls family cname_ttl req (n ∷ nodes) out = do
  out' ← write_addrttl family cname_ttl req n out
  write_addrttls family cname_ttl req nodes out'

-- The caller's array has `req` elements.
unfoldable pub addrinfo2addrttl : List Cname → List AddrNode → Family → ℕ → Result (List AddrTtl)
addrinfo2addrttl cnames nodes family req = do
  guard (same_family family af_inet || same_family family af_inet6) ebadquery
  guard (not (req == 0)) ebadquery
  out ← write_addrttls family (least_ttl int_max cnames) req nodes (empty_slots req)
  ok out.filled
