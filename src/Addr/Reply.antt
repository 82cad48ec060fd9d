-- ===== src/Addr/Reply.antt =====
-- src/lib/ares_parse_a_reply.c and src/lib/ares_parse_aaaa_reply.c, which differ in the family. The
-- caller asks for a host, for up to `req` addresses with their TTLs, or for both.
pub mod Total
use c_ares.Base.{
  ℕ, ◌+◌, Bool, true, false, List, [], ◌∷◌, Option, none, some, ◌==◌, if◌then◌else◌, not, ◌&&◌,
}
use c_ares.Result.{Status, success, enodata, Result, ok, fail, fault, stuck}
use c_ares.Cmd.{Allocs, Cmd, pure, ◌>>=◌}
use c_ares.Addr.{Family, AddrInfo, parse_into_addrinfo}
use c_ares.Addr.Host.{HostEntry, addrinfo2hostent}
use c_ares.Addr.Ttl.{AddrTtl, addrinfo2addrttl}

-- what the caller gets: a status, ARES_SUCCESS or ARES_ENODATA, the host, and the addresses
pub record AddrReply : Type 0 where
  pub status : Status
  pub host : Option HostEntry
  pub addrttls : List AddrTtl

abbrev pub no_info : AddrInfo
no_info = record { cnames = []; nodes = []; name = none }

abbrev pub is_enodata : Status → Bool
is_enodata enodata = true
is_enodata _ = false

-- The caller goes on after ARES_ENODATA. The allocator's answers from there on are `later`.
module _ {A : Type 0} (later : Allocs) where
  abbrev pub after_enodata : A → Result (A × Allocs) → Result ((Status × A) × Allocs)
  after_enodata empty (ok (a, h)) = ok ((success, a), h)
  after_enodata empty (fail s) = if is_enodata s then ok ((enodata, empty), later) else fail s
  after_enodata empty fault = fault
  after_enodata empty stuck = stuck

unfoldable pub parsed_info : Allocs → List ℕ → ℕ → Cmd (Status × AddrInfo)
parsed_info later abuf alen h =
    after_enodata later no_info (parse_into_addrinfo abuf alen false 0 no_info h)

abbrev pub host_made : Cmd HostEntry → Cmd (Option HostEntry)
host_made m = m >>= λ host. pure (some host)

-- the host, if the caller asks for one; its status is then that of the reply
unfoldable pub host_part :
    Allocs → Bool → Status → AddrInfo → Family → Cmd (Status × Option HostEntry)
host_part later true status ai family h =
    after_enodata later none (host_made (addrinfo2hostent ai family) h)
host_part later false status ai family h = ok ((status, none), h)

-- a failure of `ares__addrinfo2addrttl` is ignored: it then has written nothing
abbrev pub written : Result (List AddrTtl) → Cmd (List AddrTtl)
written (ok entries) h = ok (entries, h)
written (fail s) h = ok ([], h)
written fault h = fault
written stuck h = stuck

-- the addresses, if the caller asks for some
unfoldable pub addrttl_part : ℕ → AddrInfo → Family → Cmd (List AddrTtl)
addrttl_part req ai family =
    if req == 0 then pure [] else written (addrinfo2addrttl ai.cnames ai.nodes family req)

unfoldable pub parse_addr_reply : Allocs → List ℕ → ℕ → Family → Bool → ℕ → Cmd AddrReply
parse_addr_reply later abuf alen family wants_host req = do
  (status, ai) ← parsed_info later abuf alen
  (status', host) ← host_part later wants_host status ai family
  addrttls ← addrttl_part req ai family
  pure (record { status = status'; host = host; addrttls = addrttls })
