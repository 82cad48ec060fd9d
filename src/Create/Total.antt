-- ===== src/Create/Total.antt =====
-- `ares_create_query` is memory safe, and the messages that it makes are bounded.
use c_ares.Base.{ℕ, ◌+◌, ◌≤◌, arith, Bool, not, List, length, leb}
use c_ares.Result.{Status, enotfound, ebadname, enomem}
use c_ares.Result.Ensures.{Ensures-relax}
use c_ares.Cmd.Safe.{Safe, Safe-pure, Safe-lift, Safe-bind, Safe-guard, Safe-malloc}
use c_ares.Text.{is_onion_domain}
use c_ares.Query.{maxcdname}
use c_ares.Query.Total.{write_query-Fits}
use c_ares.Create.{edns_size, create_query}
use c_ares.Reply.{hfixedsz, qfixedsz}

-- the errors of `ares_create_query`
abbrev pub IsQueryError : Status → Type 0
IsQueryError enotfound = Unit
IsQueryError ebadname = Unit
IsQueryError enomem = Unit
IsQueryError _ = ⊥

-- Whatever the name and the answers of the allocator, `create_query` ends with no write outside
-- its block of strlen(name) + 18 bytes (29 with EDNS). It fails with ARES_ENOTFOUND, ARES_EBADNAME
-- or ARES_ENOMEM, or returns a message of at most 271 bytes (282 with EDNS).
pub create_query-Safe :
    (name : List ℕ) (dnsclass type id : ℕ) (rd : Bool) (max_udp_size : ℕ)
    → Safe IsQueryError
        (λ message. length message ≤ 271 + edns_size max_udp_size)
        (create_query name dnsclass type id rd max_udp_size)
unfolding create_query
create_query-Safe name dnsclass type id rd max_udp_size =
    Safe-guard (not (is_onion_domain name)) enotfound tt λ _.
      Safe-bind (Safe-malloc (length name + 2 + hfixedsz + qfixedsz + edns_size max_udp_size) tt)
        λ buf fresh.
          Safe-bind
            (Safe-lift (
              Ensures-relax
                (write_query-Fits name dnsclass type id rd max_udp_size buf (omega arith))
                λ s e. rw e tt))
            λ q w.
              Safe-guard
                (leb (length q.text) (maxcdname + hfixedsz + qfixedsz + edns_size max_udp_size))
                ebadname tt λ short. Safe-pure (ground arith)
