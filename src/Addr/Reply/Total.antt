-- ===== src/Addr/Reply/Total.antt =====
-- A and AAAA replies: whatever the message and the allocator, the parser ends inside the message,
-- and what it returns is what it read there.
use c_ares.Base.{
  ℕ, ◌*◌, ap, Bool-cases, ◌≤◌, ◌≡◌, refl, arith, Bool, true, false, List, Option, none, some, ◌⊎◌,
  inl, inr, length, map, All, take, ◌==◌,
}
use c_ares.Result.{Status, success, enodata, ebadresp, enomem, Result}
use c_ares.Result.Ensures.{Ensures, returns, fails}
use c_ares.Cmd.{Allocs}
use c_ares.Cmd.Safe.{Safe, Safe-pure, Safe-bind, Safe-if}
use c_ares.Reply.Total.{IsHostError}
use c_ares.Addr.{Family, af_inet, af_inet6, AddrInfo}
use c_ares.Addr.Total.{IsNode, parse_into_addrinfo-Safe}
use c_ares.Addr.Block.{of_family}
use c_ares.Addr.Host.{HostEntry}
use c_ares.Addr.Host.Contents.{IsHostFailure, is_empty, host_of, addrinfo2hostent-Safe}
use c_ares.Addr.Ttl.{int_max, least_ttl}
use c_ares.Addr.Ttl.Least.{IsLeast, least_ttl-IsLeast, entry, addrinfo2addrttl-entries}
use c_ares.Addr.Reply.{
  AddrReply, is_enodata, no_info, after_enodata, parsed_info, host_part, addrttl_part,
  parse_addr_reply,
}

-- the failures that the caller sees, other than ARES_ENODATA
abbrev pub IsAddrError : Status → Type 0
IsAddrError s = (s ≡ ebadresp) ⊎ (s ≡ enomem)

-- what was read: nothing, with ARES_ENODATA, or some nodes and aliases of the message
pub record IsRead (alen : ℕ) (r : Status × AddrInfo) : Type 0 where
  pub nodes_fit : All IsNode r.1.nodes
  pub nodes_inside : 11 * length r.1.nodes ≤ alen
  pub status : (r.0 ≡ success) ⊎ ((r.0 ≡ enodata) × (r.1 ≡ no_info))

-- The reply stands for the nodes and the aliases that were read.
pub record IsAddrReply (alen : ℕ) (family : Family) (wants_host : Bool) (req : ℕ) (r : AddrReply)
    : Type 0 where
  pub ai : AddrInfo
  pub nodes_fit : All IsNode ai.nodes
  pub nodes_inside : 11 * length ai.nodes ≤ alen
  pub host :
      wants_host ≡ true
      → ((r.status ≡ success) × (r.host ≡ some (host_of ai family)))
        ⊎ ((r.status ≡ enodata) × (r.host ≡ none) × (is_empty ai family ≡ true))
  pub alone :
      wants_host ≡ false
      → (r.host ≡ none) × ((r.status ≡ success) ⊎ ((r.status ≡ enodata) × (ai ≡ no_info)))
  pub bound : ℕ
  pub least : IsLeast int_max bound ai.cnames
  pub addrttls : r.addrttls ≡ take req (map (entry bound) (of_family family ai.nodes))

is_enodata-eq : (s : Status) → is_enodata s ≡ true → s ≡ enodata
is_enodata-eq enodata h = refl
is_enodata-eq _ h = cc

module _ {A : Type 0} {E F : Status → Type 0} {P : A → Type 0} (Q : Status × A → Type 0)
    (later : Allocs) (empty : A) where
  after_enodata-Ensures :
      (r : Result (A × Allocs))
      → Ensures E (λ (x : A × Allocs). P x.0) r
      → ((a : A) → P a → Q (success, a))
      → (E enodata → Q (enodata, empty))
      → ((s : Status) → E s → is_enodata s ≡ false → F s)
      → Ensures F (λ (x : (Status × A) × Allocs). Q x.0) (after_enodata later empty r)
  after_enodata-Ensures r (returns {a = (a, h)} p) good none_read others = returns (good a p)
  after_enodata-Ensures r (fails {s} e) good none_read others = elim (Bool-cases (is_enodata s)) [
    | inl h ↦ rw h (returns (none_read (rw (is_enodata-eq s h) at e)))
    | inr h ↦ rw h (fails (others s e h))
  ]

host_error : (s : Status) → IsHostError s → is_enodata s ≡ false → IsAddrError s
host_error enodata e h = cc
host_error ebadresp e h = inl refl
host_error enomem e h = inr refl
host_error _ e h = absurd e

host_failure :
    (ai : AddrInfo) (family : Family) (s : Status)
    → IsHostFailure ai family s
    → is_enodata s ≡ false
    → IsAddrError s
host_failure ai family s (inl e) h = inr e
host_failure ai family s (inr e) h = absurd (let n : true ≡ false = rw e.0 at h in cc n)

parsed_info-Safe :
    (later : Allocs) (abuf : List ℕ) (alen : ℕ)
    → alen ≤ length abuf
    → Safe IsAddrError (IsRead alen) (parsed_info later abuf alen)
unfolding parsed_info
parsed_info-Safe later abuf alen inside = record {
  run = λ h.
      after_enodata-Ensures (IsRead alen) later no_info _
        ((parse_into_addrinfo-Safe abuf alen false 0 no_info inside).run h)
        (λ ai w. record {
          nodes_fit = rw w.all_nodes w.nodes_fit;
          nodes_inside = omega (arith, w.nodes_inside, ap length w.all_nodes);
          status = inl refl;
        })
        (λ _. record { nodes_fit = tt; nodes_inside = omega arith; status = inr (refl, refl) })
        host_error;
}

-- the status and the host that are returned
record IsHost (wants_host : Bool) (status : Status) (ai : AddrInfo) (family : Family)
    (r : Status × Option HostEntry) : Type 0 where
  wanted :
      wants_host ≡ true
      → ((r.0 ≡ success) × (r.1 ≡ some (host_of ai family)))
        ⊎ ((r.0 ≡ enodata) × (r.1 ≡ none) × (is_empty ai family ≡ true))
  alone : wants_host ≡ false → (r.1 ≡ none) × (r.0 ≡ status)

host_part-Safe :
    (later : Allocs) (wants_host : Bool) (status : Status) (ai : AddrInfo) (family : Family)
    → All IsNode ai.nodes
    → Safe IsAddrError
        (IsHost wants_host status ai family)
        (host_part later wants_host status ai family)
unfolding host_part
host_part-Safe later false status ai family w =
    Safe-pure (record { wanted = λ e. absurd (cc e); alone = λ _. (refl, refl) })
host_part-Safe later true status ai family w = record {
  run = λ h.
      after_enodata-Ensures (IsHost true status ai family) later none _
        ((Safe-bind (addrinfo2hostent-Safe ai family w)
            λ host same. Safe-pure {P = λ r. r ≡ some (host_of ai family)} (ap some same)).run
          h)
        (λ host same. record { wanted = λ _. inl (refl, same); alone = λ e. absurd (cc e) })
        (λ e. record {
          wanted = λ _. elim e [ inl n ↦ absurd (cc n) | inr w ↦ inr (refl, refl, w.1) ];
          alone = λ e. absurd (cc e);
        })
        (host_failure ai family);
}

addrttl_part-Safe :
    (req : ℕ) (ai : AddrInfo) (family : Family)
    → All IsNode ai.nodes
    → (family ≡ af_inet) ⊎ (family ≡ af_inet6)
    → Safe IsAddrError
        (λ entries.
          (bound : ℕ) × IsLeast int_max bound ai.cnames
          × (entries ≡ take req (map (entry bound) (of_family family ai.nodes))))
        (addrttl_part req ai family)
unfolding addrttl_part
addrttl_part-Safe req ai family w known =
    Safe-if (req == 0)
      (λ z. Safe-pure (
        least_ttl int_max ai.cnames,
        least_ttl-IsLeast int_max ai.cnames,
        let q : req ≡ 0 = ground arith in rw q refl,
      ))
      (λ nz.
        let (bound, least, run) =
          addrinfo2addrttl-entries ai.cnames ai.nodes family req w known (ground arith) in
        rw run (Safe-pure (bound, least, refl)))

-- For a message of `alen` bytes, AF_INET or AF_INET6, and any answers of the allocator:
-- `ares_parse_a_reply` and `ares_parse_aaaa_reply` end, read inside the message and write inside
-- what they allocate. They fail with ARES_EBADRESP or ARES_ENOMEM only. Else there are nodes and
-- aliases, with at most a node for each eleven bytes, that the result stands for: a host that is
-- asked for has all the addresses of the family and the names of the aliases, each as far as its
-- first NUL, and ARES_ENODATA is returned instead if there are none of both; without a host,
-- ARES_ENODATA is returned if nothing was read; the array holds the first addresses of the family,
-- as many as were asked for, each with the least of its own TTL and those of the aliases.
pub parse_addr_reply-Safe :
    (later : Allocs) (abuf : List ℕ) (alen : ℕ) (family : Family) (wants_host : Bool) (req : ℕ)
    → alen ≤ length abuf
    → (family ≡ af_inet) ⊎ (family ≡ af_inet6)
    → Safe IsAddrError
        (IsAddrReply alen family wants_host req)
        (parse_addr_reply later abuf alen family wants_host req)
unfolding parse_addr_reply
parse_addr_reply-Safe later abuf alen family wants_host req inside known =
    Safe-bind (parsed_info-Safe later abuf alen inside) λ r w.
      Safe-bind (host_part-Safe later wants_host r.0 r.1 family w.nodes_fit) λ host h.
        Safe-bind (addrttl_part-Safe req r.1 family w.nodes_fit known) λ entries e.
          Safe-pure (record {
            ai = r.1;
            nodes_fit = w.nodes_fit;
            nodes_inside = w.nodes_inside;
            host = h.wanted;
            alone = λ e. ((h.alone e).0, rw ((h.alone e).1) w.status);
            bound = e.0;
            least = e.1;
            addrttls = e.2;
          })
