-- ===== src/Reply/Ns.antt =====
-- src/lib/ares_parse_ns_reply.c.
use c_ares.Base.{
  ℕ, zero, suc, ◌+◌, ◌*◌, ◌≤◌, ◌≢◌, arith, true, false, not, ◌&&◌, List, [], ◌∷◌, ◌++◌, length, leb,
  ◌==◌, if◌then◌else◌, length-concat,
}
use c_ares.Result.{enodata, ebadresp}
use c_ares.Cmd.{Cmd, malloc, malloc_node, lift, index, pure, guard, ◌>>=◌, ◌>>◌}
use c_ares.Cmd.Safe.{
  Safe, Safe-pure, Safe-bind, Safe-if, Safe-guard, Safe-malloc, Safe-malloc_node, Safe-index,
}
use c_ares.Expand.{expand_name_for_response}
use c_ares.Reply.{c_in, Rr, read_header, read_question, read_rr}
use c_ares.Reply.Host.{Hostent, copy_string, copy_string-Safe}
use c_ares.Reply.Total.{
  IsHostError, for_response-Expands, RrInside, read_header-Safe, read_question-Safe, read_rr-Safe,
}

abbrev pub t_ns : ℕ
t_ns = 2

-- The data of an NS record, stored at `nameservers[nameservers_num]`; the array has `ancount + 1`
-- elements.
unfoldable pub ns_record : List ℕ → ℕ → ℕ → Rr → List (List ℕ) → Cmd (List (List ℕ))
ns_record abuf alen ancount rr nameservers = do
  (rr_data, len) ← expand_name_for_response true abuf alen rr.aptr
  lift (index (length nameservers) (ancount + 1))
  name ← copy_string rr_data
  pure (nameservers ++ name ∷ [])

-- `for (i = 0; i < ancount; i++)`, with the rounds that are left
unfoldable pub ns_loop : List ℕ → ℕ → ℕ → ℕ → ℕ → List (List ℕ) → Cmd (List (List ℕ))
ns_loop abuf alen ancount zero aptr nameservers = pure nameservers
ns_loop abuf alen ancount (suc n) aptr nameservers = do
  rr ← read_rr (expand_name_for_response false) abuf alen aptr
  nameservers' ←
      if rr.rr_class == c_in && rr.rr_type == t_ns
      then ns_record abuf alen ancount rr nameservers
      else pure nameservers
  guard (leb (rr.aptr + rr.rr_len) alen) ebadresp
  ns_loop abuf alen ancount n (rr.aptr + rr.rr_len) nameservers'

-- AF_INET and sizeof(struct in_addr)
abbrev pub af_inet : ℕ
af_inet = 2

abbrev pub in_addr_size : ℕ
in_addr_size = 4

unfoldable pub parse_ns_reply : List ℕ → ℕ → Cmd Hostent
parse_ns_reply abuf alen = do
  ancount ← read_header abuf alen
  (hostname, aptr) ← read_question (expand_name_for_response false) abuf alen
  _ ← malloc ((ancount + 1) * 8)
  nameservers ← ns_loop abuf alen ancount ancount aptr []
  guard (not (length nameservers == 0)) enodata
  lift (index (length nameservers) (ancount + 1))
  malloc_node
  malloc_node
  pure (record {
    h_name = hostname;
    h_aliases = nameservers;
    h_addrtype = af_inet;
    h_length = in_addr_size;
    h_addr_list = [];
  })

module _ (abuf : List ℕ) (alen : ℕ) (inside : alen ≤ length abuf) (ancount : ℕ) where
  -- The name servers so far are no more than the rounds that are done, and each took eleven bytes
  -- of the message at least.
  abbrev Room : ℕ → ℕ → List (List ℕ) → Type 0
  Room n p names = (length names + n ≤ ancount) × (11 * length names + 17 ≤ p)

  ns_record-Safe :
      (n p : ℕ) (rr : Rr) (names : List (List ℕ))
      → RrInside alen p rr
      → Room (suc n) p names
      → Safe IsHostError (Room n (rr.aptr + rr.rr_len)) (ns_record abuf alen ancount rr names)
  unfolding ns_record
  ns_record-Safe n p rr names w t =
      Safe-bind (for_response-Expands true abuf alen inside rr.aptr) λ x _.
        Safe-bind (Safe-index (length names) (ancount + 1) (omega arith)) λ _ _.
          Safe-bind (copy_string-Safe x.0 tt) λ name _.
            Safe-pure
              (omega (arith, length-concat names name), omega (arith, length-concat names name))

  ns_loop-Safe :
      (n p : ℕ) (names : List (List ℕ))
      → p ≤ alen
      → Room n p names
      → Safe IsHostError
          (λ ns. (length ns ≤ ancount) × (11 * length ns + 17 ≤ alen))
          (ns_loop abuf alen ancount n p names)
  unfolding ns_loop
  ns_loop-Safe zero p names i t = Safe-pure (omega arith)
  ns_loop-Safe (suc n) p names i t =
      Safe-bind
        (read_rr-Safe abuf alen inside tt (expand_name_for_response false) p
          (for_response-Expands false abuf alen inside))
        λ rr w.
          Safe-bind
            (Safe-if (rr.rr_class == c_in && rr.rr_type == t_ns)
              (λ _. ns_record-Safe n p rr names w t) (λ _. Safe-pure (omega arith)))
            λ names' u.
              Safe-guard (leb (rr.aptr + rr.rr_len) alen) ebadresp tt
                λ _. ns_loop-Safe n (rr.aptr + rr.rr_len) names' (omega arith) u

-- For an `alen` up to the size of the message's block, whatever the bytes of the message and the
-- answers of the allocator, `parse_ns_reply` ends with no access outside the message, its blocks
-- or the array of name servers. It fails with ARES_ENODATA, ARES_EBADRESP or ARES_ENOMEM, or
-- returns at least one name server, and the message has 17 bytes and eleven for each name server
-- at least.
pub parse_ns_reply-Safe :
    (abuf : List ℕ) (alen : ℕ)
    → alen ≤ length abuf
    → Safe IsHostError
        (λ host. (length host.h_aliases ≢ 0) × (11 * length host.h_aliases + 17 ≤ alen))
        (parse_ns_reply abuf alen)
unfolding parse_ns_reply
parse_ns_reply-Safe abuf alen inside = Safe-bind (read_header-Safe abuf alen inside tt) λ ancount _.
    Safe-bind
      (read_question-Safe abuf alen inside tt (expand_name_for_response false)
        (for_response-Expands false abuf alen inside))
      λ question q. Safe-bind (Safe-malloc ((ancount + 1) * 8) tt) λ _ _.
        Safe-bind (ns_loop-Safe abuf alen inside ancount ancount question.1 [] q.1 (omega arith))
          λ names w. Safe-guard (not (length names == 0)) enodata tt λ some_names.
            Safe-bind (Safe-index (length names) (ancount + 1) (omega arith)) λ _ _.
              Safe-bind (Safe-malloc_node tt)
                λ _ _. Safe-bind (Safe-malloc_node tt) λ _ _. Safe-pure (ground arith)
