-- ===== src/Reply/Soa.antt =====
-- src/lib/ares_parse_soa_reply.c.
use c_ares.Base.{
  ℕ, zero, suc, ◌+◌, ◌*◌, ◌≤◌, arith, false, not, ◌&&◌, List, length, leb, ltb, ◌==◌, if◌then◌else◌,
}
use c_ares.Result.{success, ebadresp}
use c_ares.Cmd.{Cmd, malloc_node, lift, pure, raise, guard, ◌>>=◌, ◌>>◌}
use c_ares.Cmd.Safe.{
  Safe, Safe-pure, Safe-raise, Safe-lift, Safe-bind, Safe-mono, Safe-if, Safe-guard,
  Safe-malloc_node,
}
use c_ares.Wire.{read16, read32, read16-Ensures, read32-Ensures}
use c_ares.Expand.{expand_name_for_response}
use c_ares.Reply.{c_in, hfixedsz, qfixedsz, Expander, read_header, read_rr}
use c_ares.Reply.Total.{IsHostError, for_response-Expands, read_header-Safe, read_rr-Safe}

abbrev pub t_soa : ℕ
t_soa = 6

pub record SoaReply : Type 0 where
  pub nsname : List ℕ
  pub hostmaster : List ℕ
  pub serial : ℕ
  pub refresh : ℕ
  pub retry : ℕ
  pub expire : ℕ
  pub minttl : ℕ

abbrev expand : Expander
expand = expand_name_for_response false

-- the data of the SOA record at `aptr`
unfoldable pub soa_record : List ℕ → ℕ → ℕ → Cmd SoaReply
soa_record abuf alen aptr = do
  malloc_node
  (nsname, len1) ← expand abuf alen aptr
  (hostmaster, len2) ← expand abuf alen (aptr + len1)
  let p = aptr + len1 + len2
  guard (leb (p + 5 * 4) alen) ebadresp
  serial ← lift (read32 abuf p)
  refresh ← lift (read32 abuf (p + 4))
  retry ← lift (read32 abuf (p + 8))
  expire ← lift (read32 abuf (p + 12))
  minttl ← lift (read32 abuf (p + 16))
  pure (record {
    nsname = nsname;
    hostmaster = hostmaster;
    serial = serial;
    refresh = refresh;
    retry = retry;
    expire = expire;
    minttl = minttl;
  })

-- The loop returns at the first SOA record. Its last test leaves with the status of the name, which
-- is ARES_SUCCESS, and with no result.
unfoldable pub soa_loop : List ℕ → ℕ → ℕ → ℕ → Cmd SoaReply
soa_loop abuf alen zero aptr = raise ebadresp
soa_loop abuf alen (suc n) aptr = do
  rr ← read_rr expand abuf alen aptr
  if rr.rr_class == c_in && rr.rr_type == t_soa
      then soa_record abuf alen rr.aptr
      else if ltb alen (rr.aptr + rr.rr_len)
      then raise success
      else soa_loop abuf alen n (rr.aptr + rr.rr_len)

-- `qclass` is the type of the question.
unfoldable pub parse_soa_reply : List ℕ → ℕ → Cmd SoaReply
parse_soa_reply abuf alen = do
  ancount ← read_header abuf alen
  guard (not (ancount == 0)) ebadresp
  (qname, len) ← expand abuf alen hfixedsz
  guard (not (leb alen (len + hfixedsz + 1))) ebadresp
  qclass ← lift (read16 abuf (hfixedsz + len))
  guard (leb (hfixedsz + len + qfixedsz) alen) ebadresp
  guard (not (qclass == t_soa && ltb 1 ancount)) ebadresp
  soa_loop abuf alen ancount (hfixedsz + len + qfixedsz)

module _ (abuf : List ℕ) (alen : ℕ) (inside : alen ≤ length abuf) where
  soa_record-Safe : (p : ℕ) → Safe IsHostError (λ _. p + 22 ≤ alen) (soa_record abuf alen p)
  unfolding soa_record
  soa_record-Safe p = Safe-bind (Safe-malloc_node tt) λ _ _.
      Safe-bind (for_response-Expands false abuf alen inside p) λ a u.
        Safe-bind (for_response-Expands false abuf alen inside (p + a.1)) λ b v.
          Safe-guard (leb (p + a.1 + b.1 + 5 * 4) alen) ebadresp tt λ fits.
            let q = p + a.1 + b.1 in
            Safe-bind (Safe-lift (read32-Ensures abuf q (ground arith))) λ serial _.
              Safe-bind (Safe-lift (read32-Ensures abuf (q + 4) (ground arith))) λ refresh _.
                Safe-bind (Safe-lift (read32-Ensures abuf (q + 8) (ground arith))) λ retry _.
                  Safe-bind (Safe-lift (read32-Ensures abuf (q + 12) (ground arith))) λ expire _.
                    Safe-bind (Safe-lift (read32-Ensures abuf (q + 16) (ground arith)))
                      λ minttl _. Safe-pure (ground arith)

  soa_loop-Safe : (n p : ℕ) → 17 ≤ p → Safe IsHostError (λ _. 50 ≤ alen) (soa_loop abuf alen n p)
  unfolding soa_loop
  soa_loop-Safe zero p h = Safe-raise tt
  soa_loop-Safe (suc n) p h =
      Safe-bind
        (read_rr-Safe abuf alen inside tt expand p (for_response-Expands false abuf alen inside))
        λ rr w.
          Safe-if (rr.rr_class == c_in && rr.rr_type == t_soa)
            (λ _. Safe-mono (soa_record-Safe rr.aptr) λ s k. omega arith)
            (λ _.
              Safe-if (ltb alen (rr.aptr + rr.rr_len)) (λ out. absurd (ground arith))
                (λ _. soa_loop-Safe n (rr.aptr + rr.rr_len) (omega arith)))

-- For an `alen` up to the size of the message's block, whatever the bytes of the message and the
-- answers of the allocator, `parse_soa_reply` ends with no access outside the message or its
-- blocks. It fails with ARES_ENODATA, ARES_EBADRESP or ARES_ENOMEM, or returns a record, and then
-- the message has 50 bytes at least: it never leaves with ARES_SUCCESS and no record.
pub parse_soa_reply-Safe :
    (abuf : List ℕ) (alen : ℕ)
    → alen ≤ length abuf
    → Safe IsHostError (λ _. 50 ≤ alen) (parse_soa_reply abuf alen)
unfolding parse_soa_reply
parse_soa_reply-Safe abuf alen inside =
    Safe-bind (read_header-Safe abuf alen inside tt) λ ancount _.
      Safe-guard (not (ancount == 0)) ebadresp tt λ _.
        Safe-bind (for_response-Expands false abuf alen inside hfixedsz) λ a u.
          Safe-guard (not (leb alen (a.1 + hfixedsz + 1))) ebadresp tt λ more.
            Safe-bind (Safe-lift (read16-Ensures abuf (hfixedsz + a.1) (ground arith))) λ qclass _.
              Safe-guard (leb (hfixedsz + a.1 + qfixedsz) alen) ebadresp tt λ room.
                Safe-guard (not (qclass == t_soa && ltb 1 ancount)) ebadresp tt λ _.
                  soa_loop-Safe abuf alen inside ancount (hfixedsz + a.1 + qfixedsz) (omega arith)
