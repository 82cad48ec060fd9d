-- ===== src/Reply/Naptr.antt =====
-- src/lib/ares_parse_naptr_reply.c.
use c_ares.Base.{
  inl, inr, ◌⊎◌, ℕ, ◌+◌, ◌*◌, ◌≤◌, ◌≡◌, arith, not, ◌&&◌, List, [], ◌∷◌, ◌++◌, length,
  length-concat, leb, ◌==◌, if◌then◌else◌,
}
use c_ares.Result.{Status, enodata, ebadresp, ebadstr, enomem}
use c_ares.Cmd.{Cmd, malloc_node, lift, pure, guard, ◌>>=◌, ◌>>◌}
use c_ares.Cmd.Safe.{
  Safe, Safe-pure, Safe-lift, Safe-bind, Safe-mono, Safe-relax, Safe-if, Safe-guard,
  Safe-malloc_node,
}
use c_ares.Wire.{read16, read16-Ensures}
use c_ares.Expand.{expand_name, expand_string}
use c_ares.Expand.Total.{expand_string-Safe}
use c_ares.Reply.{c_in, read_header, read_question, Rr, read_rr, each_answer}
use c_ares.Reply.Total.{
  IsReplyError, expand_name-Expands, RrInside, read_header-Safe, read_question-Safe, read_rr-Safe,
  each_answer-Safe,
}

abbrev pub t_naptr : ℕ
t_naptr = 35

pub record NaptrReply : Type 0 where
  pub flags : List ℕ
  pub service : List ℕ
  pub regexp : List ℕ
  pub replacement : List ℕ
  pub order : ℕ
  pub preference : ℕ

-- the data of a NAPTR record, appended to the list
unfoldable pub naptr_record : List ℕ → ℕ → Rr → List NaptrReply → Cmd (List NaptrReply)
naptr_record abuf alen rr replies = do
  guard (leb 7 rr.rr_len) ebadresp
  malloc_node
  order ← lift (read16 abuf rr.aptr)
  preference ← lift (read16 abuf (rr.aptr + 2))
  (flags, len1) ← expand_string abuf alen (rr.aptr + 4)
  (service, len2) ← expand_string abuf alen (rr.aptr + 4 + len1)
  (regexp, len3) ← expand_string abuf alen (rr.aptr + 4 + len1 + len2)
  (replacement, _) ← expand_name abuf alen (rr.aptr + 4 + len1 + len2 + len3)
  pure (
      replies
      ++ record {
        flags = flags;
        service = service;
        regexp = regexp;
        replacement = replacement;
        order = order;
        preference = preference;
      }
        ∷ [])

-- one answer: the position behind it, and the records so far
unfoldable pub naptr_answer : List ℕ → ℕ → ℕ → List NaptrReply → Cmd (ℕ × List NaptrReply)
naptr_answer abuf alen aptr replies = do
  rr ← read_rr expand_name abuf alen aptr
  replies' ←
      if rr.rr_class == c_in && rr.rr_type == t_naptr
      then naptr_record abuf alen rr replies
      else pure replies
  pure (rr.aptr + rr.rr_len, replies')

unfoldable pub parse_naptr_reply : List ℕ → ℕ → Cmd (List NaptrReply)
parse_naptr_reply abuf alen = do
  ancount ← read_header abuf alen
  guard (not (ancount == 0)) enodata
  (hostname, aptr) ← read_question expand_name abuf alen
  each_answer ancount (naptr_answer abuf alen) aptr []

string_at :
    (abuf : List ℕ) (alen p : ℕ)
    → alen ≤ length abuf
    → p ≤ alen
    → Safe IsReplyError (λ x. p + x.1 ≤ alen) (expand_string abuf alen p)
string_at abuf alen p inside h =
    Safe-relax (Safe-mono (expand_string-Safe abuf alen p inside h) λ x w. w.0) λ s e. status e
  where
    status : {s : Status} → (s ≡ ebadstr) ⊎ (s ≡ enomem) → IsReplyError s
    status (inl e) = rw e tt
    status (inr e) = rw e tt

module _ (abuf : List ℕ) (alen : ℕ) (inside : alen ≤ length abuf) where
  -- Each record so far took 18 bytes of the message at least.
  abbrev Taken : ℕ → List NaptrReply → Type 0
  Taken p replies = (18 * length replies + 17 ≤ p) × (p ≤ alen)

  naptr_record-Safe :
      (p : ℕ) (rr : Rr) (replies : List NaptrReply)
      → RrInside alen p rr
      → Taken p replies
      → Safe IsReplyError (Taken (rr.aptr + rr.rr_len)) (naptr_record abuf alen rr replies)
  unfolding naptr_record
  naptr_record-Safe p rr replies w t = Safe-guard (leb 7 rr.rr_len) ebadresp tt λ long.
      Safe-bind (Safe-malloc_node tt) λ _ _.
        Safe-bind (Safe-lift (read16-Ensures abuf rr.aptr (ground arith))) λ order _.
          Safe-bind (Safe-lift (read16-Ensures abuf (rr.aptr + 2) (ground arith))) λ preference _.
            Safe-bind (string_at abuf alen (rr.aptr + 4) inside (ground arith)) λ flags l1.
              Safe-bind (string_at abuf alen (rr.aptr + 4 + flags.1) inside l1) λ service l2.
                Safe-bind (string_at abuf alen (rr.aptr + 4 + flags.1 + service.1) inside l2)
                  λ regexp l3.
                    Safe-bind
                      (expand_name-Expands abuf alen inside
                        (rr.aptr + 4 + flags.1 + service.1 + regexp.1))
                      λ replacement _. Safe-pure (
                        ground (
                          arith,
                          length-concat replies (record {
                            flags = flags.0;
                            service = service.0;
                            regexp = regexp.0;
                            replacement = replacement.0;
                            order = order;
                            preference = preference;
                          }),
                        ))

  naptr_answer-Safe :
      (p : ℕ) (replies : List NaptrReply)
      → Taken p replies
      → Safe IsReplyError (λ x. Taken x.0 x.1) (naptr_answer abuf alen p replies)
  unfolding naptr_answer
  naptr_answer-Safe p replies t =
      Safe-bind
        (read_rr-Safe abuf alen inside tt expand_name p (expand_name-Expands abuf alen inside))
        λ rr w.
          Safe-bind
            (Safe-if (rr.rr_class == c_in && rr.rr_type == t_naptr)
              (λ _. naptr_record-Safe p rr replies w t) (λ _. Safe-pure (omega arith)))
            λ replies' u. Safe-pure u

-- For an `alen` up to the size of the message's block, whatever the bytes of the message and the
-- answers of the allocator, `parse_naptr_reply` ends with no access outside the message or its
-- blocks. It fails with one of ARES_ENODATA, ARES_EBADNAME, ARES_EBADRESP, ARES_ENOMEM and
-- ARES_EBADSTR, or returns records, and the message has 17 bytes and 18 for each record at least.
pub parse_naptr_reply-Safe :
    (abuf : List ℕ) (alen : ℕ)
    → alen ≤ length abuf
    → Safe IsReplyError (λ replies. 18 * length replies + 17 ≤ alen) (parse_naptr_reply abuf alen)
unfolding parse_naptr_reply
parse_naptr_reply-Safe abuf alen inside =
    Safe-bind (read_header-Safe abuf alen inside tt) λ ancount _.
      Safe-guard (not (ancount == 0)) enodata tt λ _.
        Safe-bind
          (read_question-Safe abuf alen inside tt expand_name
            (expand_name-Expands abuf alen inside))
          λ question q.
            Safe-mono
              (each_answer-Safe (Taken abuf alen inside) ancount (naptr_answer abuf alen) question.1
                [] (naptr_answer-Safe abuf alen inside) (omega arith))
              λ replies t. omega arith
