-- ===== src/Reply/Uri.antt =====
-- src/lib/ares_parse_uri_reply.c.
use c_ares.Base.{
  ℕ, ◌+◌, ◌-◌, ◌*◌, ◌≤◌, arith, not, ◌&&◌, List, [], ◌∷◌, ◌++◌, length, length-concat, leb, ◌==◌,
  if◌then◌else◌,
}
use c_ares.Result.{enodata, ebadresp}
use c_ares.Cmd.{Cmd, put, malloc, malloc_node, lift, pure, guard, ◌>>=◌, ◌>>◌}
use c_ares.Cmd.Put.{put-Ensures}
use c_ares.Cmd.Safe.{
  Safe, Safe-pure, Safe-lift, Safe-bind, Safe-mono, Safe-if, Safe-guard, Safe-malloc,
  Safe-malloc_node,
}
use c_ares.Wire.{read16, read32, read16-Ensures, read32-Ensures}
use c_ares.Wire.Copy.{strncpy, strncpy-Ensures}
use c_ares.Expand.{expand_name}
use c_ares.Reply.{c_in, read_header, read_question, Rr, read_rr, each_answer}
use c_ares.Reply.Total.{
  IsReplyError, expand_name-Expands, RrInside, read_header-Safe, read_question-Safe, read_rr-Safe,
  each_answer-Safe,
}

abbrev pub t_uri : ℕ
t_uri = 256

-- The C code keeps the TTL in an `int`, whose bit pattern it is here.
pub record UriReply : Type 0 where
  pub priority : ℕ
  pub weight : ℕ
  pub uri : List ℕ
  pub ttl : ℕ

-- the data of a URI record, appended to the list
unfoldable pub uri_record : List ℕ → ℕ → Rr → ℕ → List UriReply → Cmd (List UriReply)
uri_record abuf alen rr rr_ttl replies = do
  guard (leb 5 rr.rr_len) ebadresp
  malloc_node
  priority ← lift (read16 abuf rr.aptr)
  weight ← lift (read16 abuf (rr.aptr + 2))
  s ← malloc (rr.rr_len - 3)
  q ← lift (strncpy abuf (rr.aptr + 4) (rr.rr_len - 4) s)
  _ ← lift (put 0 q)
  pure (replies ++ record { priority = priority; weight = weight; uri = q.text; ttl = rr_ttl } ∷ [])

-- one answer: the position behind it, and the records so far. `DNS_RR_TTL` stands six bytes before
-- the data; it is read here once the length of the data has been tested.
unfoldable pub uri_answer : List ℕ → ℕ → ℕ → List UriReply → Cmd (ℕ × List UriReply)
uri_answer abuf alen aptr replies = do
  rr ← read_rr expand_name abuf alen aptr
  rr_ttl ← lift (read32 abuf (rr.aptr - 6))
  replies' ←
      if rr.rr_class == c_in && rr.rr_type == t_uri
      then uri_record abuf alen rr rr_ttl replies
      else pure replies
  pure (rr.aptr + rr.rr_len, replies')

unfoldable pub parse_uri_reply : List ℕ → ℕ → Cmd (List UriReply)
parse_uri_reply abuf alen = do
  ancount ← read_header abuf alen
  guard (not (ancount == 0)) enodata
  (hostname, aptr) ← read_question expand_name abuf alen
  each_answer ancount (uri_answer abuf alen) aptr []

module _ (abuf : List ℕ) (alen : ℕ) (inside : alen ≤ length abuf) where
  -- Each record so far took 16 bytes of the message at least.
  abbrev Taken : ℕ → List UriReply → Type 0
  Taken p replies = (16 * length replies + 17 ≤ p) × (p ≤ alen)

  uri_record-Safe :
      (p : ℕ) (rr : Rr) (rr_ttl : ℕ) (replies : List UriReply)
      → RrInside alen p rr
      → Taken p replies
      → Safe IsReplyError (Taken (rr.aptr + rr.rr_len)) (uri_record abuf alen rr rr_ttl replies)
  unfolding uri_record
  uri_record-Safe p rr rr_ttl replies w t = Safe-guard (leb 5 rr.rr_len) ebadresp tt λ long.
      Safe-bind (Safe-malloc_node tt) λ _ _.
        Safe-bind (Safe-lift (read16-Ensures abuf rr.aptr (ground arith))) λ priority _.
          Safe-bind (Safe-lift (read16-Ensures abuf (rr.aptr + 2) (ground arith))) λ weight _.
            Safe-bind (Safe-malloc (rr.rr_len - 3) tt) λ s fresh.
              Safe-bind
                (Safe-lift (
                  strncpy-Ensures abuf (rr.aptr + 4) (rr.rr_len - 4) s 1 (ground arith)
                    (ground arith)))
                λ q left. Safe-bind (Safe-lift (put-Ensures 0 q 0 left.0)) λ _ _. Safe-pure (
                  ground (
                    arith,
                    length-concat replies (record {
                      priority = priority;
                      weight = weight;
                      uri = q.text;
                      ttl = rr_ttl;
                    }),
                  ))

  uri_answer-Safe :
      (p : ℕ) (replies : List UriReply)
      → Taken p replies
      → Safe IsReplyError (λ x. Taken x.0 x.1) (uri_answer abuf alen p replies)
  unfolding uri_answer
  uri_answer-Safe p replies t =
      Safe-bind
        (read_rr-Safe abuf alen inside tt expand_name p (expand_name-Expands abuf alen inside))
        λ rr w. Safe-bind (Safe-lift (read32-Ensures abuf (rr.aptr - 6) (omega arith))) λ rr_ttl _.
          Safe-bind
            (Safe-if (rr.rr_class == c_in && rr.rr_type == t_uri)
              (λ _. uri_record-Safe p rr rr_ttl replies w t) (λ _. Safe-pure (omega arith)))
            λ replies' u. Safe-pure u

-- For an `alen` up to the size of the message's block, whatever the bytes of the message and the
-- answers of the allocator, `parse_uri_reply` ends with no access outside the message or its
-- blocks. It fails with one of ARES_ENODATA, ARES_EBADNAME, ARES_EBADRESP, ARES_ENOMEM and
-- ARES_EBADSTR, or returns records, and the message has 17 bytes and 16 for each record at least.
pub parse_uri_reply-Safe :
    (abuf : List ℕ) (alen : ℕ)
    → alen ≤ length abuf
    → Safe IsReplyError (λ replies. 16 * length replies + 17 ≤ alen) (parse_uri_reply abuf alen)
unfolding parse_uri_reply
parse_uri_reply-Safe abuf alen inside =
    Safe-bind (read_header-Safe abuf alen inside tt) λ ancount _.
      Safe-guard (not (ancount == 0)) enodata tt λ _.
        Safe-bind
          (read_question-Safe abuf alen inside tt expand_name
            (expand_name-Expands abuf alen inside))
          λ question q.
            Safe-mono
              (each_answer-Safe (Taken abuf alen inside) ancount (uri_answer abuf alen) question.1
                [] (uri_answer-Safe abuf alen inside) (omega arith))
              λ replies t. omega arith
