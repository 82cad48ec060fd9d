-- ===== src/Reply/Srv.antt =====
-- src/lib/ares_parse_srv_reply.c.
pub mod Parses
use c_ares.Base.{
  ℕ, ◌+◌, ◌*◌, ◌≤◌, arith, not, ◌&&◌, List, [], ◌∷◌, ◌++◌, length, length-concat, leb, ◌==◌,
  if◌then◌else◌,
}
use c_ares.Result.{enodata, ebadresp}
use c_ares.Cmd.{Cmd, malloc_node, lift, pure, guard, ◌>>=◌, ◌>>◌}
use c_ares.Cmd.Safe.{
  Safe, Safe-pure, Safe-lift, Safe-bind, Safe-mono, Safe-if, Safe-guard, Safe-malloc_node,
}
use c_ares.Wire.{read16, read16-Ensures}
use c_ares.Expand.{expand_name}
use c_ares.Reply.{c_in, read_header, read_question, Rr, read_rr, each_answer}
use c_ares.Reply.Total.{
  IsReplyError, expand_name-Expands, RrInside, read_header-Safe, read_question-Safe, read_rr-Safe,
  each_answer-Safe,
}

abbrev pub t_srv : ℕ
t_srv = 33

pub record SrvReply : Type 0 where
  pub host : List ℕ
  pub priority : ℕ
  pub weight : ℕ
  pub port : ℕ

-- the data of an SRV record, appended to the list
unfoldable pub srv_record : List ℕ → ℕ → Rr → List SrvReply → Cmd (List SrvReply)
srv_record abuf alen rr replies = do
  guard (leb 6 rr.rr_len) ebadresp
  malloc_node
  priority ← lift (read16 abuf rr.aptr)
  weight ← lift (read16 abuf (rr.aptr + 2))
  port ← lift (read16 abuf (rr.aptr + 4))
  (host, _) ← expand_name abuf alen (rr.aptr + 6)
  pure (replies ++ record { host = host; priority = priority; weight = weight; port = port } ∷ [])

-- one answer: the position behind it, and the records so far
unfoldable pub srv_answer : List ℕ → ℕ → ℕ → List SrvReply → Cmd (ℕ × List SrvReply)
srv_answer abuf alen aptr replies = do
  rr ← read_rr expand_name abuf alen aptr
  replies' ←
      if rr.rr_class == c_in && rr.rr_type == t_srv
      then srv_record abuf alen rr replies
      else pure replies
  pure (rr.aptr + rr.rr_len, replies')

unfoldable pub parse_srv_reply : List ℕ → ℕ → Cmd (List SrvReply)
parse_srv_reply abuf alen = do
  ancount ← read_header abuf alen
  guard (not (ancount == 0)) enodata
  (hostname, aptr) ← read_question expand_name abuf alen
  each_answer ancount (srv_answer abuf alen) aptr []

module _ (abuf : List ℕ) (alen : ℕ) (inside : alen ≤ length abuf) where
  -- Each record so far took 17 bytes of the message at least.
  abbrev Taken : ℕ → List SrvReply → Type 0
  Taken p replies = (17 * length replies + 17 ≤ p) × (p ≤ alen)

  srv_record-Safe :
      (p : ℕ) (rr : Rr) (replies : List SrvReply)
      → RrInside alen p rr
      → Taken p replies
      → Safe IsReplyError (Taken (rr.aptr + rr.rr_len)) (srv_record abuf alen rr replies)
  unfolding srv_record
  srv_record-Safe p rr replies w t = Safe-guard (leb 6 rr.rr_len) ebadresp tt λ long.
      Safe-bind (Safe-malloc_node tt) λ _ _.
        Safe-bind (Safe-lift (read16-Ensures abuf rr.aptr (ground arith))) λ priority _.
          Safe-bind (Safe-lift (read16-Ensures abuf (rr.aptr + 2) (ground arith))) λ weight _.
            Safe-bind (Safe-lift (read16-Ensures abuf (rr.aptr + 4) (ground arith))) λ port _.
              Safe-bind (expand_name-Expands abuf alen inside (rr.aptr + 6)) λ host _. Safe-pure (
                ground (
                  arith,
                  length-concat replies
                      (record { host = host.0; priority = priority; weight = weight; port = port }),
                ))

  srv_answer-Safe :
      (p : ℕ) (replies : List SrvReply)
      → Taken p replies
      → Safe IsReplyError (λ x. Taken x.0 x.1) (srv_answer abuf alen p replies)
  unfolding srv_answer
  srv_answer-Safe p replies t =
      Safe-bind
        (read_rr-Safe abuf alen inside tt expand_name p (expand_name-Expands abuf alen inside))
        λ rr w.
          Safe-bind
            (Safe-if (rr.rr_class == c_in && rr.rr_type == t_srv)
              (λ _. srv_record-Safe p rr replies w t) (λ _. Safe-pure (omega arith)))
            λ replies' u. Safe-pure u

-- For an `alen` up to the size of the message's block, whatever the bytes of the message and the
-- answers of the allocator, `parse_srv_reply` ends with no access outside the message or its
-- blocks. It fails with one of ARES_ENODATA, ARES_EBADNAME, ARES_EBADRESP, ARES_ENOMEM and
-- ARES_EBADSTR, or returns records, and the message has 17 bytes and 17 for each record at least.
pub parse_srv_reply-Safe :
    (abuf : List ℕ) (alen : ℕ)
    → alen ≤ length abuf
    → Safe IsReplyError (λ replies. 17 * length replies + 17 ≤ alen) (parse_srv_reply abuf alen)
unfolding parse_srv_reply
parse_srv_reply-Safe abuf alen inside =
    Safe-bind (read_header-Safe abuf alen inside tt) λ ancount _.
      Safe-guard (not (ancount == 0)) enodata tt λ _.
        Safe-bind
          (read_question-Safe abuf alen inside tt expand_name
            (expand_name-Expands abuf alen inside))
          λ question q.
            Safe-mono
              (each_answer-Safe (Taken abuf alen inside) ancount (srv_answer abuf alen) question.1
                [] (srv_answer-Safe abuf alen inside) (omega arith))
              λ replies t. omega arith
