-- ===== src/Reply/Caa.antt =====
-- src/lib/ares_parse_caa_reply.c.
use c_ares.Base.{
  ap, ℕ, ◌+◌, ◌-◌, ◌≤◌, ◌<◌, ◌≡◌, arith, not, ◌&&◌, ◌||◌, List, [], ◌∷◌, ◌++◌, length, leb, ltb,
  ◌==◌, if◌then◌else◌,
}
use c_ares.Result.{enodata, ebadresp}
use c_ares.Cmd.{Cmd, Buffer, put, malloc, malloc_node, lift, pure, guard, ◌>>=◌, ◌>>◌}
use c_ares.Cmd.Put.{put-Ensures}
use c_ares.Cmd.Safe.{
  Safe, Safe-pure, Safe-lift, Safe-bind, Safe-mono, Safe-if, Safe-guard, Safe-malloc,
  Safe-malloc_node,
}
use c_ares.Wire.{peek, peek-Ensures}
use c_ares.Wire.Copy.{memcpy, memcpy-Ensures}
use c_ares.Expand.{expand_name}
use c_ares.Reply.{c_in, c_chaos, read_header, read_question, Rr, read_rr, each_answer}
use c_ares.Reply.Total.{
  IsReplyError, expand_name-Expands, RrInside, read_header-Safe, read_question-Safe, read_rr-Safe,
  each_answer-Safe,
}

abbrev pub t_caa : ℕ
t_caa = 257

pub record CaaReply : Type 0 where
  pub critical : ℕ
  pub property : List ℕ
  pub value : List ℕ

-- the data of a CAA record, appended to the list
unfoldable pub caa_record : List ℕ → ℕ → Rr → List CaaReply → Cmd (List CaaReply)
caa_record abuf alen rr replies = do
  malloc_node
  guard (leb 2 rr.rr_len) ebadresp
  critical ← lift (peek abuf rr.aptr)
  plength ← lift (peek abuf (rr.aptr + 1))
  guard (ltb 0 plength && ltb plength (rr.rr_len - 2)) ebadresp
  s ← malloc (plength + 1)
  property ← lift (memcpy abuf (rr.aptr + 2) plength s)
  _ ← lift (put 0 property)
  guard (ltb 0 (rr.rr_len - plength - 2)) ebadresp
  t ← malloc (rr.rr_len - plength - 2 + 1)
  value ← lift (memcpy abuf (rr.aptr + 2 + plength) (rr.rr_len - plength - 2) t)
  _ ← lift (put 0 value)
  pure
      (replies ++ record { critical = critical; property = property.text; value = value.text } ∷ [])

-- one answer: the position behind it, and the records so far
unfoldable pub caa_answer : List ℕ → ℕ → ℕ → List CaaReply → Cmd (ℕ × List CaaReply)
caa_answer abuf alen aptr replies = do
  rr ← read_rr expand_name abuf alen aptr
  replies' ←
      if (rr.rr_class == c_in || rr.rr_class == c_chaos) && rr.rr_type == t_caa
      then caa_record abuf alen rr replies
      else pure replies
  pure (rr.aptr + rr.rr_len, replies')

unfoldable pub parse_caa_reply : List ℕ → ℕ → Cmd (List CaaReply)
parse_caa_reply abuf alen = do
  ancount ← read_header abuf alen
  guard (not (ancount == 0)) enodata
  (hostname, aptr) ← read_question expand_name abuf alen
  each_answer ancount (caa_answer abuf alen) aptr []

-- the bytes of the message that the records take at least: eleven before the data, and the data
abbrev pub weight : List CaaReply → ℕ
weight [] = 0
weight (r ∷ rs) = 13 + length r.property + length r.value + weight rs

weight-concat :
    (rs : List CaaReply) (r : CaaReply)
    → weight (rs ++ r ∷ []) ≡ weight rs + 13 + length r.property + length r.value
weight-concat [] r = omega arith
weight-concat (x ∷ rs) r = omega (arith, weight-concat rs r)

module _ (abuf : List ℕ) (alen : ℕ) (inside : alen ≤ length abuf) where
  -- The records so far fit into what has been read of the message.
  abbrev Taken : ℕ → List CaaReply → Type 0
  Taken p replies = (weight replies + 17 ≤ p) × (p ≤ alen)

  caa_value :
      (p : ℕ) (rr : Rr) (replies : List CaaReply) (critical plength : ℕ) (property : Buffer)
      → RrInside alen p rr
      → Taken p replies
      → plength + 2 < rr.rr_len
      → length property.text ≡ plength
      → Safe IsReplyError (Taken (rr.aptr + rr.rr_len)) (
          malloc (rr.rr_len - plength - 2 + 1) >>= λ t.
          lift (memcpy abuf (rr.aptr + 2 + plength) (rr.rr_len - plength - 2) t) >>= λ value.
          lift (put 0 value) >>= λ _. pure (
            replies
            ++ record { critical = critical; property = property.text; value = value.text } ∷ []))
  caa_value p rr replies critical plength property w t fits size =
      Safe-bind (Safe-malloc (rr.rr_len - plength - 2 + 1) tt) λ b fresh.
        Safe-bind
          (Safe-lift (
            memcpy-Ensures abuf (rr.aptr + 2 + plength) (rr.rr_len - plength - 2) b 1 (omega arith)
              fresh.0))
          λ value v. Safe-bind (Safe-lift (put-Ensures 0 value 0 v.0)) λ _ _. Safe-pure (
            omega (
              arith,
              ap length fresh.1,
              weight-concat replies
                  (record { critical = critical; property = property.text; value = value.text }),
            ),
            omega arith,
          )

  caa_record-Safe :
      (p : ℕ) (rr : Rr) (replies : List CaaReply)
      → RrInside alen p rr
      → Taken p replies
      → Safe IsReplyError (Taken (rr.aptr + rr.rr_len)) (caa_record abuf alen rr replies)
  unfolding caa_record
  caa_record-Safe p rr replies w t = Safe-bind (Safe-malloc_node tt) λ _ _.
      Safe-guard (leb 2 rr.rr_len) ebadresp tt λ long.
        Safe-bind (Safe-lift (peek-Ensures abuf rr.aptr (ground arith))) λ critical _.
          Safe-bind (Safe-lift (peek-Ensures abuf (rr.aptr + 1) (ground arith))) λ plength _.
            Safe-guard (ltb 0 plength && ltb plength (rr.rr_len - 2)) ebadresp tt λ fits.
              Safe-bind (Safe-malloc (plength + 1) tt) λ s fresh.
                Safe-bind
                  (Safe-lift (memcpy-Ensures abuf (rr.aptr + 2) plength s 1 (ground arith) fresh.0))
                  λ property u. Safe-bind (Safe-lift (put-Ensures 0 property 0 u.0)) λ _ _.
                    Safe-guard (ltb 0 (rr.rr_len - plength - 2)) ebadresp tt λ _.
                      caa_value p rr replies critical plength property w t (ground arith)
                        (ground (arith, ap length fresh.1))

  caa_answer-Safe :
      (p : ℕ) (replies : List CaaReply)
      → Taken p replies
      → Safe IsReplyError (λ x. Taken x.0 x.1) (caa_answer abuf alen p replies)
  unfolding caa_answer
  caa_answer-Safe p replies t =
      Safe-bind
        (read_rr-Safe abuf alen inside tt expand_name p (expand_name-Expands abuf alen inside))
        λ rr w.
          Safe-bind
            (Safe-if ((rr.rr_class == c_in || rr.rr_class == c_chaos) && rr.rr_type == t_caa)
              (λ _. caa_record-Safe p rr replies w t) (λ _. Safe-pure (omega arith)))
            λ replies' u. Safe-pure u

-- For an `alen` up to the size of the message's block, whatever the bytes of the message and the
-- answers of the allocator, `parse_caa_reply` ends with no access outside the message or its
-- blocks. It fails with one of ARES_ENODATA, ARES_EBADNAME, ARES_EBADRESP, ARES_ENOMEM and
-- ARES_EBADSTR, or returns records whose properties and values, with 13 bytes for each record,
-- take 17 bytes less than the message at most.
pub parse_caa_reply-Safe :
    (abuf : List ℕ) (alen : ℕ)
    → alen ≤ length abuf
    → Safe IsReplyError (λ replies. weight replies + 17 ≤ alen) (parse_caa_reply abuf alen)
unfolding parse_caa_reply
parse_caa_reply-Safe abuf alen inside =
    Safe-bind (read_header-Safe abuf alen inside tt) λ ancount _.
      Safe-guard (not (ancount == 0)) enodata tt λ _.
        Safe-bind
          (read_question-Safe abuf alen inside tt expand_name
            (expand_name-Expands abuf alen inside))
          λ question q.
            Safe-mono
              (each_answer-Safe (Taken abuf alen inside) ancount (caa_answer abuf alen) question.1
                [] (caa_answer-Safe abuf alen inside) (omega arith))
              λ replies t. omega arith
