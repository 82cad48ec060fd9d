-- ===== src/Reply/Txt.antt =====
-- src/lib/ares_parse_txt_reply.c.
use c_ares.Base.{
  ap, ℕ, zero, suc, ◌+◌, ◌≤◌, ◌≡◌, arith, Bool, not, ◌&&◌, ◌||◌, List, [], ◌∷◌, ◌++◌, length, leb,
  ltb, ◌==◌, if◌then◌else◌,
}
use c_ares.Result.{enodata, stuck, ebadresp}
use c_ares.Cmd.{Cmd, put, malloc, malloc_node, lift, pure, guard, ◌>>=◌, ◌>>◌}
use c_ares.Cmd.Put.{put-Ensures}
use c_ares.Cmd.Safe.{
  Safe, Safe-pure, Safe-lift, Safe-bind, Safe-mono, Safe-if, Safe-guard, Safe-malloc,
  Safe-malloc_node,
}
use c_ares.Wire.{peek, peek-Ensures}
use c_ares.Wire.Copy.{memcpy, memcpy-Ensures}
use c_ares.Expand.{expand_name}
use c_ares.Reply.{c_in, c_chaos, read_header, read_question, Rr, read_rr, each_answer}
use c_ares.Reply.Total.{
  IsReplyError, expand_name-Expands, read_header-Safe, read_question-Safe, read_rr-Safe,
  each_answer-Safe,
}

abbrev pub t_txt : ℕ
t_txt = 16

-- `struct ares_txt_ext`; `record_start` stays unset for `ares_parse_txt_reply`.
pub record TxtReply : Type 0 where
  pub txt : List ℕ
  pub record_start : Bool

-- `while (strptr < (aptr + rr_len))` over the substrings of a record: each takes a byte at least,
-- so `rr_len` rounds are enough.
unfoldable pub txt_loop : Bool → List ℕ → Rr → ℕ → ℕ → List TxtReply → Cmd (List TxtReply)
txt_loop ex abuf rr zero strptr replies =
    if ltb strptr (rr.aptr + rr.rr_len) then lift stuck else pure replies
txt_loop ex abuf rr (suc fuel) strptr replies =
    if ltb strptr (rr.aptr + rr.rr_len)
    then (do
      substr_len ← lift (peek abuf strptr)
      guard (leb (strptr + substr_len + 1) (rr.aptr + rr.rr_len)) ebadresp
      malloc_node
      s ← malloc (substr_len + 1)
      q ← lift (memcpy abuf (strptr + 1) substr_len s)
      _ ← lift (put 0 q)
      txt_loop ex abuf rr fuel (strptr + 1 + substr_len)
          (replies ++ record { txt = q.text; record_start = ex && strptr == rr.aptr } ∷ []))
    else pure replies

-- `ares__parse_txt_reply`: one answer, the position behind it, and the records so far
unfoldable pub txt_answer : Bool → List ℕ → ℕ → ℕ → List TxtReply → Cmd (ℕ × List TxtReply)
txt_answer ex abuf alen aptr replies = do
  rr ← read_rr expand_name abuf alen aptr
  replies' ←
      if (rr.rr_class == c_in || rr.rr_class == c_chaos) && rr.rr_type == t_txt
      then txt_loop ex abuf rr rr.rr_len rr.aptr replies
      else pure replies
  pure (rr.aptr + rr.rr_len, replies')

unfoldable pub parse_txt_reply : Bool → List ℕ → ℕ → Cmd (List TxtReply)
parse_txt_reply ex abuf alen = do
  ancount ← read_header abuf alen
  guard (not (ancount == 0)) enodata
  (hostname, aptr) ← read_question expand_name abuf alen
  each_answer ancount (txt_answer ex abuf alen) aptr []

-- the bytes of the message that the substrings take: one for the length, and the text
abbrev pub weight : List TxtReply → ℕ
weight [] = 0
weight (r ∷ rs) = 1 + length r.txt + weight rs

weight-concat :
    (rs : List TxtReply) (r : TxtReply) → weight (rs ++ r ∷ []) ≡ weight rs + 1 + length r.txt
weight-concat [] r = omega arith
weight-concat (x ∷ rs) r = omega (arith, weight-concat rs r)

module _ (abuf : List ℕ) (alen : ℕ) (inside : alen ≤ length abuf) where
  -- The records so far fit into what has been read of the message.
  abbrev Taken : ℕ → List TxtReply → Type 0
  Taken p replies = (weight replies + 17 ≤ p) × (p ≤ alen)

  txt_loop-Safe :
      (ex : Bool) (rr : Rr) (fuel strptr : ℕ) (replies : List TxtReply)
      → rr.aptr + rr.rr_len ≤ alen
      → strptr ≤ rr.aptr + rr.rr_len
      → rr.aptr + rr.rr_len ≤ strptr + fuel
      → weight replies + 17 ≤ strptr
      → Safe IsReplyError (Taken (rr.aptr + rr.rr_len)) (txt_loop ex abuf rr fuel strptr replies)
  unfolding txt_loop
  txt_loop-Safe ex rr zero strptr replies i s f t =
      Safe-if (ltb strptr (rr.aptr + rr.rr_len)) (λ more. absurd (ground arith))
        (λ _. Safe-pure (omega arith))
  txt_loop-Safe ex rr (suc fuel) strptr replies i s f t =
      Safe-if (ltb strptr (rr.aptr + rr.rr_len))
        (λ more. Safe-bind (Safe-lift (peek-Ensures abuf strptr (ground arith))) λ substr_len _.
          Safe-guard (leb (strptr + substr_len + 1) (rr.aptr + rr.rr_len)) ebadresp tt λ fits.
            Safe-bind (Safe-malloc_node tt) λ _ _.
              Safe-bind (Safe-malloc (substr_len + 1) tt) λ b fresh.
                Safe-bind
                  (Safe-lift
                    (memcpy-Ensures abuf (strptr + 1) substr_len b 1 (ground arith) fresh.0))
                  λ q u. Safe-bind (Safe-lift (put-Ensures 0 q 0 u.0)) λ _ _.
                    txt_loop-Safe ex rr fuel (strptr + 1 + substr_len) _ i (ground arith)
                      (omega arith)
                      (omega (
                        arith,
                        ap length fresh.1,
                        weight-concat replies
                            (record { txt = q.text; record_start = ex && strptr == rr.aptr }),
                      )))
        (λ _. Safe-pure (omega arith))

  txt_answer-Safe :
      (ex : Bool) (p : ℕ) (replies : List TxtReply)
      → Taken p replies
      → Safe IsReplyError (λ x. Taken x.0 x.1) (txt_answer ex abuf alen p replies)
  unfolding txt_answer
  txt_answer-Safe ex p replies t =
      Safe-bind
        (read_rr-Safe abuf alen inside tt expand_name p (expand_name-Expands abuf alen inside))
        λ rr w.
          Safe-bind
            (Safe-if ((rr.rr_class == c_in || rr.rr_class == c_chaos) && rr.rr_type == t_txt)
              (λ _.
                txt_loop-Safe ex rr rr.rr_len rr.aptr replies (omega arith) (omega arith)
                  (omega arith) (omega arith))
              (λ _. Safe-pure (omega arith)))
            λ replies' u. Safe-pure u

-- For an `alen` up to the size of the message's block, whatever the bytes of the message and the
-- answers of the allocator, `parse_txt_reply` ends with no access outside the message or its
-- blocks, for either kind of node. It fails with one of ARES_ENODATA, ARES_EBADNAME,
-- ARES_EBADRESP, ARES_ENOMEM and ARES_EBADSTR, or returns substrings that, with a length byte
-- each, take 17 bytes less than the message at most.
pub parse_txt_reply-Safe :
    (ex : Bool) (abuf : List ℕ) (alen : ℕ)
    → alen ≤ length abuf
    → Safe IsReplyError (λ replies. weight replies + 17 ≤ alen) (parse_txt_reply ex abuf alen)
unfolding parse_txt_reply
parse_txt_reply-Safe ex abuf alen inside =
    Safe-bind (read_header-Safe abuf alen inside tt) λ ancount _.
      Safe-guard (not (ancount == 0)) enodata tt λ _.
        Safe-bind
          (read_question-Safe abuf alen inside tt expand_name
            (expand_name-Expands abuf alen inside))
          λ question q.
            Safe-mono
              (each_answer-Safe (Taken abuf alen inside) ancount (txt_answer ex abuf alen)
                question.1 [] (txt_answer-Safe abuf alen inside ex) (omega arith))
              λ replies t. omega arith
