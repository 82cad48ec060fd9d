-- ===== src/Answer/Total.antt =====
-- The checks of an answer are memory safe and total, whatever the answer and the allocator are.
use c_ares.Base.{ℕ, zero, suc, ◌+◌, ◌≤◌, arith, ◌&&◌, List, length, leb, ◌==◌}
use c_ares.Result.{Status, ebadresp}
use c_ares.Cmd.Safe.{
  Safe, Safe-pure, Safe-lift, Safe-bind, Safe-guard, Safe-relax, Safe-if, Safe-attempt,
}
use c_ares.Wire.{read16-Ensures}
use c_ares.Expand.{expand_name}
use c_ares.Expand.Total.{IsEncoded, expand_name-Safe}
use c_ares.Query.{t_opt}
use c_ares.Reply.{hfixedsz, qfixedsz, rrfixedsz}
use c_ares.Answer.{
  Question, decode_question, same_question, find_question, find_questions, same_questions,
  skip_questions, skip_rrs, find_opt_rr, has_opt_rr,
}

abbrev pub Any : Status → Type 0
Any s = Unit

abbrev pub Never : Status → Type 0
Never s = ⊥

module _ (buf : List ℕ) (len : ℕ) (inside : len ≤ length buf) where
  expand-Any : (p : ℕ) → Safe Any (IsEncoded len p) (expand_name buf len p)
  expand-Any p = Safe-relax (expand_name-Safe buf len p inside) λ s e. tt

  decode_question-Safe : (p : ℕ) → Safe Any (λ x. x.1 ≤ len) (decode_question buf len p)
  unfolding decode_question
  decode_question-Safe p = Safe-bind (expand-Any p) λ x w.
      Safe-guard (leb (p + x.1 + qfixedsz) len) ebadresp tt λ room.
        Safe-bind (Safe-lift (read16-Ensures buf (p + x.1) (ground arith))) λ type _.
          Safe-bind (Safe-lift (read16-Ensures buf (p + x.1 + 2) (ground arith)))
            λ dnsclass _. Safe-pure (ground arith)

  find_question-Safe :
      (n p : ℕ) (q : Question) → Safe Any (λ _. Unit {0}) (find_question n buf len p q)
  unfolding find_question
  find_question-Safe zero p q = Safe-pure tt
  find_question-Safe (suc n) p q =
      Safe-bind (decode_question-Safe p)
        λ x w. Safe-if (same_question q x.0) (λ _. Safe-pure tt) (λ _. find_question-Safe n x.1 q)

  skip_questions-Safe : (n p : ℕ) → Safe Any (λ _. Unit {0}) (skip_questions n buf len p)
  unfolding skip_questions
  skip_questions-Safe zero p = Safe-pure tt
  skip_questions-Safe (suc n) p = Safe-bind (expand-Any p) λ x w.
      Safe-guard (leb (p + x.1 + qfixedsz) len) ebadresp tt
        λ room. skip_questions-Safe n (p + x.1 + qfixedsz)

  skip_rrs-Safe : (n p : ℕ) → Safe Any (λ _. Unit {0}) (skip_rrs n buf len p)
  unfolding skip_rrs
  skip_rrs-Safe zero p = Safe-pure tt
  skip_rrs-Safe (suc n) p = Safe-bind (expand-Any p) λ x w.
      Safe-guard (leb (p + x.1 + rrfixedsz) len) ebadresp tt λ room.
        Safe-bind (Safe-lift (read16-Ensures buf (p + x.1 + 8) (ground arith))) λ dlen _.
          Safe-guard (leb (p + x.1 + rrfixedsz + dlen) len) ebadresp tt
            λ fits. skip_rrs-Safe n (p + x.1 + rrfixedsz + dlen)

  find_opt_rr-Safe : (n p : ℕ) → Safe Any (λ _. Unit {0}) (find_opt_rr n buf len p)
  unfolding find_opt_rr
  find_opt_rr-Safe zero p = Safe-pure tt
  find_opt_rr-Safe (suc n) p = Safe-bind (expand-Any p) λ x w.
      Safe-guard (leb (p + x.1 + rrfixedsz) len) ebadresp tt λ room.
        Safe-bind (Safe-lift (read16-Ensures buf (p + x.1) (ground arith))) λ type _.
          Safe-if (type == t_opt) (λ _. Safe-pure tt)
            (λ _. Safe-bind (Safe-lift (read16-Ensures buf (p + x.1 + 8) (ground arith))) λ dlen _.
              Safe-guard (leb (p + x.1 + rrfixedsz + dlen) len) ebadresp tt
                λ fits. find_opt_rr-Safe n (p + x.1 + rrfixedsz + dlen))

  pub has_opt_rr-Safe : Safe Never (λ _. Unit {0}) (has_opt_rr buf len)
  unfolding has_opt_rr
  has_opt_rr-Safe =
      Safe-attempt
        (Safe-guard (leb hfixedsz len) ebadresp tt λ room.
          Safe-bind (Safe-lift (read16-Ensures buf 4 (ground arith))) λ qdcount _.
            Safe-bind (Safe-lift (read16-Ensures buf 6 (ground arith))) λ ancount _.
              Safe-bind (Safe-lift (read16-Ensures buf 8 (ground arith))) λ nscount _.
                Safe-bind (Safe-lift (read16-Ensures buf 10 (ground arith))) λ arcount _.
                  Safe-bind (skip_questions-Safe qdcount hfixedsz) λ p _.
                    Safe-bind (skip_rrs-Safe (ancount + nscount) p)
                      λ p' _. find_opt_rr-Safe arcount p')
        (λ b _. Safe-pure tt) (λ s _. Safe-pure tt)

module _ (qbuf abuf : List ℕ) (qlen alen : ℕ) (q_inside : qlen ≤ length qbuf)
    (a_inside : alen ≤ length abuf) where
  find_questions-Safe :
      (n qdcount p : ℕ) → Safe Any (λ _. Unit {0}) (find_questions n qdcount qbuf qlen p abuf alen)
  unfolding find_questions
  find_questions-Safe zero qdcount p = Safe-pure tt
  find_questions-Safe (suc n) qdcount p =
      Safe-bind (decode_question-Safe qbuf qlen q_inside p) λ x w.
        Safe-bind (find_question-Safe abuf alen a_inside qdcount hfixedsz x.0)
          λ found _. Safe-guard found ebadresp tt λ _. find_questions-Safe n qdcount x.1

  pub same_questions-Safe : Safe Never (λ _. Unit {0}) (same_questions qbuf qlen abuf alen)
  unfolding same_questions
  same_questions-Safe =
      Safe-attempt
        (Safe-guard (leb hfixedsz qlen && leb hfixedsz alen) ebadresp tt λ room.
          Safe-bind (Safe-lift (read16-Ensures qbuf 4 (ground arith))) λ qcount _.
            Safe-bind (Safe-lift (read16-Ensures abuf 4 (ground arith))) λ acount _.
              Safe-guard (qcount == acount) ebadresp tt
                λ same. find_questions-Safe qcount acount hfixedsz)
        (λ b _. Safe-pure tt) (λ s _. Safe-pure tt)
