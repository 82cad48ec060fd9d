-- ===== src/Answer/Cut.antt =====
-- Queries that wait, and the removal of their OPT records by `process_answer`.
use c_ares.Base.{
  ◌<◌, ◌+◌, take, length-take, length-drop, length-set, ℕ, ◌-◌, ◌/◌, ◌%◌, ◌≤◌, ◌≡◌, refl, arith,
  true, false, Bool-cases, none, some, List, length, ◌∙◌, leb, ltb, ◌⊎◌, inl, inr,
}
use c_ares.Result.{ok}
use c_ares.Cmd.{lift, Allocs}
use c_ares.Cmd.Safe.{Safe, Safe-pure, Safe-bind, Safe-attempt, Safe-malloc_node}
use c_ares.Query.{ednsfixedsz}
use c_ares.Reply.{hfixedsz}
use c_ares.Answer.{same_questions}
use c_ares.Answer.Total.{Never, Any}
use c_ares.Answer.Process.{Flags, Waiting, qbuf_of, poke, poke_length, cut_edns}

-- a query that waits: its block holds the two bytes of the length and the query
pub record IsWaiting (q : Waiting) : Type 0 where
  pub buf : List ℕ
  pub allocated : q.tcpbuf ≡ some buf
  pub fits : q.tcplen ≤ length buf
  pub counts : q.tcplen ≡ q.qlen + 2

-- a query without its OPT record: the block is as long as the length says, if it could be shortened
pub record IsCut (q q' : Waiting) : Type 0 where
  pub shorter : q'.qlen + ednsfixedsz ≡ q.qlen
  pub shorter_block : q'.tcplen + ednsfixedsz ≡ q.tcplen
  pub transport : q'.using_tcp ≡ q.using_tcp
  pub waits : (q'.tcpbuf ≡ none) ⊎ IsWaiting q'

module _ (buf : List ℕ) (n i c : ℕ) (size : length buf ≡ n) (inside : i < n) where
  poke-Safe : Safe Never (λ b. length b ≡ n) (lift (poke buf i c))
  poke-Safe =
      let room : ltb i (length buf) ≡ true = ground (arith, size, inside) in
      rw room (Safe-pure (length-set buf i c ∙ size))

poke_length-Safe :
    (buf : List ℕ) (len : ℕ)
    → 14 ≤ length buf
    → Safe Never (λ b. length b ≡ length buf) (poke_length (some buf) len)
unfolding poke_length
poke_length-Safe buf len room =
    let n = length buf in
    Safe-bind (poke-Safe buf n 0 (len / 256 % 256) refl (omega arith)) λ buf1 e1.
      Safe-bind (poke-Safe buf1 n 1 (len % 256) e1 (omega arith)) λ buf2 e2.
        Safe-bind (poke-Safe buf2 n 12 0 e2 (omega arith))
          λ buf3 e3. poke-Safe buf3 n 13 0 e3 (omega arith)

pub cut_edns-Safe :
    (flags : Flags) (q : Waiting)
    → IsWaiting q
    → hfixedsz ≤ q.qlen
    → flags.edns ≡ true
    → Safe Never (λ r. (r.0 ≡ record flags { edns = false }) × IsCut q r.1) (cut_edns flags q)
unfolding cut_edns
cut_edns-Safe flags q w sized on =
    rw (on, w.allocated)
      (Safe-bind
        (poke_length-Safe w.buf (q.tcplen - 2 - ednsfixedsz) (omega (arith, w.fits, w.counts)))
        λ buf size.
          Safe-attempt {E = Any} (Safe-malloc_node tt)
            (λ _ _. Safe-pure (
              refl,
              record {
                shorter = omega arith;
                shorter_block = omega (arith, w.counts);
                transport = refl;
                waits = inr (record {
                  buf = take (q.tcplen - ednsfixedsz) buf;
                  allocated = refl;
                  fits = omega (
                    arith,
                    length-take (q.tcplen - ednsfixedsz) buf (omega (arith, w.fits, size)),
                  );
                  counts = omega (arith, w.counts);
                });
              },
            ))
            (λ s _. Safe-pure (
              refl,
              record {
                shorter = omega arith;
                shorter_block = omega (arith, w.counts);
                transport = refl;
                waits = inl refl;
              },
            )))

-- Questions are only compared in a query that has room for a header.
pub same_questions-header :
    (qbuf abuf : List ℕ) (qlen alen : ℕ) (h h' : Allocs)
    → same_questions qbuf qlen abuf alen h ≡ ok (true, h')
    → hfixedsz ≤ qlen
unfolding same_questions
same_questions-header qbuf abuf qlen alen h h' e = elim (Bool-cases (leb hfixedsz qlen)) [
  | inl t ↦ ground arith
  | inr f ↦ absurd (let n : ok (false, h) ≡ ok (true, h') = rw f at e in cc n)
]

pub IsWaiting-qbuf : (q : Waiting) → IsWaiting q → q.qlen ≤ length (qbuf_of q)
IsWaiting-qbuf q w = rw w.allocated (omega (arith, w.fits, w.counts, length-drop 2 w.buf))
