-- ===== src/Reply.antt =====
-- What the functions src/lib/ares_parse_*_reply.c have in common: the header, the question, the
-- fixed part of a resource record, and the loop over the answers. `abuf + alen` ends the message.
pub mod Total
pub mod Bytes
pub mod Parsers
pub mod Mx
pub mod Srv
pub mod Naptr
pub mod Uri
pub mod Caa
pub mod Txt
pub mod Soa
pub mod Host
pub mod Ns
pub mod Ptr
use c_ares.Base.{ℕ, zero, suc, ◌+◌, Bool, List, leb, ◌==◌, if◌then◌else◌}
use c_ares.Result.{ebadresp}
use c_ares.Cmd.{Cmd, lift, pure, guard, ◌>>=◌, ◌>>◌}
use c_ares.Wire.{read16}

-- HFIXEDSZ, QFIXEDSZ and RRFIXEDSZ of include/ares_nameser.h
abbrev pub hfixedsz : ℕ
hfixedsz = 12

abbrev pub qfixedsz : ℕ
qfixedsz = 4

abbrev pub rrfixedsz : ℕ
rrfixedsz = 10

-- C_IN, C_CHAOS and the record types of include/ares_nameser.h
abbrev pub c_in : ℕ
c_in = 1

abbrev pub c_chaos : ℕ
c_chaos = 3

-- `ares_expand_name`, or one of its variants, on the message and a position
abbrev pub Expander : Type 0
Expander = List ℕ → ℕ → ℕ → Cmd (List ℕ × ℕ)

-- The message has a header and one question; the result is the number of answers.
unfoldable pub read_header : List ℕ → ℕ → Cmd ℕ
read_header abuf alen = do
  guard (leb hfixedsz alen) ebadresp
  qdcount ← lift (read16 abuf 4)
  ancount ← lift (read16 abuf 6)
  guard (qdcount == 1) ebadresp
  pure ancount

-- the name of the question, and the position behind the question
unfoldable pub read_question : Expander → List ℕ → ℕ → Cmd (List ℕ × ℕ)
read_question expand abuf alen = do
  (name, len) ← expand abuf alen hfixedsz
  guard (leb (hfixedsz + len + qfixedsz) alen) ebadresp
  pure (name, hfixedsz + len + qfixedsz)

-- a resource record up to its data, which starts at `aptr`
pub record Rr : Type 0 where
  pub rr_name : List ℕ
  pub rr_type : ℕ
  pub rr_class : ℕ
  pub rr_len : ℕ
  pub aptr : ℕ

unfoldable pub read_rr : Expander → List ℕ → ℕ → ℕ → Cmd Rr
read_rr expand abuf alen aptr = do
  (rr_name, len) ← expand abuf alen aptr
  guard (leb (aptr + len + rrfixedsz) alen) ebadresp
  rr_type ← lift (read16 abuf (aptr + len))
  rr_class ← lift (read16 abuf (aptr + len + 2))
  rr_len ← lift (read16 abuf (aptr + len + 8))
  guard (leb (aptr + len + rrfixedsz + rr_len) alen) ebadresp
  pure (record {
    rr_name = rr_name;
    rr_type = rr_type;
    rr_class = rr_class;
    rr_len = rr_len;
    aptr = aptr + len + rrfixedsz;
  })

-- `for (i = 0; i < ancount; i++)`, with the position and what has been collected
unfoldable pub each_answer : {S : Type 0} → ℕ → (ℕ → S → Cmd (ℕ × S)) → ℕ → S → Cmd S
each_answer zero step aptr s = pure s
each_answer (suc n) step aptr s = do (aptr', s') ← step aptr s; each_answer n step aptr' s'
