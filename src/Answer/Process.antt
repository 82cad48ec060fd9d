-- ===== src/Answer/Process.antt =====
-- `process_answer` of src/lib/ares_process.c, up to the calls of `ares__send_query`, `next_server` and
-- `end_query`.
use c_ares.Base.{
  ℕ, ◌-◌, ◌/◌, ◌%◌, Bool, true, not, ◌&&◌, ◌||◌, Option, none, some, List, [], length, set, take,
  drop, leb, ltb, ◌==◌, if◌then◌else◌,
}
use c_ares.Result.{Status, Result, ok, eservfail, enotimp, erefused, fault}
use c_ares.Cmd.{Cmd, lift, pure, attempt, malloc_node, ◌>>=◌}
use c_ares.Wire.{peek, read16}
use c_ares.Query.{ednsfixedsz}
use c_ares.Reply.{hfixedsz}
use c_ares.Answer.{same_questions, has_opt_rr}

-- the flags of a channel that matter here, and `ednspsz`
pub record Flags : Type 0 where
  pub edns : Bool
  pub igntc : Bool
  pub nocheckresp : Bool
  pub ednspsz : ℕ

-- A query that waits, as far as an answer changes it: `qbuf` is `tcpbuf + 2`, none for NULL.
pub record Waiting : Type 0 where
  pub tcpbuf : Option (List ℕ)
  pub tcplen : ℕ
  pub qlen : ℕ
  pub using_tcp : Bool

-- What becomes of an answer: nothing; the query is sent again, shortened and with the channel's
-- flags changed, or on TCP; the server is
-- given up with an error; or the answer ends the query, with its first bytes.
pub data Verdict : Type 0 where
  dropped : Verdict
  without_edns : Flags → Waiting → Verdict
  over_tcp : Waiting → Verdict
  bad_server : Status → Verdict
  answered : ℕ → Verdict

-- FORMERR, SERVFAIL, NOTIMP and REFUSED, and PACKETSZ, of include/ares_nameser.h
abbrev pub formerr : ℕ
formerr = 1

abbrev pub servfail : ℕ
servfail = 2

abbrev pub notimp : ℕ
notimp = 4

abbrev pub refused : ℕ
refused = 5

abbrev pub packetsz : ℕ
packetsz = 512

abbrev pub qbuf_of : Waiting → List ℕ
qbuf_of q = elim q.tcpbuf [ none ↦ [] | some buf ↦ drop 2 buf ]

-- `buf[i] = c`
abbrev pub poke : List ℕ → ℕ → ℕ → Result (List ℕ)
poke buf i c = if ltb i (length buf) then ok (set buf i c) else fault

-- the length in front of the query, and ARCOUNT behind two bytes and ten of the header
unfoldable pub poke_length : Option (List ℕ) → ℕ → Cmd (List ℕ)
poke_length none len = lift fault
poke_length (some buf) len = do
  buf1 ← lift (poke buf 0 (len / 256 % 256))
  buf2 ← lift (poke buf1 1 (len % 256))
  buf3 ← lift (poke buf2 12 0)
  lift (poke buf3 13 0)

-- EDNS is switched over, and the OPT record cut off the query. The answer of `ares_realloc` is not
-- tested.
unfoldable pub cut_edns : Flags → Waiting → Cmd (Flags × Waiting)
cut_edns flags q = do
  let len = q.tcplen - 2 - ednsfixedsz
  let flags' = record flags { edns = not flags.edns }
  let shortened = record q { tcplen = q.tcplen - ednsfixedsz; qlen = q.qlen - ednsfixedsz }
  buf ← poke_length q.tcpbuf len
  attempt malloc_node
      (λ _. pure (flags', record shortened { tcpbuf = some (take (q.tcplen - ednsfixedsz) buf) }))
      (λ s. pure (flags', record shortened { tcpbuf = none }))

-- the switch on the response code; `n` bytes are passed on otherwise
unfoldable pub check_rcode : Flags → ℕ → ℕ → Verdict
check_rcode flags rcode n =
    if not flags.nocheckresp && rcode == servfail
    then bad_server eservfail
    else if not flags.nocheckresp && rcode == notimp
    then bad_server enotimp
    else if not flags.nocheckresp && rcode == refused
    then bad_server erefused
    else answered n

-- the tests behind those on EDNS
unfoldable pub check_answer : Flags → Waiting → ℕ → Bool → ℕ → ℕ → ℕ → Verdict
unfolding check_rcode
check_answer flags q size tcp tc rcode alen =
    if (tc == 1 || ltb size alen) && not tcp && not flags.igntc
    then if q.using_tcp then dropped else over_tcp (record q { using_tcp = true })
    else check_rcode flags rcode (if ltb size alen && not tcp then size else alen)

-- what follows once the questions are the same
unfoldable pub judge : Flags → Waiting → ℕ → ℕ → List ℕ → ℕ → Bool → Cmd Verdict
judge flags q tc rcode abuf alen tcp =
    let check = λ (size : ℕ). check_answer flags q size tcp tc rcode alen in
    if flags.edns
    then if rcode == formerr
      then (do
        opt ← has_opt_rr abuf alen
        elim opt [
          | some true ↦ pure (check flags.ednspsz)
          | _ ↦ do (flags', q') ← cut_edns flags q; pure (without_edns flags' q')
        ])
      else pure (check flags.ednspsz)
    else pure (check packetsz)

-- `process_answer`; `find` is the table of the queries by their identifiers.
unfoldable pub process_answer : Flags → (ℕ → Option Waiting) → List ℕ → ℕ → Bool → Cmd Verdict
process_answer flags find abuf alen tcp =
    if leb hfixedsz alen
    then (do
      id ← lift (read16 abuf 0)
      b ← lift (peek abuf 2)
      c ← lift (peek abuf 3)
      elim (find id) [
        | none ↦ pure dropped
        | some q ↦ do
          same ← same_questions (qbuf_of q) q.qlen abuf alen
          if same then judge flags q (b / 2 % 2) (c % 16) abuf alen tcp else pure dropped
      ])
    else pure dropped
