-- ===== src/Answer.antt =====
-- src/lib/ares_process.c: what is done with an answer (`same_questions`, `has_opt_rr` and
-- `process_answer`). In the first two, every error is one early return.
pub mod Total
pub mod Echo
pub mod Process
pub mod Cut
pub mod Judged
use c_ares.Base.{
  ℕ, zero, suc, ◌+◌, ◌-◌, ◌/◌, ◌%◌, Bool, true, false, not, ◌&&◌, ◌||◌, Option, none, some, List,
  [], set, take, drop, leb, ltb, ◌==◌, if◌then◌else◌,
}
use c_ares.Result.{Status, ebadresp, eservfail, enotimp, erefused, fault}
use c_ares.Cmd.{Cmd, lift, pure, guard, attempt, malloc_node, ◌>>=◌, ◌>>◌}
use c_ares.Wire.{peek, read16}
use c_ares.Wire.Copy.{c_string}
use c_ares.Text.{same_text}
use c_ares.Expand.{expand_name}
use c_ares.Query.{t_opt, ednsfixedsz}
use c_ares.Reply.{hfixedsz, qfixedsz, rrfixedsz}

pub record Question : Type 0 where
  pub name : List ℕ
  pub type : ℕ
  pub dnsclass : ℕ

-- the decoding of one question of a message, and the position behind it
unfoldable pub decode_question : List ℕ → ℕ → ℕ → Cmd (Question × ℕ)
decode_question buf len p = do
  (name, namelen) ← expand_name buf len p
  guard (leb (p + namelen + qfixedsz) len) ebadresp
  type ← lift (read16 buf (p + namelen))
  dnsclass ← lift (read16 buf (p + namelen + 2))
  pure (record { name = name; type = type; dnsclass = dnsclass }, p + namelen + qfixedsz)

-- `strcasecmp` reads a name as far as its first NUL: a label of one NUL is expanded unescaped.
unfoldable pub same_question : Question → Question → Bool
same_question q a =
    same_text (c_string q.name) (c_string a.name) && q.type == a.type && q.dnsclass == a.dnsclass

-- the inner loop, over the questions of the answer that are left
unfoldable pub find_question : ℕ → List ℕ → ℕ → ℕ → Question → Cmd Bool
find_question zero abuf alen p q = pure false
find_question (suc n) abuf alen p q = do
  (a, next) ← decode_question abuf alen p
  if same_question q a then pure true else find_question n abuf alen next q

-- the outer loop, over the questions of the query that are left, `qdcount` in the answer
unfoldable pub find_questions : ℕ → ℕ → List ℕ → ℕ → ℕ → List ℕ → ℕ → Cmd Bool
find_questions zero qdcount qbuf qlen p abuf alen = pure true
find_questions (suc n) qdcount qbuf qlen p abuf alen = do
  (q, next) ← decode_question qbuf qlen p
  found ← find_question qdcount abuf alen hfixedsz q
  guard found ebadresp
  find_questions n qdcount qbuf qlen next abuf alen

compare_questions : List ℕ → ℕ → List ℕ → ℕ → Cmd Bool
compare_questions qbuf qlen abuf alen = do
  guard (leb hfixedsz qlen && leb hfixedsz alen) ebadresp
  qcount ← lift (read16 qbuf 4)
  acount ← lift (read16 abuf 4)
  guard (qcount == acount) ebadresp
  find_questions qcount acount qbuf qlen hfixedsz abuf alen

-- 1 or 0
unfoldable pub same_questions : List ℕ → ℕ → List ℕ → ℕ → Cmd Bool
unfolding compare_questions
same_questions qbuf qlen abuf alen =
    attempt (compare_questions qbuf qlen abuf alen) pure (λ s. pure false)

-- the questions, and the answer and authority records; the result is the position behind them
skip_questions : ℕ → List ℕ → ℕ → ℕ → Cmd ℕ
skip_questions zero abuf alen p = pure p
skip_questions (suc n) abuf alen p = do
  (name, len) ← expand_name abuf alen p
  guard (leb (p + len + qfixedsz) alen) ebadresp
  skip_questions n abuf alen (p + len + qfixedsz)

skip_rrs : ℕ → List ℕ → ℕ → ℕ → Cmd ℕ
skip_rrs zero abuf alen p = pure p
skip_rrs (suc n) abuf alen p = do
  (name, len) ← expand_name abuf alen p
  guard (leb (p + len + rrfixedsz) alen) ebadresp
  dlen ← lift (read16 abuf (p + len + 8))
  guard (leb (p + len + rrfixedsz + dlen) alen) ebadresp
  skip_rrs n abuf alen (p + len + rrfixedsz + dlen)

find_opt_rr : ℕ → List ℕ → ℕ → ℕ → Cmd Bool
find_opt_rr zero abuf alen p = pure false
find_opt_rr (suc n) abuf alen p = do
  (name, len) ← expand_name abuf alen p
  guard (leb (p + len + rrfixedsz) alen) ebadresp
  type ← lift (read16 abuf (p + len))
  if type == t_opt then pure true else (do
    dlen ← lift (read16 abuf (p + len + 8))
    guard (leb (p + len + rrfixedsz + dlen) alen) ebadresp
    find_opt_rr n abuf alen (p + len + rrfixedsz + dlen))

search_opt_rr : List ℕ → ℕ → Cmd Bool
search_opt_rr abuf alen = do
  guard (leb hfixedsz alen) ebadresp
  qdcount ← lift (read16 abuf 4)
  ancount ← lift (read16 abuf 6)
  nscount ← lift (read16 abuf 8)
  arcount ← lift (read16 abuf 10)
  p ← skip_questions qdcount abuf alen hfixedsz
  p' ← skip_rrs (ancount + nscount) abuf alen p
  find_opt_rr arcount abuf alen p'

-- 1 or 0, and none for -1
unfoldable pub has_opt_rr : List ℕ → ℕ → Cmd (Option Bool)
unfolding skip_questions skip_rrs find_opt_rr search_opt_rr
has_opt_rr abuf alen = attempt (search_opt_rr abuf alen) (λ b. pure (some b)) (λ s. pure none)
