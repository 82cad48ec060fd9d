-- ===== src/Answer/Judged.antt =====
-- What an answer must be for each verdict on it.
use c_ares.Base.{
  ℕ, ◌/◌, ◌%◌, ◌≤◌, ◌≡◌, ◌≢◌, refl, Bool, true, false, Option, some, List, ◌⊎◌, if◌then◌else◌,
}
use c_ares.Result.{Status, Result, ok, eservfail, enotimp, erefused}
use c_ares.Result.Ensures.{Ensures, returns, fails}
use c_ares.Cmd.{Allocs, Cmd}
use c_ares.Cmd.Safe.{Safe}
use c_ares.Wire.{peek, read16}
use c_ares.Answer.{same_questions}
use c_ares.Answer.Cut.{IsCut}
use c_ares.Answer.Process.{
  Flags, Waiting, Verdict, dropped, without_edns, over_tcp, bad_server, answered, formerr, servfail,
  notimp, refused, packetsz, qbuf_of,
}

-- the size above which an answer over UDP counts as truncated
abbrev pub limit : Flags → ℕ
limit flags = if flags.edns then flags.ednspsz else packetsz

-- what a verdict says of an answer to the query `q`
abbrev pub Judges : Flags → Waiting → ℕ → ℕ → ℕ → Bool → Verdict → Type 0
Judges flags q tc rcode alen tcp dropped = Unit
Judges flags q tc rcode alen tcp (without_edns flags' q') =
    (flags.edns ≡ true) × (rcode ≡ formerr) × (flags' ≡ record flags { edns = false }) × IsCut q q'
Judges flags q tc rcode alen tcp (over_tcp q') =
    (tcp ≡ false) × (flags.igntc ≡ false) × (q.using_tcp ≡ false) × (q'.using_tcp ≡ true)
Judges flags q tc rcode alen tcp (bad_server s) =
    (flags.nocheckresp ≡ false)
    × (((rcode ≡ servfail) × (s ≡ eservfail))
        ⊎ ((rcode ≡ notimp) × (s ≡ enotimp))
        ⊎ ((rcode ≡ refused) × (s ≡ erefused)))
Judges flags q tc rcode alen tcp (answered n) =
    (n ≤ alen)
    × (tcp ≡ true → n ≡ alen)
    × (tcp ≡ false → n ≤ limit flags)
    × (tcp ≡ false → flags.igntc ≡ false → (tc ≢ 1) × (n ≡ alen))
    × (flags.nocheckresp ≡ false → (rcode ≢ servfail) × (rcode ≢ notimp) × (rcode ≢ refused))

-- The clauses on the length of an answer that is passed on.
abbrev Passed : Flags → ℕ → ℕ → Bool → ℕ → Type 0
Passed flags tc alen tcp n =
    (n ≤ alen)
    × (tcp ≡ true → n ≡ alen)
    × (tcp ≡ false → n ≤ limit flags)
    × (tcp ≡ false → flags.igntc ≡ false → (tc ≢ 1) × (n ≡ alen))

-- what a part returns is what it returned
pub Ensures-itself :
    {A : Type 0} {E : Status → Type 0} {P : A → Type 0} {r : Result A}
    → Ensures E P r
    → Ensures E (λ a. r ≡ ok a) r
Ensures-itself (returns p) = returns refl
Ensures-itself (fails e) = fails e

module _ (flags : Flags) (abuf : List ℕ) (alen : ℕ) (tcp : Bool) where
  -- The answer belongs to a query that waits: the identifier is that of the query, and
  -- `same_questions` returns 1.
  pub record Answers (find : ℕ → Option Waiting) (q : Waiting) : Type 0 where
    pub id : ℕ
    pub read_id : read16 abuf 0 ≡ ok id
    pub found : find id ≡ some q
    pub before : Allocs
    pub after : Allocs
    pub same : same_questions (qbuf_of q) q.qlen abuf alen before ≡ ok (true, after)

  -- A verdict other than to drop an answer is about a query to which it belongs, and is right.
  abbrev pub IsJudged : (ℕ → Option Waiting) → Verdict → Type 0
  IsJudged find dropped = Unit
  IsJudged find v =
      (q : Waiting) × Answers find q
      × (b c : ℕ) × (peek abuf 2 ≡ ok b)
      × (peek abuf 3 ≡ ok c)
      × Judges flags q (b / 2 % 2) (c % 16) alen tcp v
