-- ===== src/Reply/Total.antt =====
-- The common parts of the parsers are memory safe, and move forward inside the message.
use c_ares.Base.{ℕ, zero, suc, ◌+◌, ◌≤◌, ◌≡◌, arith, Bool, List, length, leb, ◌==◌, ◌⊎◌, inl, inr}
use c_ares.Result.{Status, enodata, ebadname, ebadresp, enomem, ebadstr}
use c_ares.Cmd.{Cmd}
use c_ares.Cmd.Safe.{Safe, Safe-pure, Safe-lift, Safe-bind, Safe-guard, Safe-relax}
use c_ares.Wire.{read16-Ensures}
use c_ares.Expand.{expand_name, expand_name_for_response}
use c_ares.Expand.Total.{IsEncoded, expand_name-Safe, expand_name_for_response-Safe}
use c_ares.Reply.{
  hfixedsz, qfixedsz, rrfixedsz, Expander, read_header, read_question, Rr, read_rr, each_answer,
}

-- the statuses with which a parser of replies fails
abbrev pub IsReplyError : Status → Type 0
IsReplyError enodata = Unit
IsReplyError ebadname = Unit
IsReplyError ebadresp = Unit
IsReplyError enomem = Unit
IsReplyError ebadstr = Unit
IsReplyError _ = ⊥

-- those of the parsers that turn ARES_EBADNAME into ARES_EBADRESP
abbrev pub IsHostError : Status → Type 0
IsHostError enodata = Unit
IsHostError ebadresp = Unit
IsHostError enomem = Unit
IsHostError _ = ⊥

abbrev pub Expands : (Status → Type 0) → List ℕ → ℕ → Expander → Type 0
Expands E abuf alen expand = (p : ℕ) → Safe E (IsEncoded alen p) (expand abuf alen p)

pub expand_name-Expands :
    (abuf : List ℕ) (alen : ℕ) → alen ≤ length abuf → Expands IsReplyError abuf alen expand_name
expand_name-Expands abuf alen inside p =
    Safe-relax (expand_name-Safe abuf alen p inside) λ s e. status e
  where
    status : {s : Status} → (s ≡ ebadname) ⊎ (s ≡ enomem) → IsReplyError s
    status (inl e) = rw e tt
    status (inr e) = rw e tt

pub for_response-Expands :
    (hostname : Bool) (abuf : List ℕ) (alen : ℕ)
    → alen ≤ length abuf
    → Expands IsHostError abuf alen (expand_name_for_response hostname)
for_response-Expands hostname abuf alen inside p =
    Safe-relax (expand_name_for_response-Safe hostname abuf alen p inside) λ s e. status e
  where
    status : {s : Status} → (s ≡ ebadresp) ⊎ (s ≡ enomem) → IsHostError s
    status (inl e) = rw e tt
    status (inr e) = rw e tt

-- The data of a record that starts at `p` lie in the message, behind at least eleven bytes.
abbrev pub RrInside : ℕ → ℕ → Rr → Type 0
RrInside alen p rr = (p + 11 ≤ rr.aptr) × (rr.aptr + rr.rr_len ≤ alen)

module _ {E : Status → Type 0} (abuf : List ℕ) (alen : ℕ) (inside : alen ≤ length abuf)
    (bad : E ebadresp) where
  pub read_header-Safe : Safe E (λ _. hfixedsz ≤ alen) (read_header abuf alen)
  unfolding read_header
  read_header-Safe = Safe-guard (leb hfixedsz alen) ebadresp bad λ room.
      Safe-bind (Safe-lift (read16-Ensures abuf 4 (ground arith))) λ qdcount _.
        Safe-bind (Safe-lift (read16-Ensures abuf 6 (ground arith)))
          λ ancount _. Safe-guard (qdcount == 1) ebadresp bad λ _. Safe-pure (ground arith)

  pub read_question-Safe :
      (expand : Expander)
      → Expands E abuf alen expand
      → Safe E (λ x. (17 ≤ x.1) × (x.1 ≤ alen)) (read_question expand abuf alen)
  unfolding read_question
  read_question-Safe expand safe = Safe-bind (safe hfixedsz) λ x w.
      Safe-guard (leb (hfixedsz + x.1 + qfixedsz) alen) ebadresp bad
        λ room. Safe-pure (ground arith)

  pub read_rr-Safe :
      (expand : Expander) (p : ℕ)
      → Expands E abuf alen expand
      → Safe E (RrInside alen p) (read_rr expand abuf alen p)
  unfolding read_rr
  read_rr-Safe expand p safe = Safe-bind (safe p) λ x w.
      Safe-guard (leb (p + x.1 + rrfixedsz) alen) ebadresp bad λ room.
        Safe-bind (Safe-lift (read16-Ensures abuf (p + x.1) (ground arith))) λ rr_type _.
          Safe-bind (Safe-lift (read16-Ensures abuf (p + x.1 + 2) (ground arith))) λ rr_class _.
            Safe-bind (Safe-lift (read16-Ensures abuf (p + x.1 + 8) (ground arith))) λ rr_len _.
              Safe-guard (leb (p + x.1 + rrfixedsz + rr_len) alen) ebadresp bad
                λ fits. Safe-pure (ground arith)

module _ {E : Status → Type 0} {S : Type 0} (Inv : ℕ → S → Type 0) where
  -- The invariant rule of the loop over the answers; what it keeps holds at the last position.
  pub each_answer-Safe :
      (n : ℕ) (step : ℕ → S → Cmd (ℕ × S)) (p : ℕ) (s : S)
      → ((p : ℕ) (s : S) → Inv p s → Safe E (λ x. Inv x.0 x.1) (step p s))
      → Inv p s
      → Safe E (λ t. (p : ℕ) × Inv p t) (each_answer n step p s)
  unfolding each_answer
  each_answer-Safe zero step p s keep i = Safe-pure (p, i)
  each_answer-Safe (suc n) step p s keep i =
      Safe-bind (keep p s i) λ x w. each_answer-Safe n step x.0 x.1 keep w
