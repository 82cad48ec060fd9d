-- ===== src/Reply/Bytes.antt =====
-- The bytes of a well-formed reply, and what the shared part of the parsers reads of them.
use mathlib.Core.Path.{subst}
use mathlib.Core.List.{append_assoc, append-nil}
use c_ares.Base.{
  ℕ, ◌+◌, ◌-◌, Bool, ◌*◌, ◌/◌, ◌%◌, ◌≤◌, ◌<◌, ◌≡◌, refl, sym, ◌∙◌, ap, arith, true, List, [], ◌∷◌,
  ◌++◌, length, map, All, leb,
}
use c_ares.Result.{ok}
use c_ares.Cmd.{Cmd}
use c_ares.Wire.{read16, read32}
use c_ares.Wire.At.{At, At-peek, At-next, At-append, At-length, At-start}
use c_ares.Query.Plain.{IsPlainLabel, dotted, encoded}
use c_ares.Name.Plain.{IsAllowed}
use c_ares.Expand.{expand_name, expand_name_for_response}
use c_ares.Create.RoundTrip.{expand_name-plain, expand_name_validated-plain}
use c_ares.Reply.{Expander, read_header, read_question, read_rr, each_answer}

-- two bytes of a number, and those behind them
abbrev pub two_bytes : ℕ → List ℕ → List ℕ
two_bytes v rest = v / 256 % 256 ∷ v % 256 ∷ rest

-- the labels of a name and the root label
abbrev pub name_bytes : List (List ℕ) → List ℕ → List ℕ
name_bytes ls rest = encoded ls ++ (0 ∷ rest)

-- a resource record of class IN, up to its data
pub record Heading : Type 0 where
  pub owner : List (List ℕ)
  pub ttl : ℕ × ℕ × ℕ × ℕ

abbrev pub ttl_value : Heading → ℕ
ttl_value h = h.ttl.0 * 16777216 + h.ttl.1 * 65536 + h.ttl.2 * 256 + h.ttl.3

abbrev pub record_bytes : Heading → ℕ → ℕ → List ℕ → List ℕ
record_bytes h type len rest =
    name_bytes h.owner
      (two_bytes type (0 ∷ 1 ∷ h.ttl.0 ∷ h.ttl.1 ∷ h.ttl.2 ∷ h.ttl.3 ∷ two_bytes len rest))

-- where the data of a record at `p` starts
abbrev pub data_start : ℕ → Heading → ℕ
data_start p h = p + (length (encoded h.owner) + 1) + 10

-- A reply to one question: the identifier, the flags, the number of answers, the counts of the two
-- other sections, the question, and the bytes of the answers.
pub record Reply : Type 0 where
  pub id : ℕ × ℕ
  pub flags : ℕ × ℕ
  pub other : ℕ × ℕ × ℕ × ℕ
  pub labels : List (List ℕ)
  pub type : ℕ
  pub dnsclass : ℕ

abbrev pub reply_message : Reply → ℕ → List ℕ → List ℕ
reply_message r count answers =
    r.id.0
    ∷ r.id.1
    ∷ r.flags.0
    ∷ r.flags.1
    ∷ 0
    ∷ 1
    ∷ two_bytes count (
        r.other.0
        ∷ r.other.1
        ∷ r.other.2
        ∷ r.other.3
        ∷ name_bytes r.labels (two_bytes r.type (two_bytes r.dnsclass answers)))

pub At-move : {abuf : List ℕ} {p q : ℕ} {rest : List ℕ} → p ≡ q → At abuf p rest → At abuf q rest
At-move {abuf} {rest = rest} e at = subst (λ r. At abuf r rest) e at

two_bytes_value : (v : ℕ) → v < 65536 → v / 256 % 256 * 256 + v % 256 ≡ v
two_bytes_value v h = omega arith

module _ {abuf : List ℕ} where
  read16-At :
      {p a b : ℕ} {rest : List ℕ} → At abuf p (a ∷ b ∷ rest) → read16 abuf p ≡ ok (a * 256 + b)
  unfolding read16
  read16-At at = rw (At-peek at, At-peek (At-next at)) refl

  pub read16-two_bytes :
      {p v : ℕ} {rest : List ℕ} → v < 65536 → At abuf p (two_bytes v rest) → read16 abuf p ≡ ok v
  read16-two_bytes {p} {v} h at = read16-At at ∙ ap ok (two_bytes_value v h)

  -- the position behind two bytes, and behind a name
  pub At-two : {p a b : ℕ} {rest : List ℕ} → At abuf p (a ∷ b ∷ rest) → At abuf (p + 2) rest
  At-two at = At-move (omega arith) (At-next (At-next at))

  pub At-name :
      {p : ℕ} (ls : List (List ℕ)) {rest : List ℕ}
      → At abuf p (name_bytes ls rest)
      → At abuf (p + (length (encoded ls) + 1)) rest
  At-name ls at = At-move (omega arith) (At-next (At-append (encoded ls) at))

  pub expand_name-At :
      {p : ℕ} (ls : List (List ℕ)) (rest : List ℕ)
      → At abuf p (name_bytes ls rest)
      → All IsPlainLabel ls
      → expand_name abuf (length abuf) p [] ≡ ok ((dotted ls, length (encoded ls) + 1), [])
  expand_name-At ls rest at plain =
      rw (at.splits, ← at.position) (expand_name-plain ls at.before rest plain)

  pub for_response-At :
      {p : ℕ} (hostname : Bool) (ls : List (List ℕ)) (rest : List ℕ)
      → At abuf p (name_bytes ls rest)
      → All IsPlainLabel ls
      → IsAllowed hostname ls
      → expand_name_for_response hostname abuf (length abuf) p []
        ≡ ok ((dotted ls, length (encoded ls) + 1), [])
  unfolding expand_name_for_response
  for_response-At hostname ls rest at plain allowed =
      rw
        (
          at.splits,
          ← at.position,
          expand_name_validated-plain hostname ls at.before rest plain allowed,
        )
        refl

  module _ {p : ℕ} (h : Heading) (type len : ℕ) (rest : List ℕ)
      (at : At abuf p (record_bytes h type len rest)) where
    pub data-At : At abuf (data_start p h) rest
    data-At =
        At-move (omega arith) (At-two (At-two (At-two (At-two (At-two (At-name h.owner at))))))

    pub read_rr_by :
        (expand : Expander)
        → expand abuf (length abuf) p [] ≡ ok ((dotted h.owner, length (encoded h.owner) + 1), [])
        → type < 65536
        → len < 65536
        → len ≤ length rest
        → read_rr expand abuf (length abuf) p []
          ≡ ok (
            record {
              rr_name = dotted h.owner;
              rr_type = type;
              rr_class = 1;
              rr_len = len;
              aptr = data_start p h;
            },
            [],
          )
    unfolding read_rr
    read_rr_by expand owner small short fits =
        let start = At-name h.owner at in
        let len-At : At abuf (p + (length (encoded h.owner) + 1) + 8) (two_bytes len rest) =
          At-move (omega arith) (At-two (At-two (At-two (At-two start)))) in
        let room1 : leb (data_start p h) (length abuf) ≡ true = ground (arith, At-length data-At) in
        let room2 : leb (data_start p h + len) (length abuf) ≡ true =
          ground (arith, At-length data-At) in
        rw
          (
            owner,
            room1,
            read16-two_bytes small start,
            read16-At (At-two start),
            read16-two_bytes short len-At,
            room2,
          )
          refl

    pub read_rr-At :
        All IsPlainLabel h.owner
        → type < 65536
        → len < 65536
        → len ≤ length rest
        → read_rr expand_name abuf (length abuf) p []
          ≡ ok (
            record {
              rr_name = dotted h.owner;
              rr_type = type;
              rr_class = 1;
              rr_len = len;
              aptr = data_start p h;
            },
            [],
          )
    read_rr-At plain = read_rr_by expand_name (expand_name-At h.owner _ at plain)

    -- the TTL stands six bytes before the data
    pub read_ttl-At : read32 abuf (data_start p h - 6) ≡ ok (ttl_value h)
    unfolding read32
    read_ttl-At =
        let q : ℕ = data_start p h - 6 in
        let ttl : At abuf q (h.ttl.0 ∷ h.ttl.1 ∷ h.ttl.2 ∷ h.ttl.3 ∷ two_bytes len rest) =
          At-move (omega arith) (At-two (At-two (At-name h.owner at))) in
        let third : At abuf (q + 2) (h.ttl.2 ∷ h.ttl.3 ∷ two_bytes len rest) =
          At-move (omega arith) (At-two ttl) in
        let fourth : At abuf (q + 3) (h.ttl.3 ∷ two_bytes len rest) =
          At-move (omega arith) (At-next (At-two ttl)) in
        rw (At-peek ttl, At-peek (At-next ttl), At-peek third, At-peek fourth) refl

abbrev pub all_bytes : {A : Type 0} → (A → List ℕ → List ℕ) → List A → List ℕ
all_bytes bytes [] = []
all_bytes bytes (a ∷ answers) = bytes a (all_bytes bytes answers)

-- The loop over answers, for a step that appends what one answer stands for.
module _ {A R : Type 0} (abuf : List ℕ) (step : ℕ → List R → Cmd (ℕ × List R))
    (bytes : A → List ℕ → List ℕ) (reply_of : A → R) (Good : A → Type 0) where
  abbrev pub Reads : Type 0
  Reads =
      (p : ℕ) (a : A) (rest : List ℕ)
      → Good a
      → At abuf p (bytes a rest)
      → (replies : List R)
      → (q : ℕ) × (step p replies [] ≡ ok ((q, replies ++ reply_of a ∷ []), [])) × At abuf q rest

  pub each_answer-At :
      Reads
      → (answers : List A) (p : ℕ) (replies : List R) → All Good answers
      → At abuf p (all_bytes bytes answers)
      → each_answer (length answers) step p replies [] ≡ ok (replies ++ map reply_of answers, [])
  unfolding each_answer
  each_answer-At reads [] p replies good at = ap (λ rs. ok (rs, [])) (sym (append-nil replies))
  each_answer-At reads (a ∷ answers) p replies good at =
      let (q, e, at') = reads p a (all_bytes bytes answers) good.0 at replies in
      rw e (
        each_answer-At reads answers q (replies ++ reply_of a ∷ []) good.1 at'
        ∙ ap (λ rs. ok (rs, [])) (append_assoc replies (reply_of a ∷ []) (map reply_of answers)))

-- The parts of a reply, where they stand in a message.
pub record Holds (abuf : List ℕ) (r : Reply) (count : ℕ) (answers : List ℕ) : Type 0 where
  pub counts : At abuf 4 (
      0
      ∷ 1
      ∷ two_bytes count (
          r.other.0
          ∷ r.other.1
          ∷ r.other.2
          ∷ r.other.3
          ∷ name_bytes r.labels (two_bytes r.type (two_bytes r.dnsclass answers))))
  pub question : At abuf 12 (name_bytes r.labels (two_bytes r.type (two_bytes r.dnsclass answers)))
  pub behind : At abuf (12 + (length (encoded r.labels) + 1) + 4) answers

pub reply_message-Holds :
    (r : Reply) (count : ℕ) (answers : List ℕ)
    → Holds (reply_message r count answers) r count answers
reply_message-Holds r count answers =
    let counts = At-two (At-two (At-start [] (reply_message r count answers))) in
    let question = At-two (At-two (At-two (At-two counts))) in
    record {
      counts = counts;
      question = question;
      behind = At-move (omega arith) (At-two (At-two (At-name r.labels question)));
    }

module _ {abuf : List ℕ} (r : Reply) (count : ℕ) (answers : List ℕ)
    (w : Holds abuf r count answers) where
  pub read_header-Holds : count < 65536 → read_header abuf (length abuf) [] ≡ ok (count, [])
  unfolding read_header
  read_header-Holds small =
      let fits : leb 12 (length abuf) ≡ true = ground (arith, At-length w.question) in
      rw (fits, read16-At w.counts, read16-two_bytes small (At-two w.counts)) refl

  pub read_question_by :
      (expand : Expander)
      → expand abuf (length abuf) 12 [] ≡ ok ((dotted r.labels, length (encoded r.labels) + 1), [])
      → read_question expand abuf (length abuf) []
        ≡ ok ((dotted r.labels, 12 + (length (encoded r.labels) + 1) + 4), [])
  unfolding read_question
  read_question_by expand name =
      let fits : leb (12 + (length (encoded r.labels) + 1) + 4) (length abuf) ≡ true =
        ground (arith, At-length w.behind) in
      rw (name, fits) refl

  pub read_question-Holds :
      All IsPlainLabel r.labels
      → read_question expand_name abuf (length abuf) []
        ≡ ok ((dotted r.labels, 12 + (length (encoded r.labels) + 1) + 4), [])
  read_question-Holds plain =
      read_question_by expand_name (expand_name-At r.labels _ w.question plain)
