-- ===== src/Answer/Echo.antt =====
-- The questions of a query that `ares_create_query` made and of a well-formed reply.
use c_ares.Base.{
  ℕ, ◌+◌, ◌<◌, ◌≡◌, refl, arith, Bool, true, false, not, ◌&&◌, Bool-cases, inl, inr, List, [], ◌∷◌,
  length, All, ◌≤◌, leb, ◌==◌,
}
use c_ares.Result.{ok}
use c_ares.Cmd.{◌>>=◌}
use c_ares.Wire.{peek, read16}
use c_ares.Wire.At.{At, At-start, At-length}
use c_ares.Text.{same_text, is_onion_domain}
use c_ares.Query.{header, maxcdname}
use c_ares.Query.Plain.{c_string-dotted, IsPlainLabel, dotted, encoded}
use c_ares.Query.Written.{message, opt_bytes}
use c_ares.Create.{create_query}
use c_ares.Create.RoundTrip.{create_query-dotted}
use c_ares.Reply.Bytes.{
  two_bytes, name_bytes, Reply, reply_message, At-two, At-name, expand_name-At, read16-two_bytes,
}
use c_ares.Answer.{
  Question, decode_question, same_question, find_question, find_questions, same_questions,
}

abbrev question_bytes : List (List ℕ) → ℕ → ℕ → List ℕ → List ℕ
question_bytes ls type dnsclass rest = name_bytes ls (two_bytes type (two_bytes dnsclass rest))

module _ {buf : List ℕ} {p : ℕ} (ls : List (List ℕ)) (type dnsclass : ℕ) (rest : List ℕ)
    (at : At buf p (question_bytes ls type dnsclass rest)) where
  decode_question-At :
      All IsPlainLabel ls
      → type < 65536
      → dnsclass < 65536
      → decode_question buf (length buf) p []
        ≡ ok (
          (
            record { name = dotted ls; type = type; dnsclass = dnsclass },
            p + (length (encoded ls) + 1) + 4,
          ),
          [],
        )
  unfolding decode_question
  decode_question-At plain t c =
      let fixed = At-name ls at in
      let class_at : At buf (p + (length (encoded ls) + 1) + 2) (two_bytes dnsclass rest) =
        At-two fixed in
      let room : leb (p + (length (encoded ls) + 1) + 4) (length buf) ≡ true =
        ground (arith, At-length (At-two class_at)) in
      rw (expand_name-At ls _ at plain, room, read16-two_bytes t fixed, read16-two_bytes c class_at)
        refl

record Asks (buf : List ℕ) (ls : List (List ℕ)) (type dnsclass : ℕ) : Type 0 where
  rest : List ℕ
  at : At buf 12 (question_bytes ls type dnsclass rest)
  count : read16 buf 4 ≡ ok 1
  plain : All IsPlainLabel ls
  small : type < 65536
  small_class : dnsclass < 65536

abbrev asked : List (List ℕ) → ℕ → ℕ → Question
asked ls type dnsclass = record { name = dotted ls; type = type; dnsclass = dnsclass }

module _ {qbuf abuf : List ℕ} {ls ms : List (List ℕ)} {t u c d : ℕ} (q : Asks qbuf ls t c)
    (a : Asks abuf ms u d) where
  one_question :
      find_question 1 abuf (length abuf) 12 (asked ls t c) []
      ≡ ok (same_question (asked ls t c) (asked ms u d), [])
  unfolding find_question
  one_question =
      rw (decode_question-At ms u d a.rest a.at a.plain a.small a.small_class)
        (elim (Bool-cases (same_question (asked ls t c) (asked ms u d))) [
          | inl e ↦ rw e refl
          | inr e ↦ rw e refl
        ])

  same_questions-Asks :
      same_questions qbuf (length qbuf) abuf (length abuf) []
      ≡ ok (same_question (asked ls t c) (asked ms u d), [])
  unfolding same_questions find_questions
  same_questions-Asks =
      let room : (leb 12 (length qbuf) && leb 12 (length abuf)) ≡ true =
        ground (arith, At-length q.at, At-length a.at) in
      rw
        (
          room,
          q.count,
          a.count,
          decode_question-At ls t c q.rest q.at q.plain q.small q.small_class,
          one_question,
        )
        (elim (Bool-cases (same_question (asked ls t c) (asked ms u d))) [
          | inl e ↦ rw e refl
          | inr e ↦ rw e refl
        ])

module _ (ls : List (List ℕ)) (dnsclass type id : ℕ) (rd : Bool) (max_udp_size : ℕ)
    (plain : All IsPlainLabel ls) (small : type < 65536) (small_class : dnsclass < 65536) where
  message-Asks : Asks (message ls dnsclass type id rd max_udp_size) ls type dnsclass
  unfolding read16 peek
  message-Asks = record {
    rest = opt_bytes max_udp_size;
    at = At-start (header id rd (not (max_udp_size == 0))) _;
    count = refl;
    plain = plain;
    small = small;
    small_class = small_class;
  }

reply_message-Asks :
    (r : Reply) (count : ℕ) (answers : List ℕ)
    → All IsPlainLabel r.labels
    → r.type < 65536
    → r.dnsclass < 65536
    → Asks (reply_message r count answers) r.labels r.type r.dnsclass
unfolding read16 peek
reply_message-Asks r count answers plain small small_class = record {
  rest = answers;
  at =
      At-start
        (r.id.0
          ∷ r.id.1
          ∷ r.flags.0
          ∷ r.flags.1
          ∷ 0
          ∷ 1
          ∷ two_bytes count (r.other.0 ∷ r.other.1 ∷ r.other.2 ∷ r.other.3 ∷ []))
        _;
  count = refl;
  plain = plain;
  small = small;
  small_class = small_class;
}

-- Names whose labels need no escapes are compared whole.
same_question-plain :
    (ls ms : List (List ℕ)) (t u c d : ℕ)
    → All IsPlainLabel ls
    → All IsPlainLabel ms
    → same_question (asked ls t c) (asked ms u d)
      ≡ (same_text (dotted ls) (dotted ms) && t == u && c == d)
unfolding same_question
same_question-plain ls ms t u c d h k = rw (c_string-dotted ls h, c_string-dotted ms k) refl

module _ (ls : List (List ℕ)) (dnsclass type id : ℕ) (rd : Bool) (max_udp_size : ℕ)
    (plain : All IsPlainLabel ls) (small : type < 65536) (small_class : dnsclass < 65536) where
  -- With memory, for a name whose labels need no escapes, that is no onion name and whose encoding
  -- has at most 255 bytes, and numbers below 65536: of the query that `create_query` makes and a
  -- well-formed reply with one question, whose labels need no escapes either and whose type and
  -- class are below 65536, `same_questions` returns 1 exactly if the names are the same up to the
  -- case of the letters and the types and the classes are the same.
  pub same_questions-create_query :
      is_onion_domain (dotted ls) ≡ false
      → length (encoded ls) + 1 ≤ maxcdname
      → (r : Reply) (count : ℕ) (answers : List ℕ) → All IsPlainLabel r.labels
      → r.type < 65536
      → r.dnsclass < 65536
      → let abuf = reply_message r count answers in
        (create_query (dotted ls) dnsclass type id rd max_udp_size >>= λ m.
        same_questions m (length m) abuf (length abuf))
          []
        ≡ ok (
          same_text (dotted ls) (dotted r.labels) && type == r.type && dnsclass == r.dnsclass,
          [],
        )
  same_questions-create_query no_onion short r count answers r_plain r_small r_small_class =
      rw
        (
          create_query-dotted ls dnsclass type id rd max_udp_size plain no_onion short,
          ← same_question-plain ls r.labels type r.type dnsclass r.dnsclass plain r_plain,
        )
        (same_questions-Asks
          (message-Asks ls dnsclass type id rd max_udp_size plain small small_class)
          (reply_message-Asks r count answers r_plain r_small r_small_class))
