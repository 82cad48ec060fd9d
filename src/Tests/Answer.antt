-- ===== src/Tests/Answer.antt =====
-- Answers to queries.
use c_ares.Name.{
  isprint, is_reservedch, is_indir, name_length, name_length_loop, expand_loop, terminate,
  label_length, char_length, is_escaped, expand_label, expand_char,
}
use c_ares.Expand.{expand_name, expand_name_validated}
use c_ares.Base.{
  All, ℕ, ◌≡◌, refl, arith, true, false, ◌&&◌, ◌==◌, Option, none, some, List, [], ◌∷◌, ◌++◌,
  length, if◌then◌else◌,
}
use c_ares.Result.{ok, eservfail}
use c_ares.Cmd.{malloc, put, ◌>>=◌}
use c_ares.Cmd.Safe.{Safe}
use c_ares.Wire.{peek, read16}
use c_ares.Text.{tolower, same_text, striendstr, is_onion_domain}
use c_ares.Query.Plain.{IsPlainLabel, dotted}
use c_ares.Create.{create_query}
use c_ares.Reply.Bytes.{Reply, reply_message}
use c_ares.Answer.{same_questions, decode_question, same_question, find_question, find_questions}
use c_ares.Answer.Process.{
  Flags, Waiting, bad_server, process_answer, judge, check_answer, check_rcode,
}
use c_ares.Answer.Echo.{same_questions-create_query}

abbrev labels : List (List ℕ)
labels = (b'a' ∷ b'b' ∷ []) ∷ (b'c' ∷ []) ∷ []

-- the same name in other letters
abbrev reply : Reply
reply = record {
  id = (1, 2);
  flags = (129, 128);
  other = (0, 0, 0, 0);
  labels = (b'A' ∷ b'b' ∷ []) ∷ (b'C' ∷ []) ∷ [];
  type = 1;
  dnsclass = 1;
}

labels-IsPlain : All IsPlainLabel labels
unfolding isprint is_reservedch
labels-IsPlain = (
  record { plain = ((refl, refl), ((refl, refl), tt)); filled = λ e. cc; short = omega arith },
  (record { plain = ((refl, refl), tt); filled = λ e. cc; short = omega arith }, tt),
)

reply-IsPlain : All IsPlainLabel reply.labels
unfolding isprint is_reservedch
reply-IsPlain = (
  record { plain = ((refl, refl), ((refl, refl), tt)); filled = λ e. cc; short = omega arith },
  (record { plain = ((refl, refl), tt); filled = λ e. cc; short = omega arith }, tt),
)

labels_no_onion : is_onion_domain (dotted labels) ≡ false
unfolding is_onion_domain striendstr same_text tolower
labels_no_onion = refl

same_questions-create_query_example :
    (create_query (dotted labels) 1 1 258 true 0 >>= λ m.
    same_questions m (length m) (reply_message reply 0 []) (length (reply_message reply 0 [])))
      []
    ≡ ok (
      same_text (dotted labels) (dotted reply.labels) && 1 == reply.type && 1 == reply.dnsclass,
      [],
    )
same_questions-create_query_example =
    same_questions-create_query labels 1 1 258 true 0 labels-IsPlain (omega arith) (omega arith)
      labels_no_onion (omega arith) reply 0 [] reply-IsPlain (omega arith) (omega arith)

abbrev flags : Flags
flags = record { edns = true; igntc = false; nocheckresp = false; ednspsz = 1280 }

-- the query for ab.c
abbrev query_bytes : ℕ → List ℕ
query_bytes b =
    1 ∷ 2 ∷ 1 ∷ b ∷ 0 ∷ 1 ∷ 0 ∷ 0 ∷ 0 ∷ 0 ∷ 0 ∷ 0 ∷ 2 ∷ b'a' ∷ b'b' ∷ 1 ∷ b'c' ∷ 0 ∷ 0 ∷ 1 ∷ 0 ∷ 1
    ∷ []

abbrev waiting : Waiting
waiting = record {
  tcpbuf = some (0 ∷ 22 ∷ query_bytes 0);
  tcplen = 24;
  qlen = 22;
  using_tcp = false;
}

abbrev queries : ℕ → Option Waiting
queries id = if id == 258 then some waiting else none

-- The question of a query for the root, and the one of an answer whose name is a label of one NUL:
-- as C strings they are the same.
abbrev question_for : List ℕ → List ℕ
question_for name =
    1 ∷ 2 ∷ 1 ∷ 0 ∷ 0 ∷ 1 ∷ 0 ∷ 0 ∷ 0 ∷ 0 ∷ 0 ∷ 0 ∷ (name ++ (0 ∷ 0 ∷ 1 ∷ 0 ∷ 1 ∷ []))

nul_label_run :
    same_questions (question_for []) 17 (question_for (1 ∷ 0 ∷ [])) 19 [] ≡ ok (true, [])
unfolding same_questions decode_question same_question find_question find_questions expand_name
    expand_name_validated name_length name_length_loop expand_loop terminate label_length
    char_length is_escaped expand_label expand_char is_indir isprint is_reservedch put peek read16
    malloc same_text tolower
nul_label_run = refl

-- SERVFAIL gives the server up.
process_answer_run :
    process_answer flags queries (query_bytes 2) 22 false [] ≡ ok (bad_server eservfail, [])
unfolding process_answer same_questions decode_question same_question find_question find_questions
    judge check_answer check_rcode expand_name expand_name_validated name_length name_length_loop
    expand_loop terminate label_length char_length is_escaped expand_label expand_char is_indir
    isprint is_reservedch put peek read16 malloc same_text tolower
process_answer_run = refl
