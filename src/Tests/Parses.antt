-- ===== src/Tests/Parses.antt =====
-- Well-formed replies, read back.
use c_ares.Base.{ℕ, ◌≡◌, refl, arith, List, [], ◌∷◌, length, All}
use c_ares.Result.{ok}
use c_ares.Name.{isprint, is_reservedch}
use c_ares.Query.Plain.{IsPlainLabel}
use c_ares.Reply.Bytes.{Heading, Reply, reply_message, all_bytes}
use c_ares.Reply.Mx.{parse_mx_reply}
use c_ares.Reply.Mx.Parses as MxParses
use c_ares.Reply.Mx.Parses.{parse_mx_reply_records}
use c_ares.Reply.Srv.{parse_srv_reply}
use c_ares.Reply.Srv.Parses as SrvParses
use c_ares.Reply.Srv.Parses.{parse_srv_reply_records}

abbrev pub labels : List (List ℕ)
labels = (b'a' ∷ []) ∷ (b'b' ∷ b'c' ∷ []) ∷ []

pub labels-IsPlainLabel : All IsPlainLabel labels
unfolding isprint is_reservedch
labels-IsPlainLabel = (
  record { plain = ((refl, refl), tt); filled = λ e. cc; short = omega arith },
  (
    record { plain = ((refl, refl), ((refl, refl), tt)); filled = λ e. cc; short = omega arith },
    tt,
  ),
)

abbrev pub heading : Heading
heading = record { owner = labels; ttl = (0, 0, 1, 0) }

abbrev pub asked : ℕ → Reply
asked type = record {
  id = (18, 52);
  flags = (0x81, 0x80);
  other = (0, 0, 0, 0);
  labels = labels;
  type = type;
  dnsclass = 1;
}

abbrev mx_answers : List MxParses.Answer
mx_answers =
    record { heading = heading; priority = 300; host = (b'a' ∷ []) ∷ [] }
    ∷ record { heading = heading; priority = 10; host = labels }
    ∷ []

mx_answers-IsAnswer : All MxParses.IsAnswer mx_answers
mx_answers-IsAnswer = (
  record {
    owner_plain = labels-IsPlainLabel;
    host_plain = (labels-IsPlainLabel.0, tt);
    priority_small = omega arith;
    data_short = omega arith;
  },
  (
    record {
      owner_plain = labels-IsPlainLabel;
      host_plain = labels-IsPlainLabel;
      priority_small = omega arith;
      data_short = omega arith;
    },
    tt,
  ),
)

abbrev mx_message : List ℕ
mx_message = reply_message (asked 15) 2 (all_bytes MxParses.answer_bytes mx_answers)

parse_mx_reply_records_example :
    parse_mx_reply mx_message (length mx_message) []
    ≡ ok (
      record { host = b'a' ∷ []; priority = 300 }
          ∷ record { host = b'a' ∷ b'.' ∷ b'b' ∷ b'c' ∷ []; priority = 10 }
          ∷ [],
      [],
    )
parse_mx_reply_records_example =
    parse_mx_reply_records (asked 15) mx_answers labels-IsPlainLabel mx_answers-IsAnswer
      (omega arith) (omega arith)

abbrev srv_answers : List SrvParses.Answer
srv_answers =
    record { heading = heading; priority = 1; weight = 2; port = 5060; host = labels } ∷ []

srv_answers-IsAnswer : All SrvParses.IsAnswer srv_answers
srv_answers-IsAnswer = (
  record {
    owner_plain = labels-IsPlainLabel;
    host_plain = labels-IsPlainLabel;
    priority_small = omega arith;
    weight_small = omega arith;
    port_small = omega arith;
    data_short = omega arith;
  },
  tt,
)

abbrev srv_message : List ℕ
srv_message = reply_message (asked 33) 1 (all_bytes SrvParses.answer_bytes srv_answers)

parse_srv_reply_records_example :
    parse_srv_reply srv_message (length srv_message) []
    ≡ ok (
      record { host = b'a' ∷ b'.' ∷ b'b' ∷ b'c' ∷ []; priority = 1; weight = 2; port = 5060 } ∷ [],
      [],
    )
parse_srv_reply_records_example =
    parse_srv_reply_records (asked 33) srv_answers labels-IsPlainLabel srv_answers-IsAnswer
      (omega arith) (omega arith)
