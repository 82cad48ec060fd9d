-- ===== src/Reply/Mx/Parses.antt =====
-- The MX records of a well-formed reply, as `ares_parse_mx_reply` reads them.
use c_ares.Base.{
  ℕ, ◌+◌, ◌<◌, ◌≡◌, refl, arith, true, false, List, [], ◌∷◌, length, length-append, map, All, leb,
  ◌==◌,
}
use c_ares.Result.{ok}
use c_ares.Cmd.{malloc_node}
use c_ares.Query.Plain.{IsPlainLabel, dotted, encoded}
use c_ares.Reply.Bytes.{
  two_bytes, name_bytes, Heading, record_bytes, data_start, Reply, reply_message, read16-two_bytes,
  At-move, At-two, At-name, expand_name-At, data-At, read_rr-At, all_bytes, Reads, each_answer-At,
  Holds, reply_message-Holds, read_header-Holds, read_question-Holds,
}
use c_ares.Reply.Mx.{MxReply, t_mx, mx_record, mx_answer, parse_mx_reply}

-- an MX record: its heading, the priority, and the labels of the host
pub record Answer : Type 0 where
  pub heading : Heading
  pub priority : ℕ
  pub host : List (List ℕ)

abbrev pub data_length : Answer → ℕ
data_length a = length (encoded a.host) + 3

pub record IsAnswer (a : Answer) : Type 0 where
  pub owner_plain : All IsPlainLabel a.heading.owner
  pub host_plain : All IsPlainLabel a.host
  pub priority_small : a.priority < 65536
  pub data_short : data_length a < 65536

abbrev pub answer_bytes : Answer → List ℕ → List ℕ
answer_bytes a rest =
    record_bytes a.heading t_mx (data_length a) (two_bytes a.priority (name_bytes a.host rest))

-- what is read for a record
abbrev pub reply_of : Answer → MxReply
reply_of a = record { host = dotted a.host; priority = a.priority }

module _ {abuf : List ℕ} where
  mx_answer-Reads : Reads abuf (mx_answer abuf (length abuf)) answer_bytes reply_of IsAnswer
  unfolding mx_answer mx_record malloc_node
  mx_answer-Reads p a rest good at replies =
      let content = data-At a.heading t_mx (data_length a) _ at in
      let host = At-two content in
      let two : leb 2 (data_length a) ≡ true = ground arith in
      (
        data_start p a.heading + data_length a,
        rw
            (
              read_rr-At a.heading t_mx (data_length a) _ at good.owner_plain (omega arith)
                  good.data_short (omega (arith, length-append (encoded a.host) (0 ∷ rest))),
              two,
              read16-two_bytes good.priority_small content,
              expand_name-At a.host rest host good.host_plain,
            )
            refl,
        At-move (omega arith) (At-name a.host host),
      )

  parse_mx_reply-Holds :
      (r : Reply) (answers : List Answer)
      → All IsPlainLabel r.labels
      → All IsAnswer answers
      → 0 < length answers
      → length answers < 65536
      → Holds abuf r (length answers) (all_bytes answer_bytes answers)
      → parse_mx_reply abuf (length abuf) [] ≡ ok (map reply_of answers, [])
  unfolding parse_mx_reply
  parse_mx_reply-Holds r answers plain good some_answer few w =
      let nz : (length answers == 0) ≡ false = ground arith in
      rw
        (
          read_header-Holds r (length answers) _ w few,
          nz,
          read_question-Holds r (length answers) _ w plain,
        )
        (each_answer-At abuf _ answer_bytes reply_of IsAnswer mx_answer-Reads answers _ [] good
          w.behind)

-- With memory, for a reply to one question whose answers are MX records, 1 to 65535 of them, with
-- names whose labels need no escapes and are not compressed, priorities below 65536 and data whose
-- lengths fit into 16 bits: `parse_mx_reply` returns the priorities and the dotted host names of
-- these records, in their order.
pub parse_mx_reply_records :
    (r : Reply) (answers : List Answer)
    → All IsPlainLabel r.labels
    → All IsAnswer answers
    → 0 < length answers
    → length answers < 65536
    → parse_mx_reply
        (reply_message r (length answers) (all_bytes answer_bytes answers))
        (length (reply_message r (length answers) (all_bytes answer_bytes answers)))
        []
      ≡ ok (map reply_of answers, [])
parse_mx_reply_records r answers plain good some_answer few =
    parse_mx_reply-Holds r answers plain good some_answer few
      (reply_message-Holds r (length answers) (all_bytes answer_bytes answers))
