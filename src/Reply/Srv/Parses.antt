-- ===== src/Reply/Srv/Parses.antt =====
-- The SRV records of a well-formed reply, as `ares_parse_srv_reply` reads them.
use c_ares.Base.{
  ℕ, ◌+◌, ◌<◌, ◌≡◌, refl, arith, true, false, List, [], ◌∷◌, length, length-append, map, All, leb,
  ◌==◌,
}
use c_ares.Result.{ok}
use c_ares.Cmd.{malloc_node}
use c_ares.Wire.At.{At}
use c_ares.Query.Plain.{IsPlainLabel, dotted, encoded}
use c_ares.Reply.Bytes.{
  two_bytes, name_bytes, Heading, record_bytes, data_start, Reply, reply_message, read16-two_bytes,
  At-move, At-two, At-name, expand_name-At, data-At, read_rr-At, all_bytes, Reads, each_answer-At,
  Holds, reply_message-Holds, read_header-Holds, read_question-Holds,
}
use c_ares.Reply.Srv.{SrvReply, t_srv, srv_record, srv_answer, parse_srv_reply}

-- an SRV record: its heading, the three numbers, and the labels of the target
pub record Answer : Type 0 where
  pub heading : Heading
  pub priority : ℕ
  pub weight : ℕ
  pub port : ℕ
  pub host : List (List ℕ)

abbrev pub data_length : Answer → ℕ
data_length a = length (encoded a.host) + 7

pub record IsAnswer (a : Answer) : Type 0 where
  pub owner_plain : All IsPlainLabel a.heading.owner
  pub host_plain : All IsPlainLabel a.host
  pub priority_small : a.priority < 65536
  pub weight_small : a.weight < 65536
  pub port_small : a.port < 65536
  pub data_short : data_length a < 65536

abbrev pub answer_bytes : Answer → List ℕ → List ℕ
answer_bytes a rest =
    record_bytes a.heading t_srv (data_length a)
      (two_bytes a.priority (two_bytes a.weight (two_bytes a.port (name_bytes a.host rest))))

-- what is read for a record
abbrev pub reply_of : Answer → SrvReply
reply_of a = record {
  host = dotted a.host;
  priority = a.priority;
  weight = a.weight;
  port = a.port;
}

module _ {abuf : List ℕ} where
  srv_answer-Reads : Reads abuf (srv_answer abuf (length abuf)) answer_bytes reply_of IsAnswer
  unfolding srv_answer srv_record malloc_node
  srv_answer-Reads p a rest good at replies =
      let content = data-At a.heading t_srv (data_length a) _ at in
      let weight = At-two content in
      let port : At abuf (data_start p a.heading + 4) (two_bytes a.port (name_bytes a.host rest)) =
        At-move (omega arith) (At-two weight) in
      let host : At abuf (data_start p a.heading + 6) (name_bytes a.host rest) =
        At-move (omega arith) (At-two port) in
      let long : leb 6 (data_length a) ≡ true = ground arith in
      (
        data_start p a.heading + data_length a,
        rw
            (
              read_rr-At a.heading t_srv (data_length a) _ at good.owner_plain (omega arith)
                  good.data_short (omega (arith, length-append (encoded a.host) (0 ∷ rest))),
              long,
              read16-two_bytes good.priority_small content,
              read16-two_bytes good.weight_small weight,
              read16-two_bytes good.port_small port,
              expand_name-At a.host rest host good.host_plain,
            )
            refl,
        At-move (omega arith) (At-name a.host host),
      )

  parse_srv_reply-Holds :
      (r : Reply) (answers : List Answer)
      → All IsPlainLabel r.labels
      → All IsAnswer answers
      → 0 < length answers
      → length answers < 65536
      → Holds abuf r (length answers) (all_bytes answer_bytes answers)
      → parse_srv_reply abuf (length abuf) [] ≡ ok (map reply_of answers, [])
  unfolding parse_srv_reply
  parse_srv_reply-Holds r answers plain good some_answer few w =
      let nz : (length answers == 0) ≡ false = ground arith in
      rw
        (
          read_header-Holds r (length answers) _ w few,
          nz,
          read_question-Holds r (length answers) _ w plain,
        )
        (each_answer-At abuf _ answer_bytes reply_of IsAnswer srv_answer-Reads answers _ [] good
          w.behind)

-- With memory, for a reply to one question whose answers are SRV records, 1 to 65535 of them, with
-- names whose labels need no escapes and are not compressed, priorities, weights and ports below
-- 65536 and data whose lengths fit into 16 bits: `parse_srv_reply` returns the priorities,
-- weights, ports and dotted target names of these records, in their order.
pub parse_srv_reply_records :
    (r : Reply) (answers : List Answer)
    → All IsPlainLabel r.labels
    → All IsAnswer answers
    → 0 < length answers
    → length answers < 65536
    → parse_srv_reply
        (reply_message r (length answers) (all_bytes answer_bytes answers))
        (length (reply_message r (length answers) (all_bytes answer_bytes answers)))
        []
      ≡ ok (map reply_of answers, [])
parse_srv_reply_records r answers plain good some_answer few =
    parse_srv_reply-Holds r answers plain good some_answer few
      (reply_message-Holds r (length answers) (all_bytes answer_bytes answers))
