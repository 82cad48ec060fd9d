-- ===== src/Tests/Addr.antt =====
-- The addresses of replies.
use c_ares.Base.{ℕ, ◌≡◌, refl, arith, true, List, [], ◌∷◌, length, All, inl, some}
use c_ares.Result.{ok}
use c_ares.Cmd.Safe.{Safe}
use c_ares.Name.{isprint, is_reservedch, is_hostnamech}
use c_ares.Query.Plain.{IsPlainLabel, dotted}
use c_ares.Reply.Bytes.{Heading, reply_message, all_bytes}
use c_ares.Text.{same_text, tolower}
use c_ares.Addr.{t_a, AddrNode, af_inet, parse_into_addrinfo}
use c_ares.Addr.Reply.{no_info, parse_addr_reply}
use c_ares.Addr.Reply.Total.{IsAddrError, IsAddrReply, parse_addr_reply-Safe}
use c_ares.Addr.Parses.{v4, alias, Answer, IsAnswer, answer_bytes}
use c_ares.Addr.Parses.Run.{parse_into_addrinfo_records}
use c_ares.Tests.Parses.{labels, labels-IsPlainLabel, heading, asked}

abbrev target : List (List ℕ)
target = (b'c' ∷ []) ∷ []

target-IsPlainLabel : All IsPlainLabel target
unfolding isprint is_reservedch
target-IsPlainLabel =
    (record { plain = ((refl, refl), tt); filled = λ e. cc; short = omega arith }, tt)

-- an address of another name, an alias, and two addresses of the name it stands for
abbrev answers : List Answer
answers =
    record {
      heading = record { owner = target; ttl = (0, 0, 0, 9) };
      content = v4 (9 ∷ 9 ∷ 9 ∷ 9 ∷ []);
    }
    ∷ record { heading = heading; content = alias target }
    ∷ record {
      heading = record { owner = target; ttl = (0, 0, 2, 0) };
      content = v4 (1 ∷ 2 ∷ 3 ∷ 4 ∷ []);
    }
    ∷ record {
      heading = record { owner = target; ttl = (0, 0, 0, 7) };
      content = v4 (5 ∷ 6 ∷ 7 ∷ 8 ∷ []);
    }
    ∷ []

address-IsAnswer :
    (h : Heading) (a b c d : ℕ)
    → All IsPlainLabel h.owner
    → IsAnswer (record { heading = h; content = v4 (a ∷ b ∷ c ∷ d ∷ []) })
address-IsAnswer h a b c d plain = record {
  owner_plain = plain;
  content_good = refl;
  type_small = omega arith;
  data_short = omega arith;
}

answers-IsAnswer : All IsAnswer answers
unfolding is_hostnamech
answers-IsAnswer = (
  address-IsAnswer _ 9 9 9 9 target-IsPlainLabel,
  (
    record {
      owner_plain = labels-IsPlainLabel;
      content_good = (target-IsPlainLabel, ((refl, tt), tt));
      type_small = omega arith;
      data_short = omega arith;
    },
    (
      address-IsAnswer _ 1 2 3 4 target-IsPlainLabel,
      (address-IsAnswer _ 5 6 7 8 target-IsPlainLabel, tt),
    ),
  ),
)

abbrev reply : List ℕ
reply = reply_message (asked t_a) 4 (all_bytes answer_bytes answers)

abbrev node : ℕ → List ℕ → AddrNode
node ttl bytes = record { ai_family = af_inet; ai_port = 53; ai_ttl = ttl; ai_addr = bytes }

parse_into_addrinfo_records_example :
    parse_into_addrinfo reply (length reply) true 53 no_info []
    ≡ ok (
      record {
        cnames = record { ttl = 256; alias = some (dotted labels); name = some (b'c' ∷ []) } ∷ [];
        nodes = node 512 (1 ∷ 2 ∷ 3 ∷ 4 ∷ []) ∷ node 7 (5 ∷ 6 ∷ 7 ∷ 8 ∷ []) ∷ [];
        name = some (dotted labels);
      },
      [],
    )
unfolding same_text tolower
parse_into_addrinfo_records_example =
    parse_into_addrinfo_records (asked t_a) answers true 53 labels-IsPlainLabel answers-IsAnswer
      (omega arith)

parse_addr_reply-Safe_example :
    Safe IsAddrError
      (IsAddrReply (length reply) af_inet true 3)
      (parse_addr_reply [] reply (length reply) af_inet true 3)
parse_addr_reply-Safe_example =
    parse_addr_reply-Safe [] reply (length reply) af_inet true 3 (omega arith) (inl refl)
