-- ===== src/Tests/Send.antt =====
-- Sending and retries.
use c_ares.Base.{ℕ, ◌*◌, ◌^◌, ◌≤◌, ◌<◌, ◌≡◌, refl, arith, true, false, Bool, List, [], ◌∷◌}
use c_ares.Result.{Status, etimeout, eother, Result, ok, ◌>>=◌}
use c_ares.Result.Ensures.{Ensures}
use c_ares.Cmd.Put.{NoStatus}
use c_ares.Time.{Timeval}
use c_ares.Time.{timeadd}
use c_ares.Send.{
  Server, ServerInfo, Options, State, Sent, pending, ended, skip_server, is_usable, shifted_timeout,
  queue_tcp, wait_for_answer, connect_tcp, bind_udp, send_tcp, send_udp, send_once, next_round,
  after_attempt, after_round, next_server, send_query, query_timed_out, time_out,
}
use c_ares.Send.Once.{IsState}
use c_ares.Send.Tries.{
  Sending, IsEnded, query_timed_out-Sending, send_query-Sending, send_query-IsEnded,
}
use c_ares.Send.Bounds.{shifted_timeout_lem}

abbrev now : Timeval
now = record { tv_sec = 100; tv_usec = 0 }

abbrev server : Server
server = record { is_broken = false; tcp_open = false; udp_open = false; tcp_generation = 1 }

abbrev info : ServerInfo
info = record { skipped = false; generation = 0 }

abbrev options : Options
options = record { tries = 2; timeout = 2000; succ_resp = false }

-- a new query over UDP, with two servers
abbrev fresh : List Bool → State
fresh answers = record {
  servers = server ∷ server ∷ [];
  last_generation = 2;
  query = record {
    server = 1;
    try_count = 0;
    using_tcp = false;
    server_info = info ∷ info ∷ [];
    error_status = eother;
    timeouts = 0;
    timeout = record { tv_sec = 0; tv_usec = 0 };
  };
  answers = answers;
  sent = [];
}

fresh-IsState : (answers : List Bool) → IsState 2 (fresh answers)
fresh-IsState answers = record { count = refl; infos = refl; inside = omega arith }

-- The write to the second server fails, so the query goes to the first one, and after a timeout,
-- with the second one marked, to the first one again; the next timeout is the last.
abbrev seen : Sent → Result (Status × List ℕ)
seen (pending st) = ok (eother, st.sent)
seen (ended s st) = ok (s, st.sent)

send_run :
    (send_query options now (fresh (true ∷ false ∷ []))
      >>= time_out options (now ∷ now ∷ now ∷ [])
      >>= seen)
    ≡ ok (etimeout, 0 ∷ 0 ∷ [])
unfolding skip_server is_usable shifted_timeout queue_tcp wait_for_answer connect_tcp bind_udp
    send_tcp send_udp send_once next_round after_attempt after_round next_server send_query
    query_timed_out time_out timeadd
send_run = refl

send_query-Sending_example :
    Ensures NoStatus (Sending 2 0 (2 * 2) eother) (send_query options now (fresh []))
send_query-Sending_example =
    send_query-Sending options now 2 (fresh []) (fresh-IsState []) (omega arith)

query_timed_out-Sending_example :
    Ensures NoStatus (Sending 2 1 (2 * 2) etimeout) (query_timed_out options now (fresh []))
query_timed_out-Sending_example =
    query_timed_out-Sending options now 2 (fresh []) (fresh-IsState [])

send_query-IsEnded_example :
    Ensures NoStatus IsEnded
      (send_query options now (fresh []) >>= time_out options (now ∷ now ∷ now ∷ now ∷ []))
send_query-IsEnded_example =
    send_query-IsEnded options 2 now (now ∷ now ∷ now ∷ now ∷ []) (fresh []) (fresh-IsState [])
      (omega arith) (omega arith)

shifted_timeout_lem_example :
    (shifted_timeout 2000 3 < 2147483648)
    × (2000 ≤ shifted_timeout 2000 3)
    × (3 ≤ 31 → 2000 * 2 ^ 3 < 2147483648 → shifted_timeout 2000 3 ≡ 2000 * 2 ^ 3)
shifted_timeout_lem_example = shifted_timeout_lem 2000 3 (omega arith)
