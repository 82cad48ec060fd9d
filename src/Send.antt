-- ===== src/Send.antt =====
-- src/lib/ares_process.c: the sending of a query and its retries (`skip_server`, `next_server` and
-- `ares__send_query`). The sockets and the allocator are outside: their answers are a list, the next
-- one of which is taken at each call, and every call behind the last one succeeds.
pub mod Bounds
pub mod Once
pub mod Tries
use c_ares.Base.{
  ℕ, zero, suc, ◌+◌, ◌-◌, ◌*◌, ◌/◌, ◌%◌, ◌^◌, Bool, true, false, not, ◌&&◌, ◌||◌, List, [], ◌∷◌,
  length, get_elem?, drop, set, ltb, leb, ◌==◌, if◌then◌else◌, Option, none, some,
}
use c_ares.Result.{Status, enomem, etimeout, Result, ok, fault, stuck, ◌>>=◌}
use c_ares.Time.{Timeval, timeadd}

-- `struct server_state`, as far as a query depends on it
pub record Server : Type 0 where
  pub is_broken : Bool
  pub tcp_open : Bool
  pub udp_open : Bool
  pub tcp_generation : ℕ

-- `struct query_server_info`
pub record ServerInfo : Type 0 where
  pub skipped : Bool
  pub generation : ℕ

-- `struct query`, as far as the retries depend on it
pub record Query : Type 0 where
  pub server : ℕ
  pub try_count : ℕ
  pub using_tcp : Bool
  pub server_info : List ServerInfo
  pub error_status : Status
  pub timeouts : ℕ
  pub timeout : Timeval

-- what the code reads of a channel and does not change; `nservers` is the length of the servers
pub record Options : Type 0 where
  pub tries : ℕ
  pub timeout : ℕ
  pub succ_resp : Bool

-- the servers, the last number of a TCP connection, the query, the answers of the outside, and the
-- servers to which the query was written or queued, the last one first
pub record State : Type 0 where
  pub servers : List Server
  pub last_generation : ℕ
  pub query : Query
  pub answers : List Bool
  pub sent : List ℕ

-- what becomes of a query: it waits, or its callback is called with a status
pub data Sent : Type 0 where
  pending : State → Sent
  ended : Status → State → Sent

abbrev pub first_answer : List Bool → Bool
first_answer [] = true
first_answer (a ∷ answers) = a

-- one call to the outside: its answer, and the state behind it
abbrev pub called : State → Bool × State
called st = (first_answer st.answers, record st { answers = drop 1 st.answers })

abbrev pub at : {A : Type 0} → List A → ℕ → Result A
at xs i = elim (get_elem? xs i) [ none ↦ fault | some x ↦ ok x ]

unfoldable pub skip_server : State → ℕ → Result State
skip_server st whichserver =
    if ltb 1 (length st.servers)
    then (do
      info ← at st.query.server_info whichserver
      ok (record st {
        query = record st.query {
          server_info = set st.query.server_info whichserver (record info { skipped = true });
        };
      }))
    else ok st

-- The test for a server that is tried again.
unfoldable pub is_usable : Query → Server → ServerInfo → Bool
is_usable q server info =
    not server.is_broken
    && not info.skipped
    && not (q.using_tcp && info.generation == server.tcp_generation)

-- the doubling of the timeout, for a 32-bit int
unfoldable pub shifted_timeout : ℕ → ℕ → ℕ
shifted_timeout timeplus shift =
    if leb shift 31 && timeplus / 2 ^ (31 - shift) == 0 then timeplus * 2 ^ shift else timeplus

-- `open_tcp_socket`, where it succeeds, gives the connection a new number.
abbrev pub opened_tcp : State → ℕ → Server → State
opened_tcp st i server = record st {
  servers =
      set st.servers i (record server { tcp_open = true; tcp_generation = st.last_generation + 1 });
  last_generation = st.last_generation + 1;
}

abbrev pub opened_udp : State → ℕ → Server → State
opened_udp st i server = record st {
  servers = set st.servers i (record server { udp_open = true });
}

-- the write or the queued request, noted
abbrev pub noted : State → State
noted st = record st { sent = st.query.server ∷ st.sent }

-- the request is queued on the TCP connection
unfoldable pub queue_tcp : State → Result State
queue_tcp st = do
  server ← at st.servers st.query.server
  info ← at st.query.server_info st.query.server
  ok (
      noted (record st {
        query = record st.query {
          server_info =
              set st.query.server_info st.query.server
                (record info { generation = server.tcp_generation });
        };
      }))

-- the end of `ares__send_query`: the time at which the query times out, and the sorted list of them
unfoldable pub wait_for_answer : Options → Timeval → State → Sent
wait_for_answer opts now st =
    let shift = st.query.try_count / length st.servers in
    let waiting = record st {
      query = record st.query { timeout = timeadd now (shifted_timeout opts.timeout shift) };
    } in
    let (inserted, st') = called waiting in if inserted then pending st' else ended enomem st'

-- How an attempt goes on: with the next server, or with this one.
pub data Attempt : Type 0 where
  retry : State → Attempt
  done : Sent → Attempt

-- the socket of the server, opened if it is not open, and whether there is one
unfoldable pub connect_tcp : State → Server → Bool × State
connect_tcp st server =
    if server.tcp_open
    then (true, st)
    else if (called st).0
    then (true, opened_tcp (called st).1 st.query.server server)
    else (false, (called st).1)

unfoldable pub bind_udp : State → Server → Bool × State
bind_udp st server =
    if server.udp_open
    then (true, st)
    else if (called st).0
    then (true, opened_udp (called st).1 st.query.server server)
    else (false, (called st).1)

-- the server gave problems: it is marked, and the next one is tried
abbrev pub give_up : State → Result Attempt
give_up st = do st' ← skip_server st st.query.server; ok (retry st')

-- `ares__send_query` on TCP up to the calls of `next_server`; the first call is `ares_malloc`
unfoldable pub send_tcp : Options → Timeval → State → Result Attempt
send_tcp opts now st = do
  server ← at st.servers st.query.server
  let (connected, st1) = connect_tcp st server
  let (allocated, st2) = called st1
  if connected
      then (if allocated
          then (do st3 ← queue_tcp st2; ok (done (wait_for_answer opts now st3)))
          else ok (done (ended enomem st2)))
      else give_up st1

-- and on UDP; the first call is `socket_write`
unfoldable pub send_udp : Options → Timeval → State → Result Attempt
send_udp opts now st = do
  server ← at st.servers st.query.server
  let (bound, st1) = bind_udp st server
  let (written, st2) = called st1
  if bound
      then (if written then ok (done (wait_for_answer opts now (noted st2))) else give_up st2)
      else give_up st1

unfoldable pub send_once : Options → Timeval → State → Result Attempt
send_once opts now st = if st.query.using_tcp then send_tcp opts now st else send_udp opts now st

-- One round of the loop of `next_server`: `++(query->try_count)`, the tests, and the next server.
pub data Round : Type 0 where
  exhausted : State → Round
  unusable usable : State → Round

unfoldable pub next_round : Options → State → Result Round
next_round opts st =
    let q = st.query in
    let st1 = record st { query = record q { try_count = q.try_count + 1 } } in
    if ltb (q.try_count + 1) (length st.servers * opts.tries) && not opts.succ_resp
    then (do
      let next = (q.server + 1) % length st.servers
      server ← at st.servers next
      info ← at q.server_info next
      let st2 = record st1 { query = record st1.query { server = next } }
      ok (if is_usable q server info then usable st2 else unusable st2))
    else ok (exhausted st1)

-- what follows a round, and an attempt, where `next` is the rest of `next_server`
unfoldable pub after_attempt : (State → Result Sent) → Attempt → Result Sent
after_attempt next (done sent) = ok sent
after_attempt next (retry st) = next st

unfoldable pub after_round : Options → Timeval → (State → Result Sent) → Round → Result Sent
after_round opts now next (exhausted st) = ok (ended st.query.error_status st)
after_round opts now next (unusable st) = next st
after_round opts now next (usable st) = send_once opts now st >>= after_attempt next

-- The two functions call each other: `next_server` on fuel, with `ares__send_query` in it.
unfoldable pub next_server : Options → Timeval → ℕ → State → Result Sent
next_server opts now zero st = stuck
next_server opts now (suc fuel) st =
    next_round opts st >>= after_round opts now (next_server opts now fuel)

-- Each round counts a try.
abbrev pub fuel_for : Options → State → ℕ
fuel_for opts st = length st.servers * opts.tries + 1

-- `ares__send_query`
unfoldable pub send_query : Options → Timeval → State → Result Sent
send_query opts now st =
    send_once opts now st >>= after_attempt (λ st'. next_server opts now (fuel_for opts st') st')

-- one round of the loop of `process_timeouts`, for this query
unfoldable pub query_timed_out : Options → Timeval → State → Result Sent
query_timed_out opts now st =
    let q = st.query in
    next_server opts now (fuel_for opts st)
      (record st { query = record q { error_status = etimeout; timeouts = q.timeouts + 1 } })

-- The query in a run where nothing but timeouts happens to it, at the given times.
unfoldable pub time_out : Options → List Timeval → Sent → Result Sent
time_out opts nows (ended s st) = ok (ended s st)
time_out opts [] (pending st) = ok (pending st)
time_out opts (now ∷ nows) (pending st) = query_timed_out opts now st >>= time_out opts nows
