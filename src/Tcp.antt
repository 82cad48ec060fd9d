-- ===== src/Tcp.antt =====
-- The TCP connection to a server: `read_tcp_data`, `write_tcp_data` and `advance_tcp_send_queue` of
-- src/lib/ares_process.c for a server whose socket is ready, and src/lib/ares__close_sockets.c. What
-- the socket answers is an argument; `errno` is part of it.
pub mod Queue
pub mod Frames
use c_ares.Base.{
  ℕ, zero, suc, ◌+◌, ◌*◌, ◌-◌, Bool, true, false, List, [], ◌∷◌, ◌++◌, Option, none, some, length,
  take, drop, leb, ◌==◌, not, ◌||◌, if◌then◌else◌,
}
use c_ares.Result.{fault}
use c_ares.Cmd.{Cmd, Buffer, malloc, attempt, lift, pure, ◌>>=◌}
use c_ares.Cmd.Slots.{empty_slots}
use c_ares.Wire.Copy.{puts}
use c_ares.SendQueue.{SendRequest, joined, fill, advance}

-- `struct server_state`, as far as these functions change it. `tcp_lenbuf_pos` and
-- `tcp_buffer_pos` are the numbers of bytes written. The generation is that of the connection, and
-- the next one is the channel's.
pub record Connection : Type 0 where
  pub tcp_lenbuf : List ℕ
  pub tcp_length : ℕ
  pub tcp_buffer : Option Buffer
  pub queue : List SendRequest
  pub tcp_open : Bool
  pub udp_open : Bool
  pub is_broken : Bool
  pub generation : ℕ
  pub last_generation : ℕ

-- `ares__close_sockets`
unfoldable pub close_sockets : Connection → Connection
close_sockets s = record s {
  tcp_lenbuf = [];
  tcp_buffer = none;
  queue = [];
  tcp_open = false;
  udp_open = false;
  is_broken = false;
  generation = if s.tcp_open then s.last_generation + 1 else s.generation;
  last_generation = if s.tcp_open then s.last_generation + 1 else s.last_generation;
}

-- The answer to `recv`: bytes, EAGAIN, or the end of the connection or an error.
pub data Received : Type 0 where
  got : List ℕ → Received
  again broken : Received

-- What else a call does: nothing, `process_answer` with a message, or `handle_error`.
pub data Event : Type 0 where
  quiet failed : Event
  answered : List ℕ → Event

abbrev pub hang_up : Connection → Cmd (Connection × Event)
hang_up s = pure (close_sockets s, failed)

-- The bytes are below 256, so that `<< 8 |` is a sum.
abbrev pub length_word : List ℕ → ℕ
length_word (a ∷ b ∷ _) = a * 256 + b
length_word _ = 0

-- the length word is complete: a block for the message
unfoldable pub start_message : Connection → Cmd (Connection × Event)
start_message s =
    attempt (malloc (length_word s.tcp_lenbuf))
      (λ block.
        pure (record s { tcp_length = length_word s.tcp_lenbuf; tcp_buffer = some block }, quiet))
      (λ _. hang_up s)

unfoldable pub read_length : Received → Connection → Cmd (Connection × Event)
read_length (got (c ∷ cs)) s = do
  word ← lift (puts (c ∷ cs) (record { room = 2 - length s.tcp_lenbuf; text = s.tcp_lenbuf }))
  let s' = record s { tcp_lenbuf = word.text }
  if length word.text == 2 then start_message s' else pure (s', quiet)
read_length (got []) s = hang_up s
read_length broken s = hang_up s
read_length again s = pure (s, quiet)

-- What `process_answer`, and the callbacks and retries behind it, leave of the connection: they
-- can put requests in the queue, mark the server as broken, close the sockets, as `end_query` does
-- behind the last query of a channel without ARES_FLAG_STAYOPEN, and open another connection.
abbrev pub Handler : Type 0
Handler = List ℕ → Connection → Connection

-- no socket, or a server that is skipped
abbrev pub is_off : Connection → Bool
is_off s = not s.tcp_open || s.is_broken

module _ (handler : Handler) where
  -- a whole message is processed before the buffer is reset
  abbrev pub message_part : Connection → Buffer → Cmd (Connection × Event)
  message_part s block =
      if length block.text == s.tcp_length
      then (let s' = handler block.text (record s { tcp_buffer = some block }) in
          pure (record s' { tcp_lenbuf = []; tcp_buffer = none }, answered block.text))
      else pure (record s { tcp_buffer = some block }, quiet)

  -- a NULL buffer is written to
  unfoldable pub append_message : Option Buffer → List ℕ → Connection → Cmd (Connection × Event)
  append_message none bytes s = lift fault
  append_message (some block) bytes s = do block' ← lift (puts bytes block); message_part s block'

  unfoldable pub read_message : Received → Connection → Cmd (Connection × Event)
  read_message (got (c ∷ cs)) s = append_message s.tcp_buffer (c ∷ cs) s
  read_message (got []) s = hang_up s
  read_message broken s = hang_up s
  read_message again s = pure (s, quiet)

  -- `read_tcp_data`, for one server
  unfoldable pub read_tcp_data : Received → Connection → Cmd (Connection × Event)
  read_tcp_data r s =
      if is_off s
      then pure (s, quiet)
      else if length s.tcp_lenbuf == 2
      then read_message r s
      else read_length r s

abbrev pub buffer_pos : Option Buffer → ℕ
buffer_pos none = 0
buffer_pos (some block) = length block.text

-- how many bytes `recv` is asked for
abbrev pub wanted : Connection → ℕ
wanted s =
    if length s.tcp_lenbuf == 2
    then s.tcp_length - buffer_pos s.tcp_buffer
    else 2 - length s.tcp_lenbuf

-- The answer to `writev` and to `write`: the number of bytes taken, EAGAIN, or another error.
pub data Written : Type 0 where
  took : ℕ → Written
  would_block write_error : Written

-- the bytes that were sent, and what is left of the queue
abbrev pub sent : Connection → List ℕ → Written → Cmd (Connection × Event × List ℕ)
sent s offered (took n) = do
  queue ← lift (advance n s.queue)
  pure (record s { queue = queue }, quiet, take n offered)
sent s offered would_block = pure (s, quiet, [])
sent s offered write_error = pure (close_sockets s, failed, [])

-- the first request, sent without a vector
abbrev pub send_first :
    List SendRequest → (List ℕ → Written) → Connection → Cmd (Connection × Event × List ℕ)
send_first [] socket s = lift fault
send_first (request ∷ _) socket s = sent s request.data_left (socket request.data_left)

-- `write_tcp_data`, for one server and what its socket answers to the bytes that it is offered. At
-- most `maxn` requests are sent at once.
unfoldable pub write_tcp_data :
    ℕ → (List ℕ → Written) → Connection → Cmd (Connection × Event × List ℕ)
write_tcp_data maxn socket s =
    if length s.queue == 0 || not s.tcp_open || s.is_broken
    then pure (s, quiet, [])
    else attempt (malloc (length s.queue * 16))
        (λ _. do
          vec ← lift (fill maxn s.queue (empty_slots (length s.queue)))
          sent s (joined vec.filled) (socket (joined vec.filled)))
        (λ _. send_first s.queue socket s)

-- a request put behind the others, as `ares__send_query` does
unfoldable pub append_request : SendRequest → Connection → Connection
append_request r s = record s { queue = s.queue ++ r ∷ [] }
