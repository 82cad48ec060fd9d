-- ===== src/Tcp/Frames.antt =====
-- The messages of a TCP stream are read whole and in order, however the stream is cut.
pub mod Step
pub mod Stream
use c_ares.Base.{
  Bool, ◌||◌, not, ◌==◌, ◌⊎◌, ℕ, suc, ◌+◌, ◌-◌, ◌*◌, ◌/◌, ◌%◌, ◌≡◌, ◌<◌, true, false, List, [], ◌∷◌,
  ◌++◌, some, length, take, drop, leb, if◌then◌else◌,
}
use c_ares.Result.{Result, ok, ◌>>=◌}
use c_ares.Reply.Bytes.{two_bytes}
use c_ares.Tcp.{
  Handler, is_off, Connection, Received, got, again, Event, quiet, failed, answered, read_tcp_data,
  wanted,
}

-- each message behind the two bytes of its length
abbrev pub frames : List (List ℕ) → List ℕ
frames [] = []
frames (m ∷ ms) = two_bytes (length m) (m ++ frames ms)

abbrev pub IsMessage : List ℕ → Type 0
IsMessage m = (0 < length m) × (length m < 65536)

-- A socket that holds a stream: `recv` gets at most what it asks for, and at most `k + 1` bytes.
abbrev pub chunk : ℕ → ℕ → ℕ
chunk k want = if leb want k then want else k + 1

abbrev pub recv_answer : ℕ → ℕ → List ℕ → Received
recv_answer k want [] = again
recv_answer k want (c ∷ cs) = got (take (chunk k want) (c ∷ cs))

abbrev pub said : Event → List (List ℕ)
said (answered m) = m ∷ []
said _ = []

-- how much a call takes from the socket
abbrev pub asked_for : ℕ → Connection → ℕ
asked_for k s = if is_off s then 0 else chunk k (wanted s)

-- the connection is closed or broken, or another one has taken its place
abbrev pub is_lost : Connection → Connection → Bool
is_lost before s = is_off s || not (s.generation == before.generation)

-- One call of `read_tcp_data` for each bound in the list, with memory, as long as the connection
-- lasts on which the stream comes: the server, what is left in the socket, and the messages that
-- were processed.
unfoldable pub reads :
    Handler → List ℕ → List ℕ → Connection → Result (Connection × List ℕ × List (List ℕ))
reads handler [] stream s = ok (s, stream, [])
reads handler (k ∷ ks) stream s = do
  ((s', event), _) ← read_tcp_data handler (recv_answer k (wanted s) stream) s []
  let stream' = drop (asked_for k s) stream
  if is_lost s s' then ok (s', stream', said event) else (do
    (s'', rest, messages) ← reads handler ks stream' s'
    ok (s'', rest, said event ++ messages))

-- a connection that reads
pub record IsOpen (s : Connection) : Type 0 where
  pub opened : s.tcp_open ≡ true
  pub unbroken : s.is_broken ≡ false

-- The stream goes on with some messages: before the next one, in its length word, or inside it.
pub data Aligned (s : Connection) (stream : List ℕ) (msgs : List (List ℕ)) : Type 0 where
  between : s.tcp_lenbuf ≡ [] → stream ≡ frames msgs → Aligned s stream msgs
  half :
      (m : List ℕ) (ms : List (List ℕ))
      → s.tcp_lenbuf ≡ length m / 256 % 256 ∷ []
      → stream ≡ length m % 256 ∷ (m ++ frames ms)
      → msgs ≡ m ∷ ms
      → Aligned s stream msgs
  inside :
      (a b : ℕ) (text left : List ℕ) (ms : List (List ℕ))
      → s.tcp_lenbuf ≡ a ∷ b ∷ []
      → s.tcp_buffer ≡ some (record { room = length left; text = text })
      → s.tcp_length ≡ length text + length left
      → 0 < length left
      → stream ≡ left ++ frames ms
      → msgs ≡ (text ++ left) ∷ ms
      → Aligned s stream msgs

-- The last message that was processed is one whose processing closed, broke or replaced an open
-- connection, and nothing behind it was read.
pub record Closed (handler : Handler) (s : Connection) (stream : List ℕ)
    (processed left : List (List ℕ)) : Type 0 where
  pub before : List (List ℕ)
  pub message : List ℕ
  pub server : Connection
  pub last_one : processed ≡ before ++ message ∷ []
  pub was_open : IsOpen server
  pub closes : is_lost server (handler message server) ≡ true
  pub closed : is_lost server s ≡ true
  pub empty : s.tcp_lenbuf ≡ []
  pub behind : stream ≡ frames left

-- One call: it ends, and the messages that are left follow what was processed.
pub record Reads (handler : Handler) (s : Connection) (stream : List ℕ) (msgs : List (List ℕ))
    (k : ℕ) : Type 0 where
  pub next : Connection
  pub event : Event
  pub left : List (List ℕ)
  pub run : read_tcp_data handler (recv_answer k (wanted s) stream) s [] ≡ ok ((next, event), [])
  pub rest : Aligned next (drop (chunk k (wanted s)) stream) left
  pub order : msgs ≡ said event ++ left
  pub fate :
      (IsOpen next × (next.generation ≡ s.generation))
      ⊎ (Closed handler next (drop (chunk k (wanted s)) stream) (said event) left
          × (is_lost s next ≡ true))
  pub some_read : 0 < chunk k (wanted s)
