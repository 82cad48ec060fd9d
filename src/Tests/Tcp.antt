-- ===== src/Tests/Tcp.antt =====
-- A TCP connection that reads and writes.
use c_ares.Base.{
  ◌⊎◌, ◌==◌, ℕ, ◌≡◌, refl, arith, true, false, List, [], ◌∷◌, ◌++◌, none, length, leb,
  if◌then◌else◌,
}
use c_ares.Result.{ok}
use c_ares.Cmd.{malloc, put}
use c_ares.Cmd.Slots.{store}
use c_ares.Wire.Copy.{puts}
use c_ares.SendQueue.{SendRequest, queued, fill, advance}
use c_ares.Tcp.{
  Handler, Connection, got, Written, took, failed, close_sockets, append_request, write_tcp_data,
  start_message, read_length, append_message, read_message, read_tcp_data,
}
use c_ares.Tcp.Queue.{IsSocket, Writing, stays, appends, writes, Writing-queued}
use c_ares.Tcp.Frames.{Closed, frames, reads, IsOpen}
use c_ares.Tcp.Frames.Stream.{reads-frames}

abbrev fresh : Connection
fresh = record {
  tcp_lenbuf = [];
  tcp_length = 0;
  tcp_buffer = none;
  queue = [];
  tcp_open = true;
  udp_open = false;
  is_broken = false;
  generation = 1;
  last_generation = 1;
}

abbrev messages : List (List ℕ)
messages = (7 ∷ 8 ∷ 9 ∷ []) ∷ (5 ∷ []) ∷ []

abbrev cuts : List ℕ
cuts = 0 ∷ 0 ∷ 1 ∷ 5 ∷ 9 ∷ 0 ∷ 0 ∷ 0 ∷ []

-- The processing changes nothing, or closes the sockets behind the first message.
abbrev keeps : Handler
keeps m s = s

abbrev closes_first : Handler
closes_first m s = if length m == 3 then close_sockets s else s

reads_run :
    reads keeps cuts (frames messages) fresh ≡ ok (record fresh { tcp_length = 1 }, [], messages)
unfolding reads read_tcp_data read_length read_message append_message start_message malloc put puts
reads_run = refl

reads_closed_run :
    reads closes_first cuts (frames messages) fresh
    ≡ ok (record (close_sockets fresh) { tcp_length = 3 }, 0 ∷ 1 ∷ 5 ∷ [], (7 ∷ 8 ∷ 9 ∷ []) ∷ [])
unfolding reads read_tcp_data read_length read_message append_message start_message malloc put puts
    close_sockets
reads_closed_run = refl

reads-frames_example :
    (s : Connection) × (rest : List ℕ) × (processed : List (List ℕ)) × (left : List (List ℕ))
    × (reads closes_first cuts (frames messages) fresh ≡ ok (s, rest, processed))
    × (messages ≡ processed ++ left)
    × (((left ≡ [])
          × (rest ≡ [])
          × (s.tcp_lenbuf ≡ [])
          × IsOpen s
          × (s.generation ≡ fresh.generation))
        ⊎ Closed closes_first s rest processed left)
reads-frames_example =
    reads-frames closes_first messages cuts fresh
      ((omega arith, omega arith), ((omega arith, omega arith), tt))
      (record { opened = refl; unbroken = refl }) refl (omega arith)

-- an empty message: `recv` is asked for no bytes, and its answer is taken for the end
empty_message :
    read_tcp_data keeps (got []) (record fresh { tcp_lenbuf = 0 ∷ 0 ∷ [] }) []
    ≡ ok ((close_sockets fresh, failed), [])
unfolding read_tcp_data read_message close_sockets
empty_message = refl

-- a socket that takes two bytes at most
abbrev two_at_most : List ℕ → Written
two_at_most bytes = took (if leb 2 (length bytes) then 2 else length bytes)

two_at_most-IsSocket : IsSocket two_at_most
two_at_most-IsSocket bytes n e = ground arith

abbrev request : List ℕ → SendRequest
request bytes = record { data_left = bytes; owner_query = 1 }

abbrev with_queue : List SendRequest → Connection
with_queue q = record fresh { queue = q }

-- Two requests, a write that ends inside the second one, and a write of the rest.
trace : Writing fresh (1 ∷ 3 ∷ 2 ∷ []) (1 ∷ 3 ∷ 2 ∷ []) fresh
unfolding write_tcp_data append_request fill advance store malloc
trace = appends (request (1 ∷ [])) (
    appends (request (3 ∷ 2 ∷ [])) (
      writes {s1 = with_queue (request (2 ∷ []) ∷ [])} {bytes = 1 ∷ 3 ∷ []} 16 two_at_most [] []
        two_at_most-IsSocket refl
        (writes {s1 = fresh} {bytes = 2 ∷ []} 16 two_at_most [] [] two_at_most-IsSocket refl
          stays)))

Writing-queued_example : (1 ∷ 3 ∷ 2 ∷ []) ++ queued [] ≡ queued [] ++ (1 ∷ 3 ∷ 2 ∷ [])
Writing-queued_example = Writing-queued trace
