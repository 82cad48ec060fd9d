-- ===== src/Tcp/Queue.antt =====
-- What is written to a TCP connection is the bytes of the requests, in their order.
use mathlib.Core.List.{append_assoc, append-nil}
use c_ares.Base.{
  ℕ, ◌*◌, ◌≤◌, ◌≡◌, refl, sym, ◌∙◌, ap, arith, ◌⊎◌, inl, inr, false, not, ◌||◌, List, [], ◌∷◌, ◌++◌,
  length, ◌==◌,
}
use c_ares.Result.{ok}
use c_ares.Result.Ensures.{Ensures-at}
use c_ares.Cmd.{Allocs}
use c_ares.Cmd.Put.{NoStatus}
use c_ares.Cmd.Slots.{empty_slots}
use c_ares.Cmd.Safe.{Safe, Safe-pure, Safe-bind, Safe-if, Safe-attempt, Safe-malloc, Safe-known}
use c_ares.Search.Total.{IsNoMemory}
use c_ares.SendQueue.{SendRequest, queued, fill-offers, offered-Sends}
use c_ares.Tcp.{
  Connection, Event, quiet, failed, Written, took, would_block, write_error, close_sockets, sent,
  send_first, write_tcp_data, append_request,
}

-- A socket takes no more than it is offered.
abbrev pub IsSocket : (List ℕ → Written) → Type 0
IsSocket socket = (bytes : List ℕ) (n : ℕ) → socket bytes ≡ took n → n ≤ length bytes

-- The bytes that were sent and those that are left are the queue; or the connection is given up.
abbrev pub Writes : Connection → Connection × Event × List ℕ → Type 0
Writes s r =
    ((r.1 ≡ quiet)
      × (r.0 ≡ record s { queue = r.0.queue })
      × (r.2 ++ queued r.0.queue ≡ queued s.queue))
    ⊎ ((r.1 ≡ failed) × (r.0 ≡ close_sockets s) × (r.2 ≡ []))

sent-Writes :
    (s : Connection) (offered behind : List ℕ) (w : Written)
    → queued s.queue ≡ offered ++ behind
    → ((n : ℕ) → w ≡ took n → n ≤ length offered)
    → Safe NoStatus (Writes s) (sent s offered w)
sent-Writes s offered behind (took n) splits fits =
    let (q', run, same) = offered-Sends n offered behind s.queue splits (fits n refl) in
    Safe-bind {P = λ q. q ≡ q'} (Safe-known run refl) λ q e. Safe-pure (inl (refl, refl, rw e same))
sent-Writes s offered behind would_block splits fits = Safe-pure (inl (refl, refl, refl))
sent-Writes s offered behind write_error splits fits = Safe-pure (inr (refl, refl, refl))

send_first-Writes :
    (s : Connection) (q : List SendRequest) (socket : List ℕ → Written)
    → IsSocket socket
    → s.queue ≡ q
    → (length q == 0) ≡ false
    → Safe NoStatus (Writes s) (send_first q socket s)
send_first-Writes s [] socket honest e filled = absurd (cc filled)
send_first-Writes s (r ∷ rs) socket honest e filled =
    sent-Writes s r.data_left (queued rs) (socket r.data_left) (ap queued e) (honest r.data_left)

pub write_tcp_data-Writes :
    (s : Connection) (maxn : ℕ) (socket : List ℕ → Written)
    → IsSocket socket
    → Safe NoStatus (Writes s) (write_tcp_data maxn socket s)
unfolding write_tcp_data
write_tcp_data-Writes s maxn socket honest =
    Safe-if (length s.queue == 0 || not s.tcp_open || s.is_broken)
      (λ _. Safe-pure (inl (refl, refl, refl)))
      (λ busy.
        let (vec, bytes, behind, run, same, splits) =
          fill-offers maxn s.queue (empty_slots (length s.queue)) refl in
        Safe-attempt {E = IsNoMemory} (Safe-malloc (length s.queue * 16) refl)
          (λ _ _.
            Safe-bind {P = λ v. v ≡ vec} (Safe-known run refl)
              λ v e. rw (e, same) (sent-Writes s bytes behind (socket bytes) splits (honest bytes)))
          (λ _ _. send_first-Writes s s.queue socket honest refl (ground arith)))

-- Requests that are put into the queue, and calls that write to the socket: the bytes sent, and
-- those of the requests.
pub data Writing : Connection → List ℕ → List ℕ → Connection → Type 0 where
  stays : {s : Connection} → Writing s [] [] s
  appends :
      {s s' : Connection} {out inn : List ℕ} (r : SendRequest)
      → Writing (append_request r s) out inn s'
      → Writing s out (r.data_left ++ inn) s'
  writes :
      {s s1 s' : Connection} {bytes out inn : List ℕ} (maxn : ℕ) (socket : List ℕ → Written)
      (h h' : Allocs)
      → IsSocket socket
      → write_tcp_data maxn socket s h ≡ ok ((s1, quiet, bytes), h')
      → Writing s1 out inn s'
      → Writing s (bytes ++ out) inn s'

queued-append : (q q' : List SendRequest) → queued (q ++ q') ≡ queued q ++ queued q'
queued-append [] q' = refl
queued-append (r ∷ q) q' =
    ap (λ t. r.data_left ++ t) (queued-append q q')
    ∙ sym (append_assoc r.data_left (queued q) (queued q'))

one_write :
    (s s1 : Connection) (bytes : List ℕ)
    → Writes s (s1, quiet, bytes)
    → bytes ++ queued s1.queue ≡ queued s.queue
one_write s s1 bytes (inl w) = w.2
one_write s s1 bytes (inr w) = absurd (cc (w.0))

-- For a connection to which requests are added and that is written to, in any order, with any
-- answers of the allocator, any limit on the number of requests that are sent at once, and sockets
-- that take no more than they are offered: as long as no write fails, the bytes sent so far and
-- those in the queue are the bytes that were in the queue at first and those of the requests, in
-- their order. No byte is lost, sent twice or overtaken.
pub Writing-queued :
    {s s' : Connection} {out inn : List ℕ}
    → Writing s out inn s'
    → out ++ queued s'.queue ≡ queued s.queue ++ inn
unfolding append_request
Writing-queued (stays {s}) = sym (append-nil (queued s.queue))
Writing-queued (appends {s} {s'} {out} {inn} r next) =
    Writing-queued next
    ∙ ap (λ t. t ++ inn) (queued-append s.queue (r ∷ []))
    ∙ append_assoc (queued s.queue) (queued (r ∷ [])) inn
    ∙ ap (λ t. queued s.queue ++ (t ++ inn)) (append-nil r.data_left)
Writing-queued (writes {s} {s1} {s'} {bytes} {out} {inn} maxn socket h h' honest run next) =
    append_assoc bytes out (queued s'.queue)
    ∙ ap (λ t. bytes ++ t) (Writing-queued next)
    ∙ sym (append_assoc bytes (queued s1.queue) inn)
    ∙ ap (λ t. t ++ inn)
        (one_write s s1 bytes (Ensures-at ((write_tcp_data-Writes s maxn socket honest).run h) run))
