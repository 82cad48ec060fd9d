-- ===== src/Send/Tries.antt =====
-- Every sending ends, and every query ends after as many timeouts as it has tries.
use native.Mathlib.Nat.{mod-lt}
use c_ares.Base.{
  ℕ, zero, suc, ◌+◌, ◌*◌, ◌%◌, ◌≤◌, ◌<◌, ◌≡◌, refl, sym, ap, arith, Bool, true, false, not, ◌&&◌,
  List, [], ◌∷◌, length, ltb, if◌then◌else◌, ◌⊎◌, inl, inr,
}
use c_ares.Result.{Status, enomem, etimeout, ◌>>=◌}
use c_ares.Result.Ensures.{Ensures, returns, Ensures-bind, Ensures-mono, Ensures-if}
use c_ares.Cmd.Put.{NoStatus}
use c_ares.Time.{Timeval}
use c_ares.Send.{
  Options, State, Sent, pending, ended, is_usable, Attempt, retry, done, Round, exhausted, unusable,
  usable, next_round, next_server, time_out, after_attempt, after_round, fuel_for, send_query,
  query_timed_out,
}
use c_ares.Send.Once.{IsState, at-Ensures, Sends, Attempts, send_once-Attempts}

-- What a sending may end in, from a query with `low` tries and an error: a query that waits, with
-- `low` tries at least and less than `total`, or the callback with that error or ARES_ENOMEM.
abbrev pub Sending : ℕ → ℕ → ℕ → Status → Sent → Type 0
Sending n low total e (pending st) =
    IsState n st
    × (low ≤ st.query.try_count)
    × (st.query.try_count < total)
    × (st.query.error_status ≡ e)
Sending n low total e (ended s st) = (s ≡ e) ⊎ (s ≡ enomem)

Sending-mono :
    (n low low' total : ℕ) (e : Status) (sent : Sent)
    → low ≤ low'
    → Sending n low' total e sent
    → Sending n low total e sent
Sending-mono n low low' total e (pending st) h p = (p.0, omega (arith, p.1), p.2, p.3)
Sending-mono n low low' total e (ended s st) h p = p

Sends-Sending :
    (n total : ℕ) (st : State) (sent : Sent)
    → st.query.try_count < total
    → Sends n st sent
    → Sending n st.query.try_count total st.query.error_status sent
Sends-Sending n total st (pending st') h p =
    (p.valid, omega (arith, p.tries), omega (arith, p.tries), p.error)
Sends-Sending n total st (ended s st') h p = inr p

-- the query of `st'` has one try more than that of `st`, and less than `total`
record IsNext (n total : ℕ) (st st' : State) : Type 0 where
  valid : IsState n st'
  tries : st'.query.try_count ≡ st.query.try_count + 1
  below : st'.query.try_count < total
  error : st'.query.error_status ≡ st.query.error_status

abbrev Goes : ℕ → ℕ → State → Round → Type 0
Goes n total st (exhausted st') = st'.query.error_status ≡ st.query.error_status
Goes n total st (unusable st') = IsNext n total st st'
Goes n total st (usable st') = IsNext n total st st'

Goes-if :
    (n total : ℕ) (st : State) (b : Bool) (st' : State)
    → IsNext n total st st'
    → Goes n total st (if b then usable st' else unusable st')
Goes-if n total st true st' p = p
Goes-if n total st false st' p = p

next_round-Goes :
    (opts : Options) (n : ℕ) (st : State)
    → IsState n st
    → Ensures NoStatus (Goes n (n * opts.tries) st) (next_round opts st)
unfolding next_round
next_round-Goes opts n st v =
    Ensures-if (ltb (st.query.try_count + 1) (length st.servers * opts.tries) && not opts.succ_resp)
      (λ more.
        let next = (st.query.server + 1) % length st.servers in
        let small : next < n = omega (
          arith,
          v.count,
          mod-lt (st.query.server + 1) {m = length st.servers} (omega (arith, v.count, v.inside)),
        ) in
        Ensures-bind (at-Ensures st.servers next (omega (arith, v.count, small))) λ server _.
          Ensures-bind (at-Ensures st.query.server_info next (omega (arith, v.infos, small)))
            λ info _.
              let there : IsNext n (n * opts.tries) st (record st {
                query = record st.query { server = next; try_count = st.query.try_count + 1 };
              }) =
                record {
                  valid = record { count = v.count; infos = v.infos; inside = small };
                  tries = refl;
                  below = ground (arith, ap (λ (m : ℕ). m * opts.tries) v.count);
                  error = refl;
                } in
              returns (Goes-if n _ st (is_usable st.query server info) _ there))
      (λ _. returns refl)

module _ (opts : Options) (now : Timeval) (n : ℕ) where
  abbrev total : ℕ
  total = n * opts.tries

  -- what `next_server` promises of a query with a try left for each unit of fuel
  abbrev Enough : ℕ → Type 0
  Enough fuel =
      (st : State)
      → IsState n st
      → 0 < fuel
      → total ≤ st.query.try_count + fuel
      → Ensures NoStatus (Sending n (st.query.try_count + 1) total st.query.error_status)
          (next_server opts now fuel st)

  after_attempt-Sending :
      (fuel : ℕ) (st : State) (x : Attempt)
      → Enough fuel
      → 0 < fuel
      → total ≤ st.query.try_count + fuel
      → st.query.try_count < total
      → Attempts n st x
      → Ensures NoStatus
          (Sending n st.query.try_count total st.query.error_status)
          (after_attempt (next_server opts now fuel) x)
  unfolding after_attempt
  after_attempt-Sending fuel st (done sent) rest h enough below p =
      returns (Sends-Sending n total st sent below p)
  after_attempt-Sending fuel st (retry st') rest h enough below p =
      Ensures-mono (rest st' p.valid h (omega (arith, p.tries)))
        λ sent s. rw (sym p.error) (Sending-mono n _ _ total _ sent (omega (arith, p.tries)) s)

  after_round-Sending :
      (fuel : ℕ) (st : State) (round : Round)
      → Enough fuel
      → total ≤ st.query.try_count + suc fuel
      → Goes n total st round
      → Ensures NoStatus
          (Sending n (st.query.try_count + 1) total st.query.error_status)
          (after_round opts now (next_server opts now fuel) round)
  unfolding after_round
  after_round-Sending fuel st (exhausted st') rest enough p = returns (inl p)
  after_round-Sending fuel st (unusable st') rest enough p =
      Ensures-mono (rest st' p.valid (omega (arith, p.tries, p.below)) (omega (arith, p.tries)))
        λ sent s. rw (sym p.error) (Sending-mono n _ _ total _ sent (omega (arith, p.tries)) s)
  after_round-Sending fuel st (usable st') rest enough p =
      Ensures-bind (send_once-Attempts opts now n st' p.valid) λ x a.
        Ensures-mono
          (after_attempt-Sending fuel st' x rest (omega (arith, p.tries, p.below))
            (omega (arith, p.tries)) p.below a)
          λ sent s. rw (sym p.error) (Sending-mono n _ _ total _ sent (omega (arith, p.tries)) s)

  next_server-Enough : (fuel : ℕ) → Enough fuel
  unfolding next_server
  next_server-Enough zero st v h enough = absurd (omega arith)
  next_server-Enough (suc fuel) st v h enough =
      Ensures-bind (next_round-Goes opts n st v)
        λ round goes. after_round-Sending fuel st round (next_server-Enough fuel) enough goes

  fuel_for-enough : (st : State) → IsState n st → total ≤ st.query.try_count + fuel_for opts st
  fuel_for-enough st v = omega (arith, ap (λ (m : ℕ). m * opts.tries) v.count)

  -- For a query with an entry for each of the `n` servers, a server among them and less tries than
  -- `n` times `tries`, whatever the sockets and the allocator answer: `send_query` ends without an
  -- access outside an array, with the callback of the query and its error or ARES_ENOMEM, or with
  -- a query that waits, has such entries and such a server, as many tries at least but less than
  -- `n` times `tries`, and the same error.
  pub send_query-Sending :
      (st : State)
      → IsState n st
      → st.query.try_count < total
      → Ensures NoStatus
          (Sending n st.query.try_count total st.query.error_status)
          (send_query opts now st)
  unfolding send_query after_attempt
  send_query-Sending st v below =
      Ensures-bind (send_once-Attempts opts now n st v) λ x a. after st x below a
    where
      after :
          (st : State) (x : Attempt)
          → st.query.try_count < total
          → Attempts n st x
          → Ensures NoStatus
              (Sending n st.query.try_count total st.query.error_status)
              (after_attempt (λ st'. next_server opts now (fuel_for opts st') st') x)
      after st (done sent) below a = returns (Sends-Sending n total st sent below a)
      after st (retry st') below a =
          Ensures-mono
            (next_server-Enough (fuel_for opts st') st' a.valid (omega arith)
              (fuel_for-enough st' a.valid))
            λ sent s. rw (sym a.error) (Sending-mono n _ _ total _ sent (omega (arith, a.tries)) s)

  -- For a query with an entry for each of the `n` servers and a server among them, whatever the
  -- sockets and the allocator answer: `query_timed_out` ends without an access outside an array,
  -- with the callback of the query and ARES_ETIMEOUT or ARES_ENOMEM, or with a query that waits,
  -- has such entries and such a server, one try more at least but less than `n` times `tries`, and
  -- the error ARES_ETIMEOUT.
  pub query_timed_out-Sending :
      (st : State)
      → IsState n st
      → Ensures NoStatus
          (Sending n (st.query.try_count + 1) total etimeout)
          (query_timed_out opts now st)
  unfolding query_timed_out
  query_timed_out-Sending st v =
      next_server-Enough (fuel_for opts st) _
        (record { count = v.count; infos = v.infos; inside = v.inside }) (omega arith)
        (fuel_for-enough st v)

abbrev pub IsEnded : Sent → Type 0
IsEnded (pending st) = ⊥
IsEnded (ended s st) = Unit

module _ (opts : Options) (n : ℕ) where
  time_out-IsEnded :
      (nows : List Timeval) (low : ℕ) (e : Status) (sent : Sent)
      → Sending n low (n * opts.tries) e sent
      → n * opts.tries ≤ low + length nows
      → Ensures NoStatus IsEnded (time_out opts nows sent)
  unfolding time_out
  time_out-IsEnded nows low e (ended s st) p h = returns tt
  time_out-IsEnded [] low e (pending st) p h = absurd (omega (arith, p.1, p.2))
  time_out-IsEnded (now ∷ nows) low e (pending st) p h =
      Ensures-bind (query_timed_out-Sending opts now n st p.0) λ sent q.
        time_out-IsEnded nows (st.query.try_count + 1) etimeout sent q (omega (arith, p.1))

  -- For a query with an entry for each of the `n` servers, a server among them and less tries than
  -- `n` times `tries`, whatever the sockets and the allocator answer: `send_query`, followed by as
  -- many timeouts as `n` times `tries`, ends with the callback of the query.
  pub send_query-IsEnded :
      (now : Timeval) (nows : List Timeval) (st : State)
      → IsState n st
      → st.query.try_count < n * opts.tries
      → n * opts.tries ≤ length nows
      → Ensures NoStatus IsEnded (send_query opts now st >>= time_out opts nows)
  send_query-IsEnded now nows st v below h =
      Ensures-bind (send_query-Sending opts now n st v below) λ sent p.
        time_out-IsEnded nows st.query.try_count st.query.error_status sent p (omega arith)
