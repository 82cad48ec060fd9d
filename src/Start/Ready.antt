-- ===== src/Start/Ready.antt =====
-- A query that is started is ready for the retries and for an answer.
use c_ares.Base.{
  length-take, ℕ, zero, suc, ◌≤◌, ◌<◌, ◌%◌, ◌/◌, ◌≡◌, refl, arith, Bool, true, ◌&&◌, inl, inr, ◌⊎◌,
  Option, List, [], ◌∷◌, length, take, replicate, leb, ltb, ap,
}
use c_ares.Result.{Status, enomem, ebadquery, eservfail, ok}
use c_ares.Result.Ensures.{Ensures, returns}
use c_ares.Cmd.Safe.{
  Safe, Safe-if, Safe-pure, Safe-lift, Safe-bind, Safe-guard, Safe-attempt, Safe-malloc_node,
}
use c_ares.Wire.{read16, read16-Ensures}
use c_ares.Reply.{hfixedsz}
use c_ares.Htable.Stvp.Runs.{insertion, removal, effect, Reads, call, call-Reads, remove-Reads}
use c_ares.Send.{State}
use c_ares.Send.Once.{IsState}
use c_ares.Answer.Process.{Waiting, qbuf_of}
use c_ares.Answer.Cut.{IsWaiting}
use c_ares.Answer.Judged.{Ensures-itself}
use c_ares.Answer.Total.{Never}
use c_ares.Start.{
  Channel, Prepared, Started, tcp_bytes, rejected, begun, prepare, rotated, insert_query,
  free_query, reject_query, enqueue, send,
}

-- `last_server` is a server, if there is one
abbrev pub IsChannel : Channel → Type 0
IsChannel ch = 0 < length ch.servers → ch.last_server < length ch.servers

-- the statuses of a query that is not begun before the channel is changed
abbrev pub IsRejection : Status → Type 0
IsRejection ebadquery = Unit
IsRejection eservfail = Unit
IsRejection enomem = Unit
IsRejection _ = ⊥

-- The state of Send.antt for a query that begins.
abbrev pub state_of : Channel → Prepared → ℕ → List Bool → State
state_of ch p generation answers = record {
  servers = ch.servers;
  last_generation = generation;
  query = p.query;
  answers = answers;
  sent = [];
}

-- A query holds the bytes given, and an entry for each server, one of which is its own.
pub record IsPrepared (ch : Channel) (qbuf : List ℕ) (qlen : ℕ) (p : Prepared) : Type 0 where
  pub id : read16 qbuf 0 ≡ ok p.qid
  pub waits : IsWaiting p.waiting
  pub bytes_of : qbuf_of p.waiting ≡ take qlen qbuf
  pub size : p.waiting.qlen ≡ qlen
  pub state :
      (generation : ℕ) (answers : List Bool)
      → IsState (length ch.servers) (state_of ch p generation answers)
  pub tries : p.query.try_count ≡ 0

-- what a start leaves, for a table that read as `f`
abbrev pub IsStarted : (ℕ → Option Waiting) → Channel → List ℕ → ℕ → (ℕ → List ℕ) → Started → Type 0
IsStarted f ch qbuf qlen bytes (rejected s ch') =
    IsRejection s
    × IsChannel ch'
    × (Reads bytes f ch'.queries_by_qid
        ⊎ ((s ≡ enomem)
            × (qid : ℕ) × (read16 qbuf 0 ≡ ok qid)
            × Reads bytes (effect (removal qid) true f) ch'.queries_by_qid))
IsStarted f ch qbuf qlen bytes (begun ch' p) =
    IsPrepared ch qbuf qlen p
    × IsChannel ch'
    × Reads bytes (effect (insertion p.qid p.waiting) true f) ch'.queries_by_qid

length-replicate : {A : Type 0} (n : ℕ) (x : A) → length (replicate n x) ≡ n
length-replicate zero x = refl
length-replicate (suc n) x = ap suc (length-replicate n x)

rotated-IsChannel : (ch : Channel) → IsChannel ch → IsChannel (rotated ch)
rotated-IsChannel ch h pos = grind (arith, h pos)

module _ (ch : Channel) (valid : IsChannel ch) (qbuf : List ℕ) (qlen : ℕ)
    (inside : qlen ≤ length qbuf) where
  tcp_bytes-Ensures :
      Ensures IsRejection
        (λ b. b ≡ qlen / 256 % 256 ∷ qlen % 256 ∷ take qlen qbuf)
        (tcp_bytes qbuf qlen)
  unfolding tcp_bytes
  tcp_bytes-Ensures = let e : leb qlen (length qbuf) ≡ true = ground arith in rw e (returns refl)

  prepare-IsPrepared :
      Safe IsRejection
        (λ p. (0 < length ch.servers) × IsPrepared ch qbuf qlen p)
        (prepare ch qbuf qlen)
  unfolding prepare
  prepare-IsPrepared = Safe-guard (leb hfixedsz qlen && ltb qlen 65536) ebadquery tt λ sized.
      Safe-guard (leb 1 (length ch.servers)) eservfail tt λ some_server.
        Safe-bind (Safe-malloc_node tt) λ _ _. Safe-bind (Safe-malloc_node tt) λ _ _.
          Safe-bind (Safe-malloc_node tt) λ _ _.
            Safe-bind
              (Safe-lift (Ensures-itself (read16-Ensures {E = IsRejection} qbuf 0 (ground arith))))
              λ qid id. Safe-bind (Safe-lift tcp_bytes-Ensures) λ tcpbuf e. Safe-pure (
                ground arith,
                record {
                  id = id;
                  waits = record {
                    buf = tcpbuf;
                    allocated = refl;
                    fits = rw e (omega (arith, length-take qlen qbuf inside));
                    counts = refl;
                  };
                  bytes_of = rw e refl;
                  size = refl;
                  state = λ g answers. record {
                    count = refl;
                    infos = length-replicate (length ch.servers) _;
                    inside = valid (ground arith);
                  };
                  tries = refl;
                },
              )

  insert_query-Reads :
      (bytes : ℕ → List ℕ) (f : ℕ → Option Waiting) (c : Channel) (p : Prepared)
      → Reads bytes f c.queries_by_qid
      → Safe Never
          (λ r. Reads bytes (effect (insertion p.qid p.waiting) r.0 f) r.1)
          (insert_query bytes c p)
  unfolding insert_query call
  insert_query-Reads bytes f c p h = record {
    run = λ a.
        let (r, e, reads) = call-Reads bytes f c.queries_by_qid (insertion p.qid p.waiting) a h in
        rw e (returns reads);
  }

  free_query-Reads :
      (bytes : ℕ → List ℕ) (f : ℕ → Option Waiting) (c : Channel) (qid : ℕ)
      → Reads bytes f c.queries_by_qid
      → IsChannel c
      → Safe Never
          (λ c'. IsChannel c' × Reads bytes (effect (removal qid) true f) c'.queries_by_qid)
          (free_query bytes c qid)
  unfolding free_query
  free_query-Reads bytes f c qid h next =
      let (r, e, reads) = remove-Reads bytes f c.queries_by_qid qid h in
      rw e (Safe-pure (next, reads))

  reject_query-IsStarted :
      (bytes : ℕ → List ℕ) (f : ℕ → Option Waiting) (c : Channel) (p : Prepared)
      → IsPrepared ch qbuf qlen p
      → Reads bytes f c.queries_by_qid
      → IsChannel c
      → Safe Never (IsStarted f ch qbuf qlen bytes) (reject_query bytes c p.qid)
  reject_query-IsStarted bytes f c p prepared h next =
      Safe-bind (free_query-Reads bytes f c p.qid h next)
        λ c' w. Safe-pure (tt, w.0, inr (refl, p.qid, prepared.id, w.1))

  enqueue-IsStarted :
      (bytes : ℕ → List ℕ) (f : ℕ → Option Waiting) (p : Prepared)
      → IsPrepared ch qbuf qlen p
      → Reads bytes f ch.queries_by_qid
      → Safe Never (IsStarted f ch qbuf qlen bytes) (enqueue bytes (rotated ch) p)
  unfolding enqueue
  enqueue-IsStarted bytes f p prepared h =
      let next = rotated-IsChannel ch valid in
      Safe-attempt {E = IsRejection} (Safe-malloc_node tt)
        (λ _ _. Safe-bind (insert_query-Reads bytes f (rotated ch) p h) λ r reads.
          let ch' : Channel = record (rotated ch) { queries_by_qid = r.1 } in
          Safe-if r.0 (λ made. Safe-pure (prepared, next, rw made at reads))
            (λ unmade. reject_query-IsStarted bytes f ch' p prepared (rw unmade at reads) next))
        (λ s e. reject_query-IsStarted bytes f (rotated ch) p prepared h next)

  -- For a channel whose `last_server` is one of its servers, if there is one, and whose table of
  -- queries reads as a function, for a query of `qlen` bytes in a block of as many at least, and
  -- whatever the allocator answers: `send` ends with no access outside a block. It rejects the
  -- query with ARES_EBADQUERY, ARES_ESERVFAIL or ARES_ENOMEM, and the table reads as before, or,
  -- for ARES_ENOMEM only, as before but for the identifier of the query, at which nothing is left;
  -- or the query begins, with the bytes given and their identifier, no tries, an entry for each
  -- server and one of the servers as its own, and the table reads as before but for the query at
  -- its identifier. In both cases `last_server` is one of the servers, if there is one.
  pub send-IsStarted :
      (bytes : ℕ → List ℕ) (f : ℕ → Option Waiting)
      → Reads bytes f ch.queries_by_qid
      → Safe Never (IsStarted f ch qbuf qlen bytes) (send bytes ch qbuf qlen)
  unfolding send
  send-IsStarted bytes f h =
      Safe-attempt prepare-IsPrepared (λ p w. enqueue-IsStarted bytes f p w.1 h)
        (λ s e. Safe-pure (e, valid, inl h))
