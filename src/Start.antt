-- ===== src/Start.antt =====
-- src/lib/ares_send.c: the start of a query, up to the call of `ares__send_query`. The table of the
-- queries by their identifiers is that of Htable/Stvp. The clock is read after all this.
pub mod Ready
pub mod Identifier
pub mod Ask
use c_ares.Base.{
  ℕ, ◌+◌, ◌/◌, ◌%◌, ◌^◌, Bool, true, false, not, ◌&&◌, ◌||◌, some, List, [], ◌∷◌, ◌++◌, length,
  take, replicate, leb, ltb, ◌==◌, if◌then◌else◌,
}
use c_ares.Result.{
  Status, enomem, ebadquery, eservfail, econnrefused, Result, ok, fail, fault, stuck,
}
use c_ares.Cmd.{Allocs, Cmd, lift, pure, guard, malloc_node, attempt, ◌>>=◌, ◌>>◌}
use c_ares.Wire.{read16}
use c_ares.Reply.{hfixedsz}
use c_ares.Htable.{Htable, Done}
use c_ares.Htable.Stvp
use c_ares.Htable.Stvp.{Bucket}
use c_ares.Send.{Server, ServerInfo, Query}
use c_ares.Answer.Process.{Waiting, packetsz}

-- a channel, as far as the start of a query depends on it
pub record Channel : Type 0 where
  pub servers : List Server
  pub last_server : ℕ
  pub rotate : Bool
  pub edns : Bool
  pub usevc : Bool
  pub ednspsz : ℕ
  pub queries_by_qid : Htable (Bucket Waiting)

-- a query, in the parts that the answers and the retries change
pub record Prepared : Type 0 where
  pub qid : ℕ
  pub waiting : Waiting
  pub query : Query

-- The callback is called with a status, or the query is in the table and goes to `ares__send_query`.
pub data Started : Type 0 where
  rejected : Status → Channel → Started
  begun : Channel → Prepared → Started

-- `memcpy(query->tcpbuf + 2, qbuf, qlen)`, behind the two bytes of the length
tcp_bytes : List ℕ → ℕ → Result (List ℕ)
tcp_bytes qbuf qlen =
    if leb qlen (length qbuf) then ok (qlen / 2 ^ 8 % 256 ∷ qlen % 256 ∷ take qlen qbuf) else fault

-- the tests, the three allocations and the fields of the query
unfoldable pub prepare : Channel → List ℕ → ℕ → Cmd Prepared
unfolding tcp_bytes
prepare ch qbuf qlen = do
  guard (leb hfixedsz qlen && ltb qlen (2 ^ 16)) ebadquery
  guard (leb 1 (length ch.servers)) eservfail
  malloc_node
  malloc_node
  malloc_node
  qid ← lift (read16 qbuf 0)
  tcpbuf ← lift (tcp_bytes qbuf qlen)
  let size = if ch.edns then ch.ednspsz else packetsz
  let using_tcp = ch.usevc || ltb size qlen
  pure (record {
    qid = qid;
    waiting = record {
      tcpbuf = some tcpbuf;
      tcplen = qlen + 2;
      qlen = qlen;
      using_tcp = using_tcp;
    };
    query = record {
      server = ch.last_server;
      try_count = 0;
      using_tcp = using_tcp;
      server_info = replicate (length ch.servers) (record { skipped = false; generation = 0 });
      error_status = econnrefused;
      timeouts = 0;
      timeout = record { tv_sec = 0; tv_usec = 0 };
    };
  })

-- the server of the next query
abbrev pub rotated : Channel → Channel
rotated ch = record ch {
  last_server = if ch.rotate then (ch.last_server + 1) % length ch.servers else ch.last_server;
}

as_cmd : {S : Type 0} → Result (Done S) → Result ((Bool × S) × Allocs)
as_cmd (ok r) = ok ((r.0, r.1), r.2)
as_cmd (fail s) = fail s
as_cmd fault = fault
as_cmd stuck = stuck

module _ (bytes : ℕ → List ℕ) where
  unfoldable pub insert_query : Channel → Prepared → Cmd (Bool × Htable (Bucket Waiting))
  unfolding as_cmd
  insert_query ch p a = as_cmd (Stvp.insert bytes ch.queries_by_qid p.qid p.waiting a)

  -- `ares__free_query`, as far as it changes the table: what is there at the identifier goes
  unfoldable pub free_query : Channel → ℕ → Cmd Channel
  free_query ch qid = do
    (_, t) ← lift (Stvp.remove bytes ch.queries_by_qid qid)
    pure (record ch { queries_by_qid = t })

  -- a query that has been prepared is freed
  abbrev pub reject_query : Channel → ℕ → Cmd Started
  reject_query ch qid = do ch' ← free_query ch qid; pure (rejected enomem ch')

  -- the node of the list of all queries, and the table
  unfoldable pub enqueue : Channel → Prepared → Cmd Started
  enqueue ch p =
      attempt malloc_node
        (λ _. do
          r ← insert_query ch p
          let ch' = record ch { queries_by_qid = r.1 }
          if r.0 then pure (begun ch' p) else reject_query ch' p.qid)
        (λ s. reject_query ch p.qid)

  unfoldable pub send : Channel → List ℕ → ℕ → Cmd Started
  send ch qbuf qlen =
      attempt (prepare ch qbuf qlen) (λ p. enqueue (rotated ch) p) (λ s. pure (rejected s ch))
