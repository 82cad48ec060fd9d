-- ===== src/Start/Ask.antt =====
-- `ares_query` and `qcallback` of src/lib/ares_query.c: a query for a name is composed with an
-- identifier that is free, and started; the response code of its answer becomes a status.
use mathlib.Core.Path.{subst}
use c_ares.Base.{
  ==_iff, inl, inr, Bool-cases, ℕ, ◌+◌, ◌-◌, ◌<◌, ◌≡◌, ◌≢◌, refl, sym, ◌∙◌, ap, arith, Bool, true,
  not, List, [], ◌∷◌, ◌++◌, Option, none, length, All, ltb, leb, ◌==◌, if◌then◌else◌, bit_and,
}
use c_ares.Result.{
  Status, success, enodata, eformerr, eservfail, enotfound, ebadname, enotimp, erefused, enomem,
  Result, ok,
}
use c_ares.Cmd.{Cmd, Buffer, lift, pure, attempt, malloc_node, ◌>>=◌}
use c_ares.Cmd.Safe.{
  Safe, Safe-pure, Safe-known, Safe-bind, Safe-guard, Safe-malloc, Safe-malloc_node, Safe-attempt,
}
use c_ares.Wire.{peek, read16}
use c_ares.Wire.Copy.{puts-ok}
use c_ares.Wire.At.{At-start}
use c_ares.Text.{is_onion_domain}
use c_ares.Query.{maxcdname}
use c_ares.Query.Plain.{IsPlainLabel, dotted, encoded}
use c_ares.Query.Written.{message, write_query-dotted}
use c_ares.Create.{edns_size, create_query}
use c_ares.Create.Total.{IsQueryError}
use c_ares.Create.RoundTrip.{length-dotted, length-message}
use c_ares.Reply.{hfixedsz, qfixedsz}
use c_ares.Reply.Bytes.{read16-two_bytes}
use c_ares.Htable.Stvp.Runs.{Reads, effect, insertion, removal}
use c_ares.Start.{Channel, Started, rejected, begun, send}
use c_ares.Start.Ready.{IsChannel, IsRejection, IsPrepared, IsStarted, send-IsStarted}
use c_ares.Start.Identifier.{generate_unique_id, generate_unique_id_lem}
use c_ares.Answer.Total.{Never}
use c_ares.Answer.Process.{Waiting}

-- The callback is called with a status, or the message is handed to `ares_send`.
pub data Asked : Type 0 where
  refused : Status → Asked
  handed : Started → Asked

-- The numbers drawn are a list.
unfoldable pub ares_query : (ℕ → List ℕ) → Channel → List ℕ → List ℕ → ℕ → ℕ → Bool → Cmd Asked
ares_query bytes ch ids name dnsclass type norecurse = do
  (id, _) ← lift (generate_unique_id bytes ch.queries_by_qid ids)
  attempt (create_query name dnsclass type id (not norecurse) (if ch.edns then ch.ednspsz else 0))
      (λ qbuf.
        attempt malloc_node
          (λ _. do started ← send bytes ch qbuf (length qbuf); pure (handed started))
          (λ s. pure (refused s)))
      (λ s. pure (refused s))

-- the status for a response code and a number of answers; other codes leave ARES_SUCCESS
abbrev pub query_status : ℕ → ℕ → Status
query_status rcode ancount =
    if rcode == 0
    then (if ltb 0 ancount then success else enodata)
    else if rcode == 1
    then eformerr
    else if rcode == 2
    then eservfail
    else if rcode == 3
    then enotfound
    else if rcode == 4
    then enotimp
    else if rcode == 5
    then erefused
    else success

-- `qcallback`: the status that the callback gets
unfoldable pub qcallback : Status → List ℕ → Result Status
qcallback success abuf = c_ares.Result.◌>>=◌ (peek abuf 3) λ flags.
    c_ares.Result.◌>>=◌ (read16 abuf 6) λ ancount. ok (query_status (bit_and flags 15) ancount)
qcallback status abuf = ok status

module _ (ls : List (List ℕ)) (plain : All IsPlainLabel ls) (dnsclass type id : ℕ) (rd : Bool)
    (max : ℕ) where
  -- With a name of plain labels, `create_query` returns its message or fails.
  create_query-Writes :
      Safe IsQueryError
        (λ m. m ≡ message ls dnsclass type id rd max)
        (create_query (dotted ls) dnsclass type id rd max)
  unfolding create_query
  create_query-Writes = Safe-guard (not (is_onion_domain (dotted ls))) enotfound tt λ _.
      Safe-bind (Safe-malloc (length (dotted ls) + 2 + hfixedsz + qfixedsz + edns_size max) tt)
        λ block fresh.
          let m = message ls dnsclass type id rd max in
          let size = length-message ls dnsclass type id rd max in
          let room : block.room ≡ length m + (length (dotted ls) + 1 - length (encoded ls)) =
            omega (arith, size, fresh.0, length-dotted ls) in
          Safe-bind {P = λ (q : Buffer). q.text ≡ m}
            (Safe-known
              (write_query-dotted ls dnsclass type id rd max block plain
                ∙ puts-ok m block (length (dotted ls) + 1 - length (encoded ls)) room)
              (ap (λ t. t ++ m) fresh.1))
            λ q written.
              Safe-guard (leb (length q.text) (maxcdname + hfixedsz + qfixedsz + edns_size max))
                ebadname tt λ _. Safe-pure written

  message-id : id < 65536 → read16 (message ls dnsclass type id rd max) 0 ≡ ok id
  message-id small = read16-two_bytes small (At-start [] (message ls dnsclass type id rd max))

-- what is started has the identifier that was drawn
abbrev pub IsAsked : (ℕ → List ℕ) → (ℕ → Option Waiting) → Channel → List ℕ → ℕ → Asked → Type 0
IsAsked bytes f ch msg id (refused s) = IsQueryError s
IsAsked bytes f ch msg id (handed (rejected s ch')) =
    IsRejection s × IsChannel ch' × Reads bytes f ch'.queries_by_qid
IsAsked bytes f ch msg id (handed (begun ch' p)) =
    (p.qid ≡ id)
    × IsPrepared ch msg (length msg) p
    × IsChannel ch'
    × Reads bytes (effect (insertion id p.waiting) true f) ch'.queries_by_qid

abbrev value_of : {A : Type 0} → A → Result A → A
value_of other (ok x) = x
value_of other _ = other

-- Nothing is there to be removed at a free identifier.
removal-free :
    (f : ℕ → Option Waiting) (id : ℕ)
    → f id ≡ none
    → (qid : ℕ) → qid ≡ id
    → (q : ℕ) → effect (removal qid) true f q ≡ f q
removal-free f id free qid same q = elim (Bool-cases (q == qid)) [
  | inl t ↦ rw t (sym (rw ((==_iff q qid).0 t, same) free))
  | inr e ↦ rw e refl
]

handed-IsAsked :
    (bytes : ℕ → List ℕ) (f : ℕ → Option Waiting) (ch : Channel) (msg : List ℕ) (id : ℕ)
    (started : Started)
    → read16 msg 0 ≡ ok id
    → f id ≡ none
    → IsStarted f ch msg (length msg) bytes started
    → IsAsked bytes f ch msg id (handed started)
handed-IsAsked bytes f ch msg id (rejected s ch') here free (e, valid, inl reads) =
    (e, valid, reads)
handed-IsAsked bytes f ch msg id (rejected s ch') here free
      (e, valid, inr (_, qid, there, (g, h, same))) =
    let same_id : qid ≡ id = ap (value_of qid) (sym there ∙ here) in
    (e, valid, (g, h, λ q. same q ∙ removal-free f id free qid same_id q))
handed-IsAsked bytes f ch msg id (begun ch' p) here free w =
    let same : p.qid ≡ id = ap (value_of p.qid) (sym w.0.id ∙ here) in
    (
      same,
      w.0,
      w.1,
      subst (λ key. Reads bytes (effect (insertion key p.waiting) true f) ch'.queries_by_qid) same
          w.2,
    )

module _ (bytes : ℕ → List ℕ) (f : ℕ → Option Waiting) (ch : Channel) (valid : IsChannel ch)
    (reads : Reads bytes f ch.queries_by_qid) where
  -- For a channel whose `last_server` is one of its servers, if there is one, and whose table of
  -- queries reads as a function; for a name of plain labels, and numbers drawn of which some are
  -- in use and then one below 65536 is not; whatever the allocator answers: `ares_query` ends. The
  -- callback gets ARES_ENOTFOUND, ARES_EBADNAME or ARES_ENOMEM, or `ares_send` rejects the message
  -- and the table reads as before; or a query begins with the free number as its identifier, with
  -- the message of RFC 1035 for the name, with the RD bit unless ARES_FLAG_NORECURSE is set and
  -- the OPT record if EDNS is on, and the table reads as before but for this query at its
  -- identifier.
  pub ares_query-IsAsked :
      (used : List ℕ) (id : ℕ) (rest : List ℕ) (ls : List (List ℕ)) (dnsclass type : ℕ)
      (norecurse : Bool)
      → All (λ k. f k ≢ none) used
      → f id ≡ none
      → id < 65536
      → All IsPlainLabel ls
      → Safe Never
          (IsAsked bytes f ch
            (message ls dnsclass type id (not norecurse) (if ch.edns then ch.ednspsz else 0))
            id)
          (ares_query bytes ch (used ++ id ∷ rest) (dotted ls) dnsclass type norecurse)
  unfolding ares_query
  ares_query-IsAsked used id rest ls dnsclass type norecurse busy free small plain =
      let max : ℕ = if ch.edns then ch.ednspsz else 0 in
      let rd : Bool = not norecurse in
      let msg : List ℕ = message ls dnsclass type id rd max in
      Safe-bind {P = λ r. r ≡ (id, rest)}
        (Safe-known (generate_unique_id_lem bytes f ch.queries_by_qid reads used id rest busy free)
          refl)
        λ r e. rw e (
          Safe-attempt (create_query-Writes ls plain dnsclass type id rd max)
            (λ qbuf same.
              Safe-attempt {E = IsQueryError} (Safe-malloc_node tt)
                (λ _ _.
                  Safe-bind
                    (subst
                      (λ q.
                        Safe Never (IsStarted f ch msg (length msg) bytes)
                          (send bytes ch q (length q)))
                      (sym same)
                      (send-IsStarted ch valid msg (length msg) (omega arith) bytes f reads))
                    λ started w. Safe-pure (
                      handed-IsAsked bytes f ch msg id started
                        (message-id ls plain dnsclass type id rd max small) free w))
                (λ s none_left. Safe-pure none_left))
            (λ s failed. Safe-pure failed))
