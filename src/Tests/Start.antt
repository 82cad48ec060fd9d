-- ===== src/Tests/Start.antt =====
-- Queries that are started.
use c_ares.Base.{
  Bool, sym, ap, ◌≢◌, ℕ, ◌≡◌, refl, arith, true, false, none, List, [], ◌∷◌, replicate,
}
use c_ares.Result.{success, enotfound, Result, ebadquery, ok}
use c_ares.Cmd.Safe.{Safe}
use c_ares.Htable.{Htable, Done}
use c_ares.Htable
use c_ares.Htable.Hash.{hash_fnv1a, mix}
use c_ares.Htable.View.{replicate-Holds}
use c_ares.Htable.Stvp.{Bucket, callbacks, insert}
use c_ares.Htable.Stvp.Runs.{Reads, call, call-Reads, effect, insertion}
use c_ares.Answer.Process.{Waiting}
use c_ares.Answer.Total.{Never}
use c_ares.Start.{Channel, rejected, prepare, send}
use c_ares.Wire.{peek, read16}
use c_ares.Query.Plain.{dotted}
use c_ares.Query.Written.{message}
use c_ares.Tests.Parses.{labels, labels-IsPlainLabel}
use c_ares.Start.Ask.{IsAsked, ares_query, ares_query-IsAsked, qcallback}
use c_ares.Start.Identifier.{generate_unique_id, generate_unique_id_lem}
use c_ares.Start.Ready.{IsStarted, send-IsStarted}

-- a byte, for small numbers
abbrev bytes : ℕ → List ℕ
bytes k = k ∷ []

abbrev table : Htable (Bucket Waiting)
table = record { seed = 7; size = 16; num_keys = 0; buckets = replicate 16 none; freed = [] }

abbrev channel : Channel
channel = record {
  servers =
      record { is_broken = false; tcp_open = false; udp_open = false; tcp_generation = 0 } ∷ [];
  last_server = 0;
  rotate = true;
  edns = false;
  usevc = false;
  ednspsz = 1280;
  queries_by_qid = table;
}

abbrev query_bytes : List ℕ
query_bytes = 0 ∷ 9 ∷ 1 ∷ 0 ∷ 0 ∷ 1 ∷ 0 ∷ 0 ∷ 0 ∷ 0 ∷ 0 ∷ 0 ∷ 0 ∷ 0 ∷ 1 ∷ 0 ∷ 1 ∷ []

-- eleven bytes are no query
short_run : send bytes channel query_bytes 11 [] ≡ ok (rejected ebadquery channel, [])
unfolding send prepare
short_run = refl

table-Reads : Reads bytes (λ _. none) table
table-Reads = (
  (λ _. none),
  record {
    held = replicate-Holds (callbacks bytes) 7 16;
    power = (4, refl, omega arith, omega arith);
    sparse = λ _. omega arith;
  },
  λ q. refl,
)

send-IsStarted_example :
    Safe Never
      (IsStarted (λ _. none) channel query_bytes 17 bytes)
      (send bytes channel query_bytes 17)
send-IsStarted_example =
    send-IsStarted channel (λ _. omega arith) query_bytes 17 (omega arith) bytes (λ _. none)
      table-Reads

-- the table with the query 9 in it, and the number 9 drawn first
abbrev waiting : Waiting
waiting = record { tcpbuf = none; tcplen = 0; qlen = 0; using_tcp = false }

abbrev inserted :
    (r : Done (Htable (Bucket Waiting))) × (call bytes table (insertion 9 waiting) [] ≡ ok r)
    × Reads bytes (effect (insertion 9 waiting) r.0 (λ _. none)) r.1
inserted = call-Reads bytes (λ _. none) table (insertion 9 waiting) [] table-Reads

abbrev returned : Result (Done (Htable (Bucket Waiting))) → Bool
returned (ok r) = r.0
returned _ = false

inserted_returns : inserted.0.0 ≡ true
unfolding call insert callbacks Htable.insert Htable.at Htable.find Htable.grow Htable.insert_new
    Htable.put_first Htable.hash_idx hash_fnv1a mix
inserted_returns = sym (ap returned inserted.1)

used_nine : effect (insertion 9 waiting) inserted.0.0 (λ _. none) 9 ≢ none
used_nine = rw inserted_returns (λ e. cc)

free_eight : effect (insertion 9 waiting) inserted.0.0 (λ _. none) 8 ≡ none
free_eight = rw inserted_returns refl

generate_unique_id_lem_example : generate_unique_id bytes inserted.0.1 (9 ∷ 8 ∷ []) ≡ ok (8, [])
generate_unique_id_lem_example =
    generate_unique_id_lem bytes (effect (insertion 9 waiting) inserted.0.0 (λ _. none))
      inserted.0.1 inserted.2 (9 ∷ []) 8 [] (used_nine, tt) free_eight

ares_query-IsAsked_example :
    Safe Never
      (IsAsked bytes (λ _. none) channel (message labels 1 1 8 true 0) 8)
      (ares_query bytes channel (8 ∷ []) (dotted labels) 1 1 false)
ares_query-IsAsked_example =
    ares_query-IsAsked bytes (λ _. none) channel (λ _. omega arith) table-Reads [] 8 [] labels 1 1
      false tt refl (omega arith) labels-IsPlainLabel

-- a response code that is not converted: YXDOMAIN without answers
unconverted :
    qcallback success (0 ∷ 8 ∷ 129 ∷ 134 ∷ 0 ∷ 1 ∷ 0 ∷ 0 ∷ 0 ∷ 0 ∷ 0 ∷ 0 ∷ []) ≡ ok success
unfolding qcallback peek read16
unconverted = refl

not_found :
    qcallback success (0 ∷ 8 ∷ 129 ∷ 131 ∷ 0 ∷ 1 ∷ 0 ∷ 0 ∷ 0 ∷ 0 ∷ 0 ∷ 0 ∷ []) ≡ ok enotfound
unfolding qcallback peek read16
not_found = refl
