-- ===== src/Htable/Stvp/Runs.antt =====
-- Sequences of calls on one table, against a function that the calls change.
use c_ares.Base.{
  ℕ, ◌≡◌, refl, arith, ap, Bool, true, false, Bool-cases, inl, inr, Option, none, some, List, [],
  ◌∷◌, ◌==◌, if◌then◌else◌,
}
use c_ares.Result.{Result, ok, ◌>>=◌}
use c_ares.Cmd.{Allocs}
use c_ares.Htable.{Htable, answer}
use c_ares.Htable.Buckets.{Granted, answer-Granted}
use c_ares.Htable.Map.{Represents, create-Represents}
use c_ares.Htable.Lookup.{get-Represents}
use c_ares.Htable.Insertion.{insert-Inserted, updated}
use c_ares.Htable.Removal.{remove-Removed, without}
use c_ares.Htable.Stvp.{Bucket, val_of, callbacks, create, insert, get, remove}

pub data Call (V : Type 0) : Type 0 where
  insertion : ℕ → V → Call V
  removal : ℕ → Call V

-- what a call that returned 1 or 0 does to the function
abbrev pub effect : {V : Type 0} → Call V → Bool → (ℕ → Option V) → ℕ → Option V
effect (insertion key val) true f q = if q == key then some val else f q
effect (insertion key val) false f q = f q
effect (removal key) returned f q = if q == key then none else f q

module _ (bytes : ℕ → List ℕ) {V : Type 0} where
  unfoldable pub call :
      Htable (Bucket V) → Call V → Allocs → Result (Bool × Htable (Bucket V) × Allocs)
  call t (insertion key val) a = insert bytes t key val a
  call t (removal key) a = remove bytes t key >>= λ r. ok (r.0, r.1, a)

  -- The calls in turn, and the function that they leave by what each returned.
  unfoldable pub run :
      Htable (Bucket V)
      → List (Call V)
      → Allocs
      → (ℕ → Option V)
      → Result (Htable (Bucket V) × (ℕ → Option V))
  unfolding call
  run t [] a f = ok (t, f)
  run t (c ∷ cs) a f = call t c a >>= λ r. run r.1 cs r.2 (effect c r.0 f)

  -- a table that reads as a function
  abbrev pub Reads : (ℕ → Option V) → Htable (Bucket V) → Type 0
  Reads f t =
      (g : ℕ → Option (Bucket V)) × Represents (callbacks bytes) g t
      × ((q : ℕ) → val_of (g q) ≡ f q)

  -- `remove` alone, which needs no memory
  pub remove-Reads :
      (f : ℕ → Option V) (t : Htable (Bucket V)) (key : ℕ)
      → Reads f t
      → (r : Bool × Htable (Bucket V)) × (remove bytes t key ≡ ok r)
        × Reads (effect (removal key) true f) r.1
  unfolding remove callbacks
  remove-Reads f t key (g, h, same) =
      let (r, done, w) = remove-Removed (callbacks bytes) h key in
      (r, done, (without (callbacks bytes) g key, w.represents, λ q. ground (arith, same q)))

  pub call-Reads :
      (f : ℕ → Option V) (t : Htable (Bucket V)) (c : Call V) (a : Allocs)
      → Reads f t
      → (r : Bool × Htable (Bucket V) × Allocs) × (call t c a ≡ ok r) × Reads (effect c r.0 f) r.1
  unfolding call insert remove callbacks
  call-Reads f t (removal key) a (g, h, same) =
      let (r, done, reads) = remove-Reads f t key (g, h, same) in
      ((r.0, r.1, a), rw (done, ◌>>=◌) refl, reads)
  call-Reads f t (insertion key val) a (g, h, same) = elim (Bool-cases (answer a).0) [
    | inr refused ↦ ((false, t, (answer a).1), rw refused refl, (g, h, same))
    | inl granted ↦
        let b : Bucket V = record { key = key; val = val } in
        let (r, done, w) = insert-Inserted (callbacks bytes) h b (answer a).1 in
        elim (Bool-cases r.0) [
          | inl made ↦ (
            r,
            rw granted done,
            rw made (updated (callbacks bytes) g b, w.represents made, λ q. ground (arith, same q)),
          )
          | inr unmade ↦ (r, rw granted done, rw unmade (g, (w.unchanged unmade).0, same))
        ]
  ]

  pub run-Reads :
      (f : ℕ → Option V) (t : Htable (Bucket V)) (cs : List (Call V)) (a : Allocs)
      → Reads f t
      → (r : Htable (Bucket V) × (ℕ → Option V)) × (run t cs a f ≡ ok r) × Reads r.1 r.0
  unfolding run
  run-Reads f t [] a h = ((t, f), refl, h)
  run-Reads f t (c ∷ cs) a h =
      let (r, done, next) = call-Reads f t c a h in
      let (s, ran, last) = run-Reads (effect c r.0 f) r.1 cs r.2 next in
      (s, rw (done, ◌>>=◌) ran, last)

  -- If the allocations of `create` succeed: any sequence of insertions and removals on the new
  -- table, whatever the allocator answers, ends with no access outside an array, and `get` then
  -- finds for every key what the calls that returned 1 have left there.
  pub run-get :
      (seed : ℕ) (first a : Allocs) (cs : List (Call V))
      → Granted first
      → (t : Htable (Bucket V)) × ((create seed first).0 ≡ some t)
        × (r : Htable (Bucket V) × (ℕ → Option V)) × (run t cs a (λ _. none) ≡ ok r)
        × ((key : ℕ) → get bytes r.0 key ≡ ok (r.1 key))
  unfolding create get
  run-get seed first a cs g =
      let (h, rest) = answer-Granted first g in
      let (t, made, _, _, _, empty) =
        create-Represents (callbacks bytes) seed (answer first).1 rest in
      let (r, ran, (f, held, same)) =
        run-Reads (λ _. none) t cs a ((λ _. none), empty, λ q. refl) in
      (
        t,
        rw h made,
        r,
        ran,
        λ key. rw (get-Represents (callbacks bytes) held key, ◌>>=◌) (ap ok (same key)),
      )
