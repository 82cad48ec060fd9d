-- ===== src/Start/Identifier.antt =====
-- The identifier of a query, `generate_unique_id` of src/lib/ares_query.c. The numbers that
-- `ares__generate_new_id` returns are a list; when it is used up the loop goes on.
use c_ares.Base.{ℕ, ◌≡◌, ◌≢◌, refl, ap, Option, none, some, List, [], ◌∷◌, ◌++◌, All}
use c_ares.Result.{Result, ok, stuck, ◌>>=◌}
use c_ares.Htable.{Htable}
use c_ares.Htable.Lookup.{get-Represents}
use c_ares.Htable.Stvp.{Bucket, callbacks, get}
use c_ares.Htable.Stvp.Runs.{Reads}

module _ (bytes : ℕ → List ℕ) {V : Type 0} where
  unfoldable pub generate_unique_id : Htable (Bucket V) → List ℕ → Result (ℕ × List ℕ)
  generate_unique_id t [] = stuck
  generate_unique_id t (id ∷ ids) =
      get bytes t id >>= λ v. elim v [ none ↦ ok (id, ids) | some _ ↦ generate_unique_id t ids ]

  module _ (f : ℕ → Option V) (t : Htable (Bucket V)) (reads : Reads bytes f t) where
    get-Reads : (key : ℕ) → get bytes t key ≡ ok (f key)
    unfolding get
    get-Reads key =
        let (g, held, same) = reads in
        rw (get-Represents (callbacks bytes) held key, ◌>>=◌) (ap ok (same key))

    next_id :
        (v : Option V) (id : ℕ) (ids : List ℕ)
        → v ≢ none
        → elim v as (λ _. Result (ℕ × List ℕ)) [
          | none ↦ ok (id, ids)
          | some _ ↦ generate_unique_id t ids
        ]
          ≡ generate_unique_id t ids
    next_id none id ids h = absurd (h refl)
    next_id (some x) id ids h = refl

    -- For a table that reads as a function: if the numbers drawn are some that are in use and then
    -- one that is not, `generate_unique_id` ends with that one, and the numbers behind it are
    -- left.
    pub generate_unique_id_lem :
        (used : List ℕ) (id : ℕ) (rest : List ℕ)
        → All (λ k. f k ≢ none) used
        → f id ≡ none
        → generate_unique_id t (used ++ id ∷ rest) ≡ ok (id, rest)
    unfolding generate_unique_id
    generate_unique_id_lem [] id rest h free = rw (get-Reads id, ◌>>=◌, free) refl
    generate_unique_id_lem (k ∷ used) id rest h free =
        rw (get-Reads k, ◌>>=◌, next_id (f k) k (used ++ id ∷ rest) h.0)
          (generate_unique_id_lem used id rest h.1 free)
