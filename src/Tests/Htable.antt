-- ===== src/Tests/Htable.antt =====
-- Hash tables.
use c_ares.Base.{
  ℕ, ◌/◌, ◌%◌, ◌^◌, ◌≡◌, refl, arith, Bool, true, false, Option, none, some, List, [], ◌∷◌, map,
  replicate,
}
use c_ares.Text.{tolower}
use c_ares.Result.{ok, ◌>>=◌}
use c_ares.Htable.{Callbacks, Htable, Done, min_buckets}
use c_ares.Htable
use c_ares.Htable.Map.{Represents}
use c_ares.Htable.View.{replicate-Holds}
use c_ares.Htable.Lookup.{get-Represents}
use c_ares.Htable.Insertion.{Inserted, insert-Inserted}
use c_ares.Htable.Removal.{Removed, remove-Removed}
use c_ares.Htable.Hash.{hash_fnv1a, hash_fnv1a_casecmp, mix, fnv1a, hash_fnv1a_casecmp-fnv1a}
use c_ares.Htable.Stvp.{Bucket, callbacks, create, insert, get, remove}
use c_ares.Htable.Stvp.Runs.{Call, insertion, removal, run, run-get}

-- eight bytes, the lowest first
abbrev bytes : ℕ → List ℕ
bytes k = map (λ n. k / 256 ^ n % 256) (0 ∷ 1 ∷ 2 ∷ 3 ∷ 4 ∷ 5 ∷ 6 ∷ 7 ∷ [])

abbrev cb : Callbacks ℕ (Bucket ℕ)
cb = callbacks bytes

abbrev calls : List (Call ℕ)
calls = insertion 7 70 ∷ insertion 8 80 ∷ insertion 7 71 ∷ removal 8 ∷ insertion 9 90 ∷ []

abbrev table : Htable (Bucket ℕ)
table = record {
  seed = 2166136261;
  size = 16;
  num_keys = 0;
  buckets = replicate 16 none;
  freed = [];
}

-- the last value of key 7, none for the keys removed and refused
run_values :
    (run bytes table calls (true ∷ true ∷ true ∷ true ∷ true ∷ true ∷ true ∷ false ∷ []) (λ _. none)
      >>= λ r. ok (map r.1 (7 ∷ 8 ∷ 9 ∷ [])))
    ≡ ok (some 71 ∷ none ∷ none ∷ [])
unfolding run insert remove callbacks Htable.insert Htable.remove Htable.at Htable.find
    Htable.replace Htable.erase Htable.grow Htable.insert_new Htable.put_first Htable.hash_idx
    hash_fnv1a mix
run_values = refl

table-Represents : Represents cb (λ _. none) table
table-Represents = record {
  held = replicate-Holds cb 2166136261 16;
  power = (4, refl, omega arith, omega arith);
  sparse = λ _. omega arith;
}

abbrev bucket : Bucket ℕ
bucket = record { key = 7; val = 70 }

insert-Inserted_example :
    (r : Done (Htable (Bucket ℕ))) × (Htable.insert cb table bucket (true ∷ false ∷ []) ≡ ok r)
    × Inserted cb (λ _. none) table bucket (true ∷ false ∷ []) r
insert-Inserted_example = insert-Inserted cb table-Represents bucket (true ∷ false ∷ [])

remove-Removed_example :
    (r : Bool × Htable (Bucket ℕ)) × (Htable.remove cb table 7 ≡ ok r)
    × Removed cb (λ _. none) table 7 r
remove-Removed_example = remove-Removed cb table-Represents 7

get-Represents_example : Htable.get cb table 7 ≡ ok none
get-Represents_example = get-Represents cb table-Represents 7

run-get_example :
    (t : Htable (Bucket ℕ)) × ((create 5 []).0 ≡ some t)
    × (r : Htable (Bucket ℕ) × (ℕ → Option ℕ)) × (run bytes t calls (true ∷ false ∷ []) (λ _. none)
        ≡ ok r)
    × ((key : ℕ) → get bytes r.0 key ≡ ok (r.1 key))
run-get_example = run-get bytes 5 [] (true ∷ false ∷ []) calls tt

hash_fnv1a_casecmp-fnv1a_example :
    (hash_fnv1a (65 ∷ []) 5 ≡ fnv1a (65 ∷ []) 5)
    × (hash_fnv1a_casecmp tolower (65 ∷ []) 5 ≡ fnv1a (map tolower (65 ∷ [])) 5)
hash_fnv1a_casecmp-fnv1a_example = hash_fnv1a_casecmp-fnv1a tolower (65 ∷ []) 5
