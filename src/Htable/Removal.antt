-- ===== src/Htable/Removal.antt =====
-- The removal of a key from the table as a removal from a finite map.
use c_ares.Base.{
  ◌+◌, ◌-◌, ◌≤◌, ◌≡◌, refl, sym, ◌∙◌, arith, Bool, true, false, inl, inr, Option, none, some, List,
  [], ◌∷◌, ◌++◌, length, set, if◌then◌else◌, ◌↔◌,
}
use c_ares.Result.{ok, ◌>>=◌}
use c_ares.Htable.{Callbacks, Htable, nodes, hash_idx, find, erase, remove}
use c_ares.Htable.Chains.{
  find-count_zero, count-find-none, find-erase, count-erase-le, length-erase,
}
use c_ares.Htable.Buckets.{chain_at, at-chain_at, length-entries-set}
use c_ares.Htable.View.{hash_idx-lt, hash_idx-congr, home, view, Holds, set-Holds}
use c_ares.Htable.Map.{Represents}
use c_ares.Htable.Lookup.{Option-cases, to_list, Holds-congr, filled, in_range}

module _ {K E : Type 0} (cb : Callbacks K E) where
  -- a map without a key
  abbrev pub without : (K → Option E) → K → K → Option E
  without f k q = if cb.key_eq q k then none else f q

  -- What `remove` leaves. The value that the key had is freed.
  pub record Removed (f : K → Option E) (t : Htable E) (k : K) (r : Bool × Htable E) : Type 0 where
    pub represents : Represents cb (without f k) r.1
    pub found : (r.0 ≡ false) ↔ (f k ≡ none)
    pub freed : r.1.freed ≡ to_list (f k) ++ t.freed
    pub counted : r.1.num_keys + length (to_list (f k)) ≡ t.num_keys

  module _ {f : K → Option E} {t : Htable E} (h : Represents cb f t) where
    absent_alike : (k q : K) → f k ≡ none → cb.key_eq q k ≡ true → f q ≡ none
    unfolding view
    absent_alike k q absent eq =
        let bucket = home cb t.seed t.buckets k in
        sym (h.held.reads q)
        ∙ rw (hash_idx-congr cb t.seed (length t.buckets) q k eq) (
            find-count_zero cb q bucket
              (count-find-none cb k q bucket (h.held.reads k ∙ absent) eq))

    erased :
        (k : K) (old : E) (b : Option (List E))
        → f k ≡ some old
        → let i = hash_idx cb t.seed t.size k in
          nodes b ≡ chain_at t.buckets i
          → (1 ≤ t.num_keys)
            × Holds cb t.seed t.size
                (t.num_keys - 1)
                (without f k)
                (set t.buckets i (some (erase cb k (nodes b))))
    unfolding view
    erased k old b present same =
        let i = hash_idx cb t.seed (length t.buckets) k in
        let bucket = home cb t.seed t.buckets k in
        let found : find cb k bucket ≡ some old = h.held.reads k ∙ present in
        let shorter = length-erase cb k bucket old found in
        let least : 1 ≤ t.num_keys = omega (
          arith,
          shorter,
          h.held.total_entries,
          length-entries-set t.buckets i []
              (hash_idx-lt cb t.seed (length t.buckets) k (filled cb h)),
        ) in
        (
          least,
          rw (same, sym h.held.width)
              (Holds-congr cb
                (set-Holds cb t.seed t.buckets (filled cb h) h.held.at_home k
                  (without (view cb t.seed t.buckets) k) (erase cb k bucket) (t.num_keys - 1)
                  (omega (arith, h.held.total_entries, shorter, least))
                  (λ q eq. (
                    find-erase cb k q bucket (h.held.at_home q i).0 ∙ rw eq refl,
                    omega (arith, count-erase-le cb k q bucket, (h.held.at_home q i).0),
                  ))
                  (λ q ne. (
                    find-erase cb k q bucket (h.held.at_home q i).0 ∙ rw ne refl,
                    count-erase-le cb k q bucket,
                    rw ne refl,
                  )))
                refl (λ q. ground (arith, h.held.reads q))),
        )

    -- For a table that represents a finite map, with every key in its bucket and once at most, a
    -- power of two of buckets and not overfull: `remove` ends with no access outside the array,
    -- the table represents the map without the key, the value that the key had is freed and no
    -- other, and the number of keys is right. It returns 0 exactly if the map has no such key.
    pub remove-Removed : (k : K) → (r : Bool × Htable E) × (remove cb t k ≡ ok r) × Removed f t k r
    unfolding remove view
    remove-Removed k =
        let (b, found, same) = at-chain_at t.buckets _ (in_range cb h k) in
        let read : find cb k (nodes b) ≡ f k = rw (same, sym h.held.width) (h.held.reads k) in
        elim (Option-cases (f k)) [
          | inl absent ↦ (
            (false, t),
            rw (found, ◌>>=◌, read, absent) refl,
            record {
              represents = record {
                held = Holds-congr cb h.held refl (λ q. ground (arith, absent_alike k q absent));
                power = h.power;
                sparse = h.sparse;
              };
              found = (λ _. absent, λ _. refl);
              freed = rw absent refl;
              counted = rw absent (omega arith);
            },
          )
          | inr (old, present) ↦
              let (least, held) = erased k old b present same in
              (
                (true, record t { num_keys = t.num_keys - 1; buckets = _; freed = old ∷ t.freed }),
                rw (found, ◌>>=◌, read, present) refl,
                record {
                  represents = record {
                    held = held;
                    power = h.power;
                    sparse = λ s. omega (arith, h.sparse s);
                  };
                  found = (λ w. cc, λ w. cc);
                  freed = rw present refl;
                  counted = rw present (omega (arith, least));
                },
              )
        ]
