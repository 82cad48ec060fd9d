-- ===== src/Htable/Insertion.antt =====
-- The insertion of a value as a change of a finite map.
use c_ares.Base.{
  ◌+◌, ◌*◌, ◌/◌, ◌^◌, ◌≤◌, ◌<◌, ◌≡◌, refl, ap, sym, ◌∙◌, arith, true, false, Bool-cases, inl, inr,
  Option, none, some, List, ◌∷◌, ◌++◌, length, set, if◌then◌else◌,
}
use c_ares.Result.{ok, ◌>>=◌}
use c_ares.Cmd.{Allocs}
use c_ares.Htable.{
  Callbacks, Htable, Done, nodes, hash_idx, find, replace, grow, insert_new, insert,
}
use c_ares.Htable.Chains.{matches, find-replace, count-replace, length-replace}
use c_ares.Htable.Buckets.{Granted, chain_at, at-chain_at, put_first-Placed}
use c_ares.Htable.View.{home, view, Holds, Same-Holds, set-Holds, cons-Holds}
use c_ares.Htable.Map.{Represents, grow-Grown}
use c_ares.Htable.Lookup.{Option-cases, to_list, Holds-congr, resized, filled, in_range}

module _ {K E : Type 0} (cb : Callbacks K E) where
  -- a map with a value put at its key
  abbrev pub updated : (K → Option E) → E → K → Option E
  updated f e q = if matches cb q e then some e else f q

  -- What `insert` leaves. A value that was replaced is freed, and is not counted again. Without
  -- memory the map is as it was.
  pub record Inserted (f : K → Option E) (t : Htable E) (e : E) (a : Allocs) (r : Done (Htable E))
      : Type 0 where
    pub represents : r.0 ≡ true → Represents cb (updated f e) r.1
    pub freed : r.0 ≡ true → r.1.freed ≡ to_list (f (cb.bucket_key e)) ++ t.freed
    pub counted :
        r.0 ≡ true → r.1.num_keys + length (to_list (f (cb.bucket_key e))) ≡ t.num_keys + 1
    pub unchanged :
        r.0 ≡ false → Represents cb f r.1 × (r.1.freed ≡ t.freed) × (r.1.num_keys ≡ t.num_keys)
    pub enough : Granted a → r.0 ≡ true

  module _ {f : K → Option E} {t : Htable E} (h : Represents cb f t) where
    in_front :
        (e : E)
        → f (cb.bucket_key e) ≡ none
        → let i = hash_idx cb t.seed t.size (cb.bucket_key e) in
          Holds cb t.seed t.size
            (t.num_keys + 1)
            (updated f e)
            (set t.buckets i (some (e ∷ chain_at t.buckets i)))
    in_front e absent =
        let key = cb.bucket_key e in
        rw (sym h.held.width) (
          Holds-congr cb
            (cons-Holds cb t.seed t.buckets (filled cb h) h.held.at_home key e (cb.key_eq_refl key)
              (h.held.reads key ∙ absent))
            (omega (arith, h.held.total_entries)) (λ q. ground (arith, h.held.reads q)))

    insert_new-Inserted :
        (e : E) (a : Allocs)
        → f (cb.bucket_key e) ≡ none
        → (t.size < 2 ^ 24 → t.num_keys + 1 ≤ t.size * 75 / 100)
        → (r : Done (Htable E)) × (insert_new cb t e a ≡ ok r) × Inserted f t e a r
    unfolding insert_new
    insert_new-Inserted e a absent room =
        let key = cb.bucket_key e in
        let (r, run, p) = put_first-Placed t.buckets _ e a (in_range cb h key) in
        elim (Bool-cases r.0) [
          | inl made ↦ (
            (true, record t { num_keys = t.num_keys + 1; buckets = r.1 }, r.2),
            rw (run, ◌>>=◌, made) refl,
            record {
              represents = λ _. record {
                held = rw (p.done made) (in_front e absent);
                power = h.power;
                sparse = room;
              };
              freed = λ _. rw absent refl;
              counted = λ _. rw absent (omega arith);
              unchanged = λ w. cc;
              enough = λ _. refl;
            },
          )
          | inr refused ↦ (
            (false, record t { buckets = r.1 }, r.2),
            rw (run, ◌>>=◌, refused) refl,
            record {
              represents = λ w. cc;
              freed = λ w. cc;
              counted = λ w. cc;
              unchanged = λ _. (
                record {
                  held =
                      resized cb
                        (Holds-congr cb (Same-Holds cb t.seed h.held.at_home (p.undone refused))
                          h.held.total_entries h.held.reads)
                        h.held.width;
                  power = h.power;
                  sparse = h.sparse;
                },
                refl,
                refl,
              );
              enough = λ g. absurd (cc (p.enough g).0);
            },
          )
        ]

  module _ {f : K → Option E} {t : Htable E} (h : Represents cb f t) where
    insert_fresh :
        (e : E) (a : Allocs)
        → f (cb.bucket_key e) ≡ none
        → (r : Done (Htable E)) × ((grow cb t a >>= λ r.
              if r.0 then insert_new cb r.1 e r.2 else ok (false, r.1, r.2))
            ≡ ok r)
          × Inserted f t e a r
    insert_fresh e a absent =
        let (r, run, g) = grow-Grown cb h a in
        elim (Bool-cases r.0) [
          | inl made ↦
              let (r2, run2, w) = insert_new-Inserted g.represents e r.2 absent (g.room made) in
              (
                r2,
                rw (run, ◌>>=◌, made) run2,
                record {
                  represents = w.represents;
                  freed = λ s. w.freed s ∙ ap (◌++◌ (to_list (f (cb.bucket_key e)))) g.freed;
                  counted = λ s. omega (arith, w.counted s, g.keys);
                  unchanged = λ s.
                      ((w.unchanged s).0, (w.unchanged s).1 ∙ g.freed, (w.unchanged s).2 ∙ g.keys);
                  enough = λ s. w.enough (g.enough s).1;
                },
              )
          | inr refused ↦ (
            (false, r.1, r.2),
            rw (run, ◌>>=◌, refused) refl,
            record {
              represents = λ w. cc;
              freed = λ w. cc;
              counted = λ w. cc;
              unchanged = λ _. (g.represents, g.freed, g.keys);
              enough = λ s. absurd (cc (g.enough s).0);
            },
          )
        ]

    replaced :
        (e old : E) (b : Option (List E))
        → f (cb.bucket_key e) ≡ some old
        → let i = hash_idx cb t.seed t.size (cb.bucket_key e) in
          nodes b ≡ chain_at t.buckets i
          → Holds cb t.seed t.size t.num_keys
              (updated f e)
              (set t.buckets i (some (replace cb (cb.bucket_key e) e (nodes b))))
    unfolding view
    replaced e old b present same =
        let key = cb.bucket_key e in
        let bucket = home cb t.seed t.buckets key in
        let found : find cb key bucket ≡ some old = h.held.reads key ∙ present in
        rw (same, sym h.held.width)
          (Holds-congr cb
            (set-Holds cb t.seed t.buckets (filled cb h) h.held.at_home key
              (updated (view cb t.seed t.buckets) e) (replace cb key e bucket) t.num_keys
              (omega (arith, h.held.total_entries, length-replace cb key e bucket))
              (λ q eq. (
                find-replace cb key q e bucket old (cb.key_eq_refl key) found ∙ rw eq refl,
                omega (
                  arith,
                  count-replace cb key q e bucket (cb.key_eq_refl key),
                  (h.held.at_home q (hash_idx cb t.seed (length t.buckets) key)).0,
                ),
              ))
              (λ q ne. (
                find-replace cb key q e bucket old (cb.key_eq_refl key) found ∙ rw ne refl,
                omega (arith, count-replace cb key q e bucket (cb.key_eq_refl key)),
                rw ne refl,
              )))
            refl (λ q. ground (arith, h.held.reads q)))

    -- For a table that represents a finite map, with every key in its bucket and once at most, a
    -- power of two of buckets and not overfull, and whatever the allocator answers: `insert` ends
    -- with no access outside the array. If it returns 1, the table represents the map with the
    -- value at its key, the value that was there is freed and no other, and the number of keys is
    -- right. If it returns 0, the map, the values freed and the number of keys are as before. If
    -- every allocation succeeds, it returns 1.
    pub insert-Inserted :
        (e : E) (a : Allocs) → (r : Done (Htable E)) × (insert cb t e a ≡ ok r) × Inserted f t e a r
    unfolding insert view
    insert-Inserted e a =
        let key = cb.bucket_key e in
        let (b, found, same) = at-chain_at t.buckets _ (in_range cb h key) in
        let read : find cb key (nodes b) ≡ f key = rw (same, sym h.held.width) (h.held.reads key) in
        elim (Option-cases (f key)) [
          | inl absent ↦
              let (r, run, w) = insert_fresh e a absent in
              (r, rw (found, ◌>>=◌, read, absent) run, w)
          | inr (old, present) ↦ (
            (true, record t { buckets = _; freed = old ∷ t.freed }, a),
            rw (found, ◌>>=◌, read, present) refl,
            record {
              represents = λ _. record {
                held = replaced e old b present same;
                power = h.power;
                sparse = h.sparse;
              };
              freed = λ _. rw present refl;
              counted = λ _. rw present (omega arith);
              unchanged = λ w. cc;
              enough = λ _. refl;
            },
          )
        ]
