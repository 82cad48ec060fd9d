-- ===== src/Htable/Expand.antt =====
-- The move of all values to a larger array: the two loops are one loop over the values.
use mathlib.Core.Option.{or_else}
use mathlib.Core.Path.{fun_ext}
use c_ares.Base.{
  ℕ, ◌+◌, ◌≤◌, ◌<◌, ◌≡◌, refl, ap, sym, ◌∙◌, arith, true, false, Bool-cases, inl, inr, Option, none,
  some, List, [], ◌∷◌, ◌++◌, length, if◌then◌else◌,
}
use c_ares.Result.{Result, ok, ◌>>=◌, >>=_assoc}
use c_ares.Cmd.{Allocs}
use c_ares.Htable.{Callbacks, Done, nodes, hash_idx, find, put_first, move_chain, move_all}
use c_ares.Htable.Chains.{count, matches}
use c_ares.Htable.Buckets.{Granted, entries, put_first-Placed}
use c_ares.Htable.View.{hash_idx-lt, AtHome, view, Holds, cons-Holds}

module _ {K E : Type 0} (cb : Callbacks K E) (seed size : ℕ) where
  abbrev Array : Type 0
  Array = List (Option (List E))

  abbrev continue : List E → Done Array → Result (Done Array)
  continue c r = elim r.0 [ false ↦ ok r | true ↦ move_chain cb seed size c r.1 r.2 ]

  continue-append :
      (a b : List E)
      → ((fresh : Array) (h : Allocs)
          → move_chain cb seed size (a ++ b) fresh h
            ≡ (move_chain cb seed size a fresh h >>= continue b))
      → (r : Done Array) → continue (a ++ b) r ≡ (continue a r >>= continue b)
  continue-append a b next (true, fresh, h) = next fresh h
  continue-append a b next (false, fresh, h) = refl

  move_chain-append :
      (a b : List E) (fresh : Array) (h : Allocs)
      → move_chain cb seed size (a ++ b) fresh h
        ≡ (move_chain cb seed size a fresh h >>= continue b)
  unfolding move_chain
  move_chain-append [] b fresh h = refl
  move_chain-append (e ∷ a) b fresh h =
      let first = put_first fresh (hash_idx cb seed size (cb.bucket_key e)) e h in
      ap (◌>>=◌ first) (fun_ext (continue-append a b (move_chain-append a b)))
      ∙ sym (>>=_assoc first (continue a) (continue b))

  continue_all :
      (bs : Array)
      → ((fresh : Array) (h : Allocs)
          → move_all cb seed size bs fresh h ≡ move_chain cb seed size (entries bs) fresh h)
      → (r : Done Array)
      → elim r.0 as (λ _. Result (Done Array)) [
        | false ↦ ok r
        | true ↦ move_all cb seed size bs r.1 r.2
      ]
        ≡ continue (entries bs) r
  continue_all bs next (true, fresh, h) = next fresh h
  continue_all bs next (false, fresh, h) = refl

  pub move_all-entries :
      (bs fresh : Array) (h : Allocs)
      → move_all cb seed size bs fresh h ≡ move_chain cb seed size (entries bs) fresh h
  unfolding move_all move_chain entries
  move_all-entries [] fresh h = refl
  move_all-entries (b ∷ bs) fresh h =
      ap (◌>>=◌ (move_chain cb seed size (nodes b) fresh h))
        (fun_ext (continue_all bs (move_all-entries bs)))
      ∙ sym (move_chain-append (nodes b) (entries bs) fresh h)

  -- what the loop leaves, if every allocation succeeds and in general
  pub record Moved (es : List E) (fresh : Array) (a : Allocs) (r : Done Array) : Type 0 where
    pub done :
        r.0 ≡ true
        → Holds cb seed size
            (length (entries fresh) + length es)
            (λ q. or_else (view cb seed fresh q) (find cb q es))
            r.1
    pub enough : Granted a → (r.0 ≡ true) × Granted r.2

  pub move_chain-Moved :
      (es : List E) (fresh : Array) (a : Allocs)
      → 0 < size
      → length fresh ≡ size
      → AtHome cb seed fresh
      → ((q : K) → count cb q es ≤ 1)
      → ((q : K) → 0 < count cb q es → view cb seed fresh q ≡ none)
      → (r : Done Array) × (move_chain cb seed size es fresh a ≡ ok r) × Moved es fresh a r
  unfolding move_chain count find or_else
  move_chain-Moved [] fresh a pos w home once apart = (
    (true, fresh, a),
    refl,
    record {
      done = λ _. record {
        width = w;
        total_entries = omega arith;
        at_home = home;
        reads = λ q. ground arith;
      };
      enough = λ g. (refl, g);
    },
  )
  move_chain-Moved (e ∷ es) fresh a pos w home once apart =
      let key = cb.bucket_key e in
      let (r, run, p) =
        put_first-Placed fresh (hash_idx cb seed size key) e a
          (rw w (hash_idx-lt cb seed size key pos)) in
      elim (Bool-cases r.0) [
        | inr f ↦ (
          r,
          rw (run, ◌>>=◌, f) refl,
          record { done = λ t. cc; enough = λ g. absurd (ground (arith, p.enough g)) },
        )
        | inl t ↦
            let step : Holds cb seed size (length (entries fresh) + 1)
                (λ q. if matches cb q e then some e else view cb seed fresh q) r.1 =
              rw (p.done t, sym w)
                (cons-Holds cb seed fresh (rw w pos) home key e (cb.key_eq_refl key)
                  (apart key (rw cb.key_eq_refl (omega arith)))) in
            let (r2, run2, m) =
              move_chain-Moved es r.1 r.2 pos step.width step.at_home (λ q. omega (arith, once q))
                (λ q h. ground (arith, step.reads q, once q, apart q)) in
            (
              r2,
              rw (run, ◌>>=◌, t) run2,
              record {
                done = λ t2.
                    let h = m.done t2 in
                    record {
                      width = h.width;
                      total_entries = omega (arith, h.total_entries, step.total_entries);
                      at_home = h.at_home;
                      reads = λ q. ground (arith, h.reads q, step.reads q, apart q);
                    };
                enough = λ g. m.enough (p.enough g).1;
              },
            )
      ]
