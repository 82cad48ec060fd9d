-- ===== src/Htable/Map.antt =====
-- The table as a finite map from keys to values, and the growth of the array.
use native.Mathlib.Nat.{pow-le-pow_right, pow-suc}
use mathlib.Core.Option.{or_else}
use native.Mathlib.Decide.{ℕ_discrete}
use c_ares.Base.{
  ℕ, suc, ◌+◌, ◌*◌, ◌/◌, ◌%◌, ◌^◌, ◌≤◌, ◌<◌, ◌≡◌, ◌≢◌, refl, ap, sym, ◌∙◌, arith, Bool, true, false,
  Bool-cases, inl, inr, Option, none, some, List, [], ◌∷◌, replicate, ltb, ◌==◌, ==_iff,
}
use c_ares.Result.{ok, ◌>>=◌}
use c_ares.Cmd.{Allocs}
use c_ares.Htable.{Callbacks, Htable, Done, answer, max_buckets, create, move_all, expand, grow}
use c_ares.Htable.Buckets.{Granted, answer-Granted, entries}
use c_ares.Htable.View.{entries-view, Holds, replicate-Holds}
use c_ares.Htable.Expand.{move_all-entries, move_chain-Moved}

-- the sizes of the array: a power of two
abbrev pub IsSize : ℕ → Type 0
IsSize n = (p : ℕ) × (n ≡ 2 ^ p) × (4 ≤ p) × (p ≤ 24)

pub size_bounds : (n : ℕ) → IsSize n → (16 ≤ n) × (n ≤ max_buckets)
size_bounds n (p, e, lo, hi) = (
  rw e (pow-le-pow_right {n = 2} (omega arith) {i = 4} {j = p} lo),
  rw e (pow-le-pow_right {n = 2} (omega arith) {i = p} {j = 24} hi),
)

IsSize-double : (n : ℕ) → IsSize n → n ≢ max_buckets → IsSize (n * 2)
IsSize-double n (p, e, lo, hi) ne = elim (ℕ_discrete p 24) [
  | yes same ↦ absurd (ne (e ∙ ap (◌^◌ 2) same))
  | no other ↦ (suc p, rw e (sym (pow-suc 2 p)), omega arith, omega arith)
]

module _ {K E : Type 0} (cb : Callbacks K E) where
  -- A table with all values at home that reads as `f` and is not overfull.
  pub record Represents (f : K → Option E) (t : Htable E) : Type 0 where
    pub held : Holds cb t.seed t.size t.num_keys f t.buckets
    pub power : IsSize t.size
    pub sparse : t.size < max_buckets → t.num_keys ≤ t.size * 75 / 100

  -- `create` makes an empty table if its allocations succeed.
  pub create-Represents :
      (seed : ℕ) (a : Allocs)
      → Granted a
      → (t : Htable E) × ((create seed a).0 ≡ some t)
        × (t.num_keys ≡ 0)
        × (t.seed ≡ seed)
        × (t.freed ≡ [])
        × Represents (λ _. none) t
  unfolding create
  create-Represents seed [] g = (
    _,
    refl,
    refl,
    refl,
    refl,
    record {
      held = replicate-Holds cb seed 16;
      power = (4, refl, omega arith, omega arith);
      sparse = λ _. omega arith;
    },
  )
  create-Represents seed (true ∷ []) g = (
    _,
    refl,
    refl,
    refl,
    refl,
    record {
      held = replicate-Holds cb seed 16;
      power = (4, refl, omega arith, omega arith);
      sparse = λ _. omega arith;
    },
  )
  create-Represents seed (true ∷ true ∷ a) g = (
    _,
    refl,
    refl,
    refl,
    refl,
    record {
      held = replicate-Holds cb seed 16;
      power = (4, refl, omega arith, omega arith);
      sparse = λ _. omega arith;
    },
  )
  create-Represents seed (false ∷ a) g = cc
  create-Represents seed (true ∷ false ∷ a) g = cc

  -- what `grow` leaves: the map as it was, and room for one more value if it succeeds
  pub record Grown (f : K → Option E) (t : Htable E) (a : Allocs) (r : Done (Htable E))
      : Type 0 where
    pub represents : Represents f r.1
    pub keys : r.1.num_keys ≡ t.num_keys
    pub freed : r.1.freed ≡ t.freed
    pub seed : r.1.seed ≡ t.seed
    pub room : r.0 ≡ true → r.1.size < max_buckets → r.1.num_keys + 1 ≤ r.1.size * 75 / 100
    pub enough : Granted a → (r.0 ≡ true) × Granted r.2

  module _ {f : K → Option E} {t : Htable E} (h : Represents f t) where
    stays :
        (ok? : Bool) (a b : Allocs)
        → (ok? ≡ true → t.size < max_buckets → t.num_keys + 1 ≤ t.size * 75 / 100)
        → (Granted a → (ok? ≡ true) × Granted b)
        → Grown f t a (ok?, t, b)
    stays ok? a b room enough = record {
      represents = h;
      keys = refl;
      freed = refl;
      seed = refl;
      room = room;
      enough = enough;
    }

    moved :
        (a : Allocs)
        → t.size ≢ max_buckets
        → (answer a).0 ≡ true
        → (r : Done (List (Option (List E)))) × (move_all cb t.seed
              (t.size * 2)
              t.buckets
              (replicate (t.size * 2) none)
              (answer a).1
            ≡ ok r)
          × (r.0 ≡ true → Holds cb t.seed (t.size * 2) t.num_keys f r.1)
          × (Granted a → (r.0 ≡ true) × Granted r.2)
    unfolding or_else
    moved a below granted =
        let size = t.size * 2 in
        let start = replicate-Holds cb t.seed size in
        let (lo, hi) = size_bounds t.size h.power in
        let (r, run, m) =
          move_chain-Moved cb t.seed size (entries t.buckets) (replicate size none) (answer a).1
            (omega arith) start.width start.at_home
            (λ q. (entries-view cb t.seed t.buckets q h.held.at_home).1) (λ q _. start.reads q) in
        (
          r,
          move_all-entries cb t.seed size t.buckets (replicate size none) (answer a).1 ∙ run,
          λ made.
              let held = m.done made in
              record {
                width = held.width;
                total_entries =
                    omega (arith, held.total_entries, start.total_entries, h.held.total_entries);
                at_home = held.at_home;
                reads = λ q.
                    held.reads q
                    ∙ rw (start.reads q)
                        ((entries-view cb t.seed t.buckets q h.held.at_home).0 ∙ h.held.reads q);
              },
          λ g. m.enough (answer-Granted a g).1,
        )

    pub expand-Grown : (a : Allocs) → (r : Done (Htable E)) × (expand cb t a ≡ ok r) × Grown f t a r
    unfolding expand
    expand-Grown a =
        let (lo, hi) = size_bounds t.size h.power in
        elim (Bool-cases (t.size == max_buckets)) [
          | inl full ↦ (
            (true, t, a),
            rw full refl,
            stays true a a (λ _ below. absurd (omega (arith, (==_iff t.size max_buckets).0 full)))
                (λ g. (refl, g)),
          )
          | inr wide ↦
              let below : t.size ≢ max_buckets = λ e. ground arith in
              let wrap : t.size * 2 % 2 ^ 32 ≡ t.size * 2 = omega arith in
              elim (Bool-cases (answer a).0) [
                | inr refused ↦ (
                  (false, t, (answer a).1),
                  rw (wide, refused) refl,
                  stays false a _ (λ made. cc) (λ g. absurd (cc (answer-Granted a g).0)),
                )
                | inl granted ↦
                    let (r, run, held, enough) = moved a below granted in
                    elim (Bool-cases r.0) [
                      | inr f ↦ (
                        (false, t, r.2),
                        rw (wide, granted, wrap, run, ◌>>=◌, f) refl,
                        stays false a _ (λ made. cc) (λ g. absurd (cc (enough g).0)),
                      )
                      | inl made ↦ (
                        (true, record t { size = t.size * 2; buckets = r.1 }, r.2),
                        rw (wide, granted, wrap, run, ◌>>=◌, made) refl,
                        record {
                          represents = record {
                            held = held made;
                            power = IsSize-double t.size h.power below;
                            sparse = λ s. omega (arith, h.sparse);
                          };
                          keys = refl;
                          freed = refl;
                          seed = refl;
                          room = λ _ s. omega (arith, h.sparse (omega arith));
                          enough = λ g. (refl, (enough g).1);
                        },
                      )
                    ]
              ]
        ]

    pub grow-Grown : (a : Allocs) → (r : Done (Htable E)) × (grow cb t a ≡ ok r) × Grown f t a r
    unfolding grow
    grow-Grown a = elim (Bool-cases (ltb (t.size * 75 % 2 ^ 32 / 100) (t.num_keys + 1))) [
      | inl over ↦ let (r, run, g) = expand-Grown a in (r, rw over run, g)
      | inr under ↦
          let (lo, hi) = size_bounds t.size h.power in
          ((true, t, a), rw under refl, stays true a a (λ _ _. ground arith) (λ g. (refl, g)))
    ]
