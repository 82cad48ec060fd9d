-- ===== src/Htable/Lookup.antt =====
-- A lookup in the table as the value of a finite map, and what the changes share.
use c_ares.Base.{
  ℕ, ◌<◌, ◌≡◌, refl, sym, ◌∙◌, arith, inl, inr, Option, none, some, List, [], ◌∷◌, length, ◌⊎◌,
}
use c_ares.Result.{ok, ◌>>=◌}
use c_ares.Htable.{Callbacks, Htable, hash_idx, find, get}
use c_ares.Htable.Buckets.{chain_at, at-chain_at}
use c_ares.Htable.View.{hash_idx-lt, view, Holds}
use c_ares.Htable.Map.{size_bounds, Represents}

pub Option-cases : {A : Type 0} (o : Option A) → (o ≡ none) ⊎ ((x : A) × (o ≡ some x))
Option-cases none = inl refl
Option-cases (some x) = inr (x, refl)

-- the value that an option holds, as a list
abbrev pub to_list : {A : Type 0} → Option A → List A
to_list none = []
to_list (some x) = x ∷ []

module _ {K E : Type 0} (cb : Callbacks K E) where
  pub Holds-congr :
      {seed size m n : ℕ} {f g : K → Option E} {bs : List (Option (List E))}
      → Holds cb seed size m f bs
      → m ≡ n
      → ((q : K) → f q ≡ g q)
      → Holds cb seed size n g bs
  Holds-congr h e same = record {
    width = h.width;
    total_entries = h.total_entries ∙ e;
    at_home = h.at_home;
    reads = λ q. h.reads q ∙ same q;
  }

  pub resized :
      {seed size size' n : ℕ} {f : K → Option E} {bs : List (Option (List E))}
      → Holds cb seed size n f bs
      → size ≡ size'
      → Holds cb seed size' n f bs
  resized h e = record {
    width = h.width ∙ e;
    total_entries = h.total_entries;
    at_home = h.at_home;
    reads = h.reads;
  }

  module _ {f : K → Option E} {t : Htable E} (h : Represents cb f t) where
    pub filled : 0 < length t.buckets
    filled = let (lo, hi) = size_bounds t.size h.power in omega (arith, h.held.width)

    pub in_range : (k : K) → hash_idx cb t.seed t.size k < length t.buckets
    in_range k =
        let (lo, hi) = size_bounds t.size h.power in
        omega (arith, h.held.width, hash_idx-lt cb t.seed t.size k (omega arith))

    -- `get` reads the map.
    pub get-Represents : (k : K) → get cb t k ≡ ok (f k)
    unfolding get view
    get-Represents k =
        let (b, found, same) = at-chain_at t.buckets _ (in_range k) in
        let read : find cb k (chain_at t.buckets (hash_idx cb t.seed t.size k)) ≡ f k =
          rw (sym h.held.width) (h.held.reads k) in
        rw (found, ◌>>=◌, same, read) refl
