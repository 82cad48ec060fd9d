-- ===== src/Search/Refines.antt =====
-- The state machine of `ares_search` asks for the candidates in turn.
use c_ares.Base.{
  ℕ, suc, ◌+◌, ◌≡◌, refl, ◌∙◌, ap, arith, Bool, true, false, ◌||◌, List, [], ◌∷◌, get_elem?,
  if◌then◌else◌, Option, none, some,
}
use c_ares.Result.{Status}
use c_ares.Search.{Channel, SearchQuery, is_nodata, Outcome}
use c_ares.Search.Names.{Candidate, as_is, within}

-- `rest` is what is left of a list from the index `k`.
abbrev pub Left : {A : Type 0} → List A → ℕ → List A → Type 0
Left xs k [] = get_elem? xs k ≡ none
Left xs k (d ∷ rest) = (get_elem? xs k ≡ some d) × Left xs (k + 1) rest

get_elem?-next :
    {A : Type 0} (x : A) (xs : List A) (k : ℕ) → get_elem? (x ∷ xs) (k + 1) ≡ get_elem? xs k
get_elem?-next x xs k = let e : k + 1 ≡ suc k = omega arith in ap (get_elem? (x ∷ xs)) e

Left-cons :
    {A : Type 0} (x : A) (xs : List A) (k : ℕ) (rest : List A)
    → Left xs k rest
    → Left (x ∷ xs) (k + 1) rest
Left-cons x xs k [] h = get_elem?-next x xs k ∙ h
Left-cons x xs k (d ∷ rest) h = (get_elem?-next x xs k ∙ h.0, Left-cons x xs (k + 1) rest h.1)

pub Left-all : {A : Type 0} (xs : List A) → Left xs 0 xs
Left-all [] = refl
Left-all (x ∷ xs) = (refl, Left-cons x xs 0 xs (Left-all xs))

-- the state behind an answer that is not final
abbrev pub answered : SearchQuery → Status → ℕ → SearchQuery
answered q status timeouts = record q {
  timeouts = q.timeouts + timeouts;
  status_as_is = if q.trying_as_is then some status else q.status_as_is;
  ever_got_nodata = q.ever_got_nodata || is_nodata status;
}

module _ (ch : Channel) where
  abbrev state : List ℕ → Option Status → ℕ → Bool → ℕ → Bool → SearchQuery
  state name own k trying timeouts nodata = record {
    name = name;
    status_as_is = own;
    next_domain = k;
    trying_as_is = trying;
    timeouts = timeouts;
    ever_got_nodata = nodata;
  }

  abbrev is_own : Candidate → Bool
  is_own as_is = true
  is_own (within d) = false

  -- `shown` is a result in which a name stands first.
  abbrev shown : List ℕ → List (List ℕ) × Outcome → List (List ℕ) × Outcome
  shown s r = (s ∷ r.0, r.1)
