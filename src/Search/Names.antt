-- ===== src/Search/Names.antt =====
-- What a search should ask for, without the state machine of src/lib/ares_search.c.
use mathlib.Core.List.{append_assoc}
use c_ares.Base.{
  ℕ, ◌+◌, ◌≡◌, refl, ap, arith, Bool, ◌||◌, List, [], ◌∷◌, ◌++◌, length, map, leb, if◌then◌else◌,
}
use c_ares.Result.{Status, ok}
use c_ares.Cmd.{malloc}
use c_ares.Cmd.Put.{put-ok}
use c_ares.Wire.Copy.{puts-ok}
use c_ares.Search.{
  Channel, strdup, cat_domain, count_dots, is_final, is_nodata, last_status, Outcome, finished,
  waiting,
}

-- a name in a domain
abbrev pub in_domain : List ℕ → List ℕ → List ℕ
in_domain name domain = name ++ (b'.' ∷ domain)

pub strdup-ok : (name : List ℕ) → strdup name [] ≡ ok (name, [])
unfolding strdup malloc
strdup-ok name =
    rw
      (
        puts-ok name (record { room = length name + 1; text = [] }) 1 (omega arith),
        put-ok 0 (record { room = 1; text = name }) 0 refl,
      )
      refl

pub cat_domain-ok :
    (name domain : List ℕ) → cat_domain name domain [] ≡ ok (in_domain name domain, [])
unfolding cat_domain malloc
cat_domain-ok name domain =
    rw
      (
        puts-ok name (record { room = length name + 1 + length domain + 1; text = [] })
            (length domain + 2) (omega arith),
        put-ok b'.' (record { room = length domain + 2; text = name }) (length domain + 1)
            (omega arith),
        puts-ok domain (record { room = length domain + 1; text = name ++ b'.' ∷ [] }) 1 refl,
        put-ok 0 (record { room = 1; text = (name ++ b'.' ∷ []) ++ domain }) 0 refl,
      )
      (ap (λ t. ok (t, [])) (append_assoc name (b'.' ∷ []) domain))

-- A candidate: the name as it is, or in a domain.
pub data Candidate : Type 0 where
  as_is : Candidate
  within : List ℕ → Candidate

abbrev pub text_of : List ℕ → Candidate → List ℕ
text_of name as_is = name
text_of name (within domain) = in_domain name domain

-- The name as it is comes first if it has enough dots, and last if not.
abbrev pub candidates : Channel → List ℕ → List Candidate
candidates ch name =
    if leb ch.ndots (count_dots name)
    then as_is ∷ map within ch.domains
    else map within ch.domains ++ as_is ∷ []

-- The candidates are asked for in turn, until an answer is final. If none is, the status is that of
-- the name as it is, or ARES_ENODATA in place of ARES_ENOTFOUND if an answer was ARES_ENODATA.
abbrev pub own_status : Candidate → Status → Status → Status
own_status as_is status own = status
own_status (within domain) status own = own

unfoldable pub walk :
    List ℕ → List Candidate → List (Status × ℕ) → Status → Bool → ℕ → List (List ℕ) × Outcome
walk name [] answers own nodata timeouts = ([], finished (last_status own nodata) timeouts)
walk name (c ∷ cs) [] own nodata timeouts = (text_of name c ∷ [], waiting)
walk name (c ∷ cs) (a ∷ answers) own nodata timeouts =
    let rest =
      walk name cs answers (own_status c a.0 own) (nodata || is_nodata a.0) (timeouts + a.1) in
    if is_final a.0
    then (text_of name c ∷ [], finished a.0 (timeouts + a.1))
    else (text_of name c ∷ rest.0, rest.1)
