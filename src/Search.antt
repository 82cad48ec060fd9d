-- ===== src/Search.antt =====
-- src/lib/ares_search.c: the names that a search asks for. `ares_query` is a step to the outside: an
-- action hands a name over, and an answer comes back as a status and a number of timeouts.
pub mod Names
pub mod Refines
pub mod Total
use c_ares.Base.{
  ℕ, zero, suc, ◌+◌, Bool, true, false, not, ◌&&◌, ◌||◌, List, [], ◌∷◌, length, get_elem?, drop,
  take, leb, ◌==◌, if◌then◌else◌, Option, none, some,
}
use c_ares.Result.{
  Status, success, enodata, eservfail, enotfound, ebadname, efile, eof, enomem, Result, ok, fail,
  fault, stuck,
}
use c_ares.Cmd.{Allocs, Cmd, put, malloc, malloc_node, lift, pure, raise, ◌>>=◌, ◌>>◌, attempt}
use c_ares.Wire.Copy.{puts}
use c_ares.Text.{same_text, is_onion_domain}

-- what the search reads of a channel
pub record Channel : Type 0 where
  pub domains : List (List ℕ)
  pub ndots : ℕ
  pub noaliases : Bool
  pub nosearch : Bool

-- `s = malloc(strlen(name) + 1)`, with a copy of the name: `ares_strdup`
unfoldable pub strdup : List ℕ → Cmd (List ℕ)
strdup name = do
  s ← malloc (length name + 1)
  q ← lift (puts name s)
  _ ← lift (put 0 q)
  pure q.text

-- `ares__cat_domain`
unfoldable pub cat_domain : List ℕ → List ℕ → Cmd (List ℕ)
cat_domain name domain = do
  s ← malloc (length name + 1 + length domain + 1)
  q1 ← lift (puts name s)
  q2 ← lift (put b'.' q1)
  q3 ← lift (puts domain q2)
  _ ← lift (put 0 q3)
  pure q3.text

-- `isspace`, in the C locale
unfoldable pub isspace : ℕ → Bool
isspace c = c == b' ' || (leb 9 c && leb c 13)

unfoldable pub skip_spaces : List ℕ → List ℕ
skip_spaces [] = []
skip_spaces (c ∷ p) = let rest = skip_spaces p in if isspace c then rest else c ∷ p

-- the characters up to a space, behind the first one
unfoldable pub word : List ℕ → List ℕ
word [] = []
word (c ∷ q) = let rest = word q in if isspace c then [] else c ∷ rest

-- the alias in a line of the file, if the line is one for `name`; `line[len]` is NUL at the end
unfoldable pub alias_of : List ℕ → List ℕ → Option (List ℕ)
alias_of name line =
    if same_text (take (length name) line) name
    then elim (drop (length name) line) [
      | [] ↦ none
      | c ∷ p ↦
          if isspace c
          then elim (skip_spaces (c ∷ p)) [ [] ↦ none | d ∷ q ↦ some (d ∷ word q) ]
          else none
    ]
    else none

-- The file that HOSTALIASES names: none, one that does not exist, one that cannot be opened, or its
-- lines and the status with which `ares__read_line` ends.
pub data Aliases : Type 0 where
  unset missing unreadable : Aliases
  file : List (List ℕ) → Status → Aliases

-- the loop over the lines: the alias, or how the reading ends
unfoldable pub find_alias : List ℕ → List (List ℕ) → Option (List ℕ)
find_alias name [] = none
find_alias name (line ∷ lines) = elim (alias_of name line) [
  | none ↦ find_alias name lines
  | some s ↦ some s
]

-- `ares__single_domain` behind the aliases
unfoldable pub without_alias : Channel → List ℕ → Cmd (Option (List ℕ))
without_alias ch name =
    if ch.nosearch || length ch.domains == 0 then (do s ← strdup name; pure (some s)) else pure none

abbrev pub contains_dot : List ℕ → Bool
contains_dot [] = false
contains_dot (c ∷ cs) = c == b'.' || contains_dot cs

abbrev pub ends_in_dot : List ℕ → Bool
ends_in_dot [] = false
ends_in_dot (c ∷ []) = c == b'.'
ends_in_dot (c ∷ d ∷ cs) = ends_in_dot (d ∷ cs)

abbrev pub after_file : Channel → List ℕ → Status → Cmd (Option (List ℕ))
after_file ch name success = without_alias ch name
after_file ch name eof = without_alias ch name
after_file ch name s = raise s

unfoldable pub try_aliases : Channel → Aliases → List ℕ → Cmd (Option (List ℕ))
try_aliases ch unset name = without_alias ch name
try_aliases ch missing name = without_alias ch name
try_aliases ch unreadable name = raise efile
try_aliases ch (file lines end) name = elim (find_alias name lines) [
  | some s ↦ do t ← strdup s; pure (some t)
  | none ↦ after_file ch name end
]

-- `ares__single_domain`: the only name to ask for, if there is just one
unfoldable pub single_domain : Channel → Aliases → List ℕ → Cmd (Option (List ℕ))
single_domain ch aliases name =
    if ends_in_dot name
    then (do s ← strdup name; pure (some s))
    else if not ch.noaliases && not (contains_dot name)
    then try_aliases ch aliases name
    else without_alias ch name

-- `struct search_query`; `status_as_is` is -1 as long as it is `none`.
pub record SearchQuery : Type 0 where
  pub name : List ℕ
  pub status_as_is : Option Status
  pub next_domain : ℕ
  pub trying_as_is : Bool
  pub timeouts : ℕ
  pub ever_got_nodata : Bool

-- What the code does next: `ares_query` with `search_callback`, `ares_query` with the callback of
-- the caller, or that callback, with a status and the timeouts.
pub data Action : Type 0 where
  ask : List ℕ → SearchQuery → Action
  hand_over : List ℕ → Action
  finish : Status → ℕ → Action

unfoldable pub count_dots : List ℕ → ℕ
count_dots [] = 0
count_dots (c ∷ cs) = let rest = count_dots cs in if c == b'.' then suc rest else rest

-- the choice of the first name
unfoldable pub first_query : Channel → SearchQuery → Cmd Action
first_query ch squery =
    if leb ch.ndots (count_dots squery.name)
    then pure (ask squery.name (record squery { next_domain = 0; trying_as_is = true }))
    else elim (get_elem? ch.domains 0) [
      | none ↦ lift fault
      | some domain ↦ do
        s ← cat_domain squery.name domain
        pure (ask s (record squery { next_domain = 1; trying_as_is = false }))
    ]

-- the only name, or the first of several
unfoldable pub start_search : Channel → List ℕ → Option (List ℕ) → Cmd Action
start_search ch name (some s) = pure (hand_over s)
start_search ch name none = do
  malloc_node
  copy ← strdup name
  first_query ch (record {
    name = copy;
    status_as_is = none;
    next_domain = 0;
    trying_as_is = false;
    timeouts = 0;
    ever_got_nodata = false;
  })

-- `ares_search`: a failure is the status of the callback, with no timeouts.
unfoldable pub search : Channel → Aliases → List ℕ → Cmd Action
search ch aliases name =
    if is_onion_domain name
    then raise enotfound
    else (do single ← single_domain ch aliases name; start_search ch name single)

-- `status != ARES_ENODATA && status != ARES_ESERVFAIL && status != ARES_ENOTFOUND`
abbrev pub is_final : Status → Bool
is_final enodata = false
is_final eservfail = false
is_final enotfound = false
is_final s = true

abbrev pub is_nodata : Status → Bool
is_nodata enodata = true
is_nodata s = false

-- the status at the end of the list
abbrev pub last_status : Status → Bool → Status
last_status enotfound true = enodata
last_status s nodata = s

-- the next name, behind an answer without a result
unfoldable pub next_query : Channel → SearchQuery → Cmd Action
next_query ch squery = elim (get_elem? ch.domains squery.next_domain) [
  | some domain ↦
      attempt (cat_domain squery.name domain)
        (λ s.
          pure
            (ask s (record squery { trying_as_is = false; next_domain = squery.next_domain + 1 })))
        (λ status. pure (finish status squery.timeouts))
  | none ↦ elim squery.status_as_is [
    | none ↦ pure (ask squery.name (record squery { trying_as_is = true }))
    | some status ↦ pure (finish (last_status status squery.ever_got_nodata) squery.timeouts)
  ]
]

unfoldable pub search_callback : Channel → SearchQuery → Status → ℕ → Cmd Action
search_callback ch squery status timeouts =
    if is_final status
    then pure (finish status (squery.timeouts + timeouts))
    else next_query ch (record squery {
      timeouts = squery.timeouts + timeouts;
      status_as_is = if squery.trying_as_is then some status else squery.status_as_is;
      ever_got_nodata = squery.ever_got_nodata || is_nodata status;
    })

-- How a run ends: with the callback of the caller, with the name handed over, or with a query that
-- has no answer yet.
pub data Outcome : Type 0 where
  finished : Status → ℕ → Outcome
  handed_over waiting : Outcome

-- The run on a list of answers: the names that are asked for, and the end.
unfoldable pub run : Channel → List (Status × ℕ) → Action → Cmd (List (List ℕ) × Outcome)
run ch answers (finish status timeouts) = pure ([], finished status timeouts)
run ch answers (hand_over s) = pure (s ∷ [], handed_over)
run ch [] (ask s squery) = pure (s ∷ [], waiting)
run ch (a ∷ answers) (ask s squery) = do
  action ← search_callback ch squery a.0 a.1
  (names, outcome) ← run ch answers action
  pure (s ∷ names, outcome)
