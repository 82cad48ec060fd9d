-- ===== src/Search/Total.antt =====
-- A search ends, whatever the allocator answers.
use mathlib.Core.Path.{subst}
use c_ares.Base.{
  ℕ, zero, suc, ◌+◌, ◌≤◌, ◌<◌, ◌≡◌, ◌≢◌, refl, sym, ap, arith, Bool, true, false, not, ◌&&◌, ◌||◌,
  List, [], ◌∷◌, length, get_elem?, leb, ◌==◌, if◌then◌else◌, Option, none, some,
}
use c_ares.Result.{Status, enomem, success, eof, fault}
use c_ares.Cmd.{lift, pure, ◌>>=◌}
use c_ares.Cmd.Put.{put-Ensures}
use c_ares.Cmd.Safe.{
  Safe-attempt, Safe, Safe-pure, Safe-raise, Safe-lift, Safe-bind, Safe-mono, Safe-relax, Safe-if,
  Safe-malloc, Safe-malloc_node,
}
use c_ares.Wire.Copy.{puts-Ensures}
use c_ares.Text.{is_onion_domain}
use c_ares.Search.{
  Channel, Aliases, SearchQuery, Action, ask, finish, hand_over, strdup, cat_domain, first_query,
  is_final, without_alias, after_file, try_aliases, ends_in_dot, contains_dot, find_alias, unset,
  missing, unreadable, file, start_search, next_query, search_callback, search, Outcome, waiting,
  run, count_dots, single_domain,
}
use c_ares.Search.Refines.{Left, Left-all, answered}

-- the status of code that has no memory
abbrev pub IsNoMemory : Status → Type 0
IsNoMemory s = s ≡ enomem

pub strdup-Safe : (name : List ℕ) → Safe IsNoMemory (λ _. Unit {0}) (strdup name)
unfolding strdup
strdup-Safe name = Safe-bind (Safe-malloc (length name + 1) refl) λ s fresh.
    Safe-bind (Safe-lift (puts-Ensures name s 1 fresh.0))
      λ q left. Safe-bind (Safe-lift (put-Ensures 0 q 0 left.0)) λ _ _. Safe-pure tt

pub cat_domain-Safe :
    (name domain : List ℕ) → Safe IsNoMemory (λ _. Unit {0}) (cat_domain name domain)
unfolding cat_domain
cat_domain-Safe name domain =
    Safe-bind (Safe-malloc (length name + 1 + length domain + 1) refl) λ s fresh.
      Safe-bind (Safe-lift (puts-Ensures name s (length domain + 2) (omega (arith, fresh.0))))
        λ q1 l1.
          Safe-bind (Safe-lift (put-Ensures b'.' q1 (length domain + 1) (omega (arith, l1.0))))
            λ q2 l2. Safe-bind (Safe-lift (puts-Ensures domain q2 1 (omega (arith, l2.0)))) λ q3 l3.
              Safe-bind (Safe-lift (put-Ensures 0 q3 0 (omega (arith, l3.0)))) λ _ _. Safe-pure tt

abbrev Never : Status → Type 0
Never s = ⊥

-- 1 as long as the name as it is has not been asked for
abbrev own_left : Bool → Option Status → ℕ
own_left true before = 0
own_left false none = 1
own_left false (some s) = 0

module _ (ch : Channel) where
  -- the queries that may still follow a query
  record Budget (q : SearchQuery) (n : ℕ) : Type 0 where
    rest : List (List ℕ)
    left : Left ch.domains q.next_domain rest
    enough : length rest + own_left q.trying_as_is q.status_as_is ≤ n

  -- what may follow an action, with `n` queries at most
  abbrev Within : ℕ → Action → Type 0
  Within n (finish status timeouts) = Unit
  Within zero (hand_over s) = ⊥
  Within (suc n) (hand_over s) = Unit
  Within zero (ask s q) = ⊥
  Within (suc n) (ask s q) = Budget q n

  next_query-Within :
      (q : SearchQuery) (rest : List (List ℕ)) (n : ℕ)
      → Left ch.domains q.next_domain rest
      → length rest + own_left false q.status_as_is ≤ n
      → Safe Never (Within n) (next_query ch q)
  unfolding next_query
  next_query-Within q [] n left enough = by_cases n q.status_as_is refl (omega (arith, enough))
    where
      by_cases :
          (n : ℕ) (before : Option Status)
          → q.status_as_is ≡ before
          → own_left false before ≤ n
          → Safe Never (Within n) (next_query ch q)
      by_cases n (some s) e le = rw (left, next_query, e) (Safe-pure tt)
      by_cases zero none e le = absurd (omega arith)
      by_cases (suc m) none e le =
          rw (left, next_query, e)
            (Safe-pure (record { rest = []; left = left; enough = omega arith }))
  next_query-Within q (d ∷ rest) zero left enough = absurd (omega arith)
  next_query-Within q (d ∷ rest) (suc m) left enough =
      rw (left.0, next_query)
        (Safe-attempt (cat_domain-Safe q.name d)
          (λ s _. Safe-pure (record { rest = rest; left = left.1; enough = omega arith }))
          (λ s e. Safe-pure tt))

  own_left-answered :
      (trying : Bool) (before : Option Status) (status : Status)
      → own_left false (if trying then some status else before) ≡ own_left trying before
  own_left-answered true before status = refl
  own_left-answered false before status = refl

  search_callback-Within :
      (q : SearchQuery) (n : ℕ) (status : Status) (timeouts : ℕ)
      → Budget q n
      → Safe Never (Within n) (search_callback ch q status timeouts)
  unfolding search_callback
  search_callback-Within q n status timeouts b =
      Safe-if (is_final status) (λ _. Safe-pure tt)
        λ _.
          next_query-Within (answered q status timeouts) b.rest n b.left
            (omega (arith, b.enough, own_left-answered q.trying_as_is q.status_as_is status))

  abbrev Ends : ℕ → List (Status × ℕ) → List (List ℕ) × Outcome → Type 0
  Ends n answers x = (length x.0 ≤ n) × (n ≤ length answers → x.1 ≢ waiting)

  run-Ends :
      (answers : List (Status × ℕ)) (n : ℕ) (action : Action)
      → Within n action
      → Safe Never (Ends n answers) (run ch answers action)
  unfolding run
  run-Ends answers n (finish status timeouts) w = Safe-pure (omega arith, λ _ e. cc)
  run-Ends answers zero (hand_over s) w = absurd w
  run-Ends answers (suc n) (hand_over s) w = Safe-pure (omega arith, λ _ e. cc)
  run-Ends answers zero (ask s q) w = absurd w
  run-Ends [] (suc n) (ask s q) w = Safe-pure (omega arith, λ h. absurd (omega arith))
  run-Ends (a ∷ answers) (suc n) (ask s q) w =
      Safe-bind (search_callback-Within q n a.0 a.1 w) λ action w'.
        Safe-bind (run-Ends answers n action w')
          λ x ends. Safe-pure (omega (arith, ends.0), λ h. ends.1 (omega arith))

  abbrev Some : Status → Type 0
  Some s = Unit

  first_query-Within :
      (q : SearchQuery)
      → 0 < length ch.domains
      → q.status_as_is ≡ none
      → Safe Some (Within (suc (length ch.domains))) (first_query ch q)
  unfolding first_query
  first_query-Within q some_domain e =
      Safe-if (leb ch.ndots (count_dots q.name))
        (λ _.
          Safe-pure
            (record { rest = ch.domains; left = Left-all ch.domains; enough = omega arith }))
        (λ _. by_domains ch.domains refl some_domain)
    where
      by_domains :
          (ds : List (List ℕ))
          → ch.domains ≡ ds
          → 0 < length ds
          → Safe Some (Within (suc (length ch.domains))) (elim (get_elem? ch.domains 0) [
            | none ↦ lift fault
            | some domain ↦ cat_domain q.name domain >>= λ s.
                pure (ask s (record q { next_domain = 1; trying_as_is = false }))
          ])
      by_domains [] f h = absurd (omega arith)
      by_domains (d ∷ ds) f h =
          let left : Left ch.domains 0 (d ∷ ds) =
            subst (λ xs. Left xs 0 (d ∷ ds)) (sym f) (Left-all (d ∷ ds)) in
          rw left.0 (
            Safe-bind (Safe-relax (cat_domain-Safe q.name d) (λ s _. tt)) λ s _.
              Safe-pure
                (record { rest = ds; left = left.1; enough = rw e (omega (arith, ap length f)) }))

  -- No name is left out only if there is a domain.
  abbrev Several : Option (List ℕ) → Type 0
  Several single = single ≡ none → 0 < length ch.domains

  copied : (name : List ℕ) → Safe Some Several (strdup name >>= λ s. pure (some s))
  copied name = Safe-bind (Safe-relax (strdup-Safe name) (λ s _. tt)) λ s _. Safe-pure (λ e. cc)

  without_alias-Several : (name : List ℕ) → Safe Some Several (without_alias ch name)
  unfolding without_alias
  without_alias-Several name =
      Safe-if (ch.nosearch || length ch.domains == 0) (λ _. copied name)
        (λ h. Safe-pure (λ _. ground arith))

  after_file-Several : (name : List ℕ) (end : Status) → Safe Some Several (after_file ch name end)
  after_file-Several name success = without_alias-Several name
  after_file-Several name eof = without_alias-Several name
  after_file-Several name _ = Safe-raise tt

  single_domain-Several :
      (aliases : Aliases) (name : List ℕ) → Safe Some Several (single_domain ch aliases name)
  unfolding single_domain try_aliases
  single_domain-Several aliases name =
      Safe-if (ends_in_dot name) (λ _. copied name)
        λ _.
          Safe-if (not ch.noaliases && not (contains_dot name)) (λ _. by_aliases aliases)
            (λ _. without_alias-Several name)
    where
      by_aliases : (aliases : Aliases) → Safe Some Several (try_aliases ch aliases name)
      by_aliases unset = without_alias-Several name
      by_aliases missing = without_alias-Several name
      by_aliases unreadable = Safe-raise tt
      by_aliases (file lines end) =
          elim (find_alias name lines)
            as (λ found. Safe Some Several (elim found [
              | some s ↦ (strdup s >>= λ t. pure (some t))
              | none ↦ after_file ch name end
            ])) [ some s ↦ copied s | none ↦ after_file-Several name end ]

  start_search-Within :
      (name : List ℕ) (single : Option (List ℕ))
      → Several single
      → Safe Some (Within (suc (length ch.domains))) (start_search ch name single)
  unfolding start_search
  start_search-Within name (some s) several = Safe-pure tt
  start_search-Within name none several = Safe-bind (Safe-malloc_node tt) λ _ _.
      Safe-bind (Safe-relax (strdup-Safe name) (λ s _. tt))
        λ copy _. first_query-Within _ (several refl) refl

  search-Within :
      (aliases : Aliases) (name : List ℕ)
      → Safe Some (Within (suc (length ch.domains))) (search ch aliases name)
  unfolding search
  search-Within aliases name =
      Safe-if (is_onion_domain name) (λ _. Safe-raise tt)
        λ _.
          Safe-bind (single_domain-Several aliases name)
            λ single several. start_search-Within name single several

-- Whatever the name, the aliases, the answers to the queries and those of the allocator, `search`
-- and its callbacks end with no write outside a block. They ask for one name more than there are
-- domains at most, and with as many answers no query waits.
pub search-Ends :
    (ch : Channel) (aliases : Aliases) (name : List ℕ) (answers : List (Status × ℕ))
    → Safe
        (λ s. Unit {0})
        (λ x.
          (length x.0 ≤ length ch.domains + 1)
          × (length ch.domains + 1 ≤ length answers → x.1 ≢ waiting))
        (search ch aliases name >>= run ch answers)
search-Ends ch aliases name answers = Safe-bind (search-Within ch aliases name) λ action w.
    Safe-mono (Safe-relax (run-Ends ch answers (suc (length ch.domains)) action w) λ s e. absurd e)
      λ x ends. (omega (arith, ends.0), λ h. ends.1 (omega arith))
