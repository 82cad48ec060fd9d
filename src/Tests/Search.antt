-- ===== src/Tests/Search.antt =====
-- Searches.
use c_ares.Base.{ℕ, ◌+◌, ◌≤◌, ◌≡◌, ◌≢◌, refl, true, false, List, [], ◌∷◌, length}
use c_ares.Result.{Status, enodata, enotfound, enomem, eof, ok}
use c_ares.Cmd.{malloc, malloc_node, put, ◌>>=◌}
use c_ares.Cmd.Safe.{Safe}
use c_ares.Wire.Copy.{puts}
use c_ares.Text.{tolower, same_text, striendstr, is_onion_domain}
use c_ares.Search.{
  Channel, unset, file, strdup, cat_domain, isspace, skip_spaces, word, alias_of, find_alias,
  without_alias, try_aliases, single_domain, count_dots, first_query, start_search, search,
  next_query, search_callback, finished, handed_over, waiting, run,
}
use c_ares.Search.Names.{walk}
use c_ares.Search.Total.{search-Ends}

search_computed : ℕ
unfolding malloc malloc_node put puts tolower same_text striendstr is_onion_domain strdup cat_domain
    isspace skip_spaces word alias_of find_alias without_alias try_aliases single_domain count_dots
    first_query start_search search next_query search_callback run walk
search_computed = 0

abbrev channel : Channel
channel = record {
  domains = (b'x' ∷ []) ∷ (b'y' ∷ []) ∷ [];
  ndots = 1;
  noaliases = false;
  nosearch = false;
}

-- "a" in the domain "x"
abbrev a_x : List ℕ
a_x = b'a' ∷ b'.' ∷ b'x' ∷ []

abbrev a_y : List ℕ
a_y = b'a' ∷ b'.' ∷ b'y' ∷ []

alias_run :
    (search channel (file ((b'A' ∷ b' ' ∷ b' ' ∷ b'b' ∷ b'c' ∷ b' ' ∷ []) ∷ []) eof) (b'a' ∷ [])
        >>= run channel [])
      []
    ≡ ok (((b'b' ∷ b'c' ∷ []) ∷ [], handed_over), [])
unfolding search_computed
alias_run = refl

-- no memory for the second name
no_memory_run :
    (search channel unset (b'a' ∷ []) >>= run channel ((enotfound, 1) ∷ []))
      (true ∷ true ∷ true ∷ false ∷ [])
    ≡ ok ((a_x ∷ [], finished enomem 1), false ∷ [])
unfolding search_computed
no_memory_run = refl

abbrev answers : List (Status × ℕ)
answers = (enotfound, 1) ∷ (enodata, 0) ∷ (enotfound, 2) ∷ []

search-Ends_example :
    Safe
      (λ s. Unit {0})
      (λ x.
        (length x.0 ≤ length channel.domains + 1)
        × (length channel.domains + 1 ≤ length answers → x.1 ≢ waiting))
      (search channel unset (b'a' ∷ []) >>= run channel answers)
search-Ends_example = search-Ends channel unset (b'a' ∷ []) answers
