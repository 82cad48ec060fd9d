-- ===== src/Text.antt =====
-- Comparison of texts without regard to case: `ares_striendstr` and `ares__is_onion_domain` of
-- src/lib/ares_getnameinfo.c, and the C library's `tolower` and `strcasecmp`. A text is the list of
-- its bytes before the terminator.
use c_ares.Base.{
  ℕ, ◌+◌, ◌-◌, Bool, true, false, ◌&&◌, ◌||◌, List, [], ◌∷◌, length, drop, leb, ltb, ◌==◌,
  if◌then◌else◌,
}

-- `tolower`, in the C locale
unfoldable pub tolower : ℕ → ℕ
tolower c = if leb b'A' c && leb c b'Z' then c + 32 else c

-- `strcasecmp(a, b) == 0`
unfoldable pub same_text : List ℕ → List ℕ → Bool
same_text [] [] = true
same_text (x ∷ xs) (y ∷ ys) = tolower x == tolower y && same_text xs ys
same_text _ _ = false

-- `ares_striendstr(s1, s2) != NULL`: the loop compares the end of `s1` with `s2`.
unfoldable pub striendstr : List ℕ → List ℕ → Bool
striendstr s1 s2 =
    if ltb (length s1) (length s2) then false else same_text (drop (length s1 - length s2) s1) s2

abbrev pub onion : List ℕ
onion = b'.' ∷ b'o' ∷ b'n' ∷ b'i' ∷ b'o' ∷ b'n' ∷ []

abbrev pub onion_dot : List ℕ
onion_dot = b'.' ∷ b'o' ∷ b'n' ∷ b'i' ∷ b'o' ∷ b'n' ∷ b'.' ∷ []

unfoldable pub is_onion_domain : List ℕ → Bool
is_onion_domain name = striendstr name onion || striendstr name onion_dot
