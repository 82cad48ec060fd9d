-- ===== src/Expand.antt =====
-- src/lib/ares_expand_name.c and ares_expand_string.c: the functions that return an allocated text.
pub mod Total
use c_ares.Base.{ℕ, ◌+◌, Bool, not, leb, false, List, [], ◌==◌, if◌then◌else◌, none}
use c_ares.Result.{Status, ebadname, ebadresp, ebadstr, Result, fail}
use c_ares.Cmd.{Cmd, put, malloc, lift, pure, guard, ◌>>◌, ◌>>=◌}
use c_ares.Wire.{peek}
use c_ares.Wire.Copy.{strncpy}
use c_ares.Name.{is_indir, name_fuel, name_length, expand_loop, terminate}

-- The result is `*s`, without its terminator, and `*enclen`.
unfoldable pub expand_name_validated : Bool → List ℕ → ℕ → ℕ → Cmd (List ℕ × ℕ)
expand_name_validated is_hostname abuf alen encoded = do
  nlen ← lift (name_length is_hostname abuf alen encoded)
  s ← malloc (nlen + 1)
  if nlen == 0
      then (do
        _ ← lift (put 0 s)
        c ← lift (peek abuf encoded)
        pure ([], if is_indir c then 2 else 1))
      else (do
        (q, enclen) ← lift (expand_loop abuf encoded (name_fuel alen) encoded s none)
        text ← lift (terminate q)
        pure (text, enclen))

unfoldable pub expand_name : List ℕ → ℕ → ℕ → Cmd (List ℕ × ℕ)
expand_name abuf alen encoded = expand_name_validated false abuf alen encoded

-- `if (status == ARES_EBADNAME) status = ARES_EBADRESP`
abbrev pub response_status : Status → Status
response_status ebadname = ebadresp
response_status s = s

abbrev pub for_response : {A : Type 0} → Result A → Result A
for_response (fail s) = fail (response_status s)
for_response r = r

unfoldable pub expand_name_for_response : Bool → List ℕ → ℕ → ℕ → Cmd (List ℕ × ℕ)
expand_name_for_response is_hostname abuf alen encoded allocs =
    for_response (expand_name_validated is_hostname abuf alen encoded allocs)

-- `ares_expand_string`: the text and `*enclen`
unfoldable pub expand_string : List ℕ → ℕ → ℕ → Cmd (List ℕ × ℕ)
expand_string abuf alen encoded = do
  guard (not (encoded == alen)) ebadstr
  elen ← lift (peek abuf encoded)
  guard (leb (encoded + elen + 1) alen) ebadstr
  s ← malloc (elen + 1)
  q ← lift (strncpy abuf (encoded + 1) elen s)
  _ ← lift (put 0 q)
  pure (q.text, elen + 1)
