-- ===== src/Name.antt =====
-- src/lib/ares_expand_name.c: the expansion of an RFC 1035 domain name, with its labels and
-- compression pointers. A pointer into the message is an index into `abuf`. An `int` is a plain
-- number: the lengths of a message are far below the range of `int`.
pub mod Plain
pub mod Agrees
pub mod Total
use mathlib.Core.Option
use c_ares.Base.{
  ℕ, zero, suc, ◌+◌, ◌-◌, ◌*◌, ◌/◌, ◌%◌, Bool, not, ◌&&◌, ◌||◌, List, [], ◌∷◌, Option, some, ltb,
  leb, ◌==◌, if◌then◌else◌, bit_and, drop_last,
}
use c_ares.Result.{ebadname, Result, ok, fail, stuck, ◌>>=◌}
use c_ares.Cmd.{Buffer, put}
use c_ares.Wire.{peek}

-- INDIR_MASK, of include/ares_nameser.h, and MAX_INDIRS
abbrev pub indir_mask : ℕ
indir_mask = 0xc0

abbrev pub max_indirs : ℕ
max_indirs = 50

unfoldable pub is_reservedch : ℕ → Bool
is_reservedch ch =
    ch == b'"'
    || ch == b'.'
    || ch == b';'
    || ch == b'\\'
    || ch == b'('
    || ch == b')'
    || ch == b'@'
    || ch == b'$'

-- `ares__isprint`
unfoldable pub isprint : ℕ → Bool
isprint ch = leb 0x20 ch && leb ch 0x7e

unfoldable pub is_hostnamech : ℕ → Bool
is_hostnamech ch =
    (leb b'A' ch && leb ch b'Z')
    || (leb b'a' ch && leb ch b'z')
    || (leb b'0' ch && leb ch b'9')
    || ch == b'-'
    || ch == b'.'
    || ch == b'_'
    || ch == b'/'
    || ch == b'*'

-- `(*p & INDIR_MASK) == INDIR_MASK`
unfoldable pub is_indir : ℕ → Bool
is_indir c = bit_and c indir_mask == indir_mask

-- `(*p & ~INDIR_MASK) << 8 | *(p + 1)`, of two bytes
unfoldable pub indir_offset : ℕ → ℕ → ℕ
indir_offset c d = bit_and c 0x3f * 256 + d

-- the test for a character that is written as \DDD
unfoldable pub is_escaped : ℕ → ℕ → Bool
is_escaped name_len c = not (isprint c) && not (name_len == 1 && c == 0)

-- What `name_length` adds to `n` for one character; its result -1 is the failure `ebadname`, to
-- which its only caller turns it.
unfoldable pub char_length : Bool → ℕ → ℕ → Result ℕ
char_length is_hostname name_len c =
    if is_escaped name_len c
    then (if is_hostname then fail ebadname else ok 4)
    else if is_reservedch c
    then (if is_hostname then fail ebadname else ok 2)
    else if is_hostname && not (is_hostnamech c)
    then fail ebadname
    else ok 1

-- `while (offset--)` of `name_length`: the new `encoded` and `n`
unfoldable pub label_length : Bool → List ℕ → ℕ → ℕ → ℕ → ℕ → Result (ℕ × ℕ)
label_length is_hostname abuf name_len zero encoded n = ok (encoded, n)
label_length is_hostname abuf name_len (suc offset) encoded n = do
  c ← peek abuf encoded
  m ← char_length is_hostname name_len c
  label_length is_hostname abuf name_len offset (encoded + 1) (n + m)

-- `while (*encoded)` of `name_length`
unfoldable pub name_length_loop : Bool → List ℕ → ℕ → ℕ → ℕ → ℕ → ℕ → Result ℕ
name_length_loop is_hostname abuf alen zero encoded n indir = stuck
name_length_loop is_hostname abuf alen (suc fuel) encoded n indir = do
  c ← peek abuf encoded
  if c == 0
      then ok n
      else if is_indir c
      then (if leb alen (encoded + 1) then fail ebadname else (do
        d ← peek abuf (encoded + 1)
        if leb alen (indir_offset c d)
            then fail ebadname
            else if ltb alen (indir + 1) || ltb max_indirs (indir + 1)
            then fail ebadname
            else name_length_loop is_hostname abuf alen fuel (indir_offset c d) n (indir + 1)))
      else if bit_and c indir_mask == 0
      then (if leb alen (encoded + c + 1) then fail ebadname else (do
        (encoded', n') ← label_length is_hostname abuf c c (encoded + 1) n
        name_length_loop is_hostname abuf alen fuel encoded' (n' + 1) indir))
      else fail ebadname

-- Between two pointers the position grows, and there are at most `max_indirs` pointers.
abbrev pub name_fuel : ℕ → ℕ
name_fuel alen = max_indirs * alen + alen + 1

unfoldable pub name_length : Bool → List ℕ → ℕ → ℕ → Result ℕ
name_length is_hostname abuf alen encoded = if leb alen encoded then fail ebadname else (do
  n ← name_length_loop is_hostname abuf alen (name_fuel alen) encoded 0 0
  ok (if n == 0 then n else n - 1))

-- One character, as \DDD, behind a backslash, or as it is; '0' is 48.
unfoldable pub expand_char : ℕ → ℕ → Buffer → Result Buffer
expand_char name_len c q =
    if is_escaped name_len c
    then (do
      q ← put b'\\' q
      q ← put (b'0' + c / 100) q
      q ← put (b'0' + c % 100 / 10) q
      put (b'0' + c % 10) q)
    else if is_reservedch c
    then (do q ← put b'\\' q; put c q)
    else put c q

-- `while (len--)` of the expansion: the new `p` and `q`
unfoldable pub expand_label : List ℕ → ℕ → ℕ → ℕ → Buffer → Result (ℕ × Buffer)
expand_label abuf name_len zero p q = ok (p, q)
expand_label abuf name_len (suc len) p q = do
  c ← peek abuf p
  q' ← expand_char name_len c q
  expand_label abuf name_len len (p + 1) q'

-- `while (*p)` of the expansion: the buffer, and `*enclen`, which is set at the first pointer
-- (`enclen` is `none` before it) or at the end
unfoldable pub expand_loop : List ℕ → ℕ → ℕ → ℕ → Buffer → Option ℕ → Result (Buffer × ℕ)
expand_loop abuf encoded zero p q enclen = stuck
expand_loop abuf encoded (suc fuel) p q enclen = do
  c ← peek abuf p
  if c == 0
      then ok (q, Option.get_or enclen (p + 1 - encoded))
      else if is_indir c
      then (do
        d ← peek abuf (p + 1)
        expand_loop abuf encoded fuel (indir_offset c d) q
            (some (Option.get_or enclen (p + 2 - encoded))))
      else (do
        (p', q') ← expand_label abuf c c (p + 1) q
        q'' ← put b'.' q'
        expand_loop abuf encoded fuel p' q'' enclen)

-- `*(q - 1) = 0`, or `*q = 0` if nothing was written: the text without its terminator
unfoldable pub terminate : Buffer → Result (List ℕ)
terminate q = elim q.text [ [] ↦ do _ ← put 0 q; ok [] | x ∷ xs ↦ ok (drop_last (x ∷ xs)) ]
