-- ===== src/Wire/Copy.antt =====
-- The functions of the C library that copy from the message into an allocated block.
use mathlib.Core.Path.{fun_ext}
use mathlib.Core.List.{append_assoc, append-nil}
use c_ares.Base.{
  ℕ, zero, suc, ◌+◌, ◌≤◌, ◌≡◌, refl, sym, ap, ◌∙◌, ◌++◌, arith, List, [], ◌∷◌, length, ◌==◌,
  if◌then◌else◌,
}
use c_ares.Result.{Status, Result, ok, ◌>>=◌, >>=_assoc}
use c_ares.Result.Ensures.{Ensures, returns, Ensures-bind, Ensures-mono, Ensures-if}
use c_ares.Cmd.{Buffer, put}
use c_ares.Cmd.Put.{Left, put-Ensures, put-ok}
use c_ares.Wire.{peek, peek-Ensures}

-- `memcpy(q, p, n)`, with `q` moved behind the copy
unfoldable pub memcpy : List ℕ → ℕ → ℕ → Buffer → Result Buffer
memcpy abuf p zero q = ok q
memcpy abuf p (suc n) q = do c ← peek abuf p; q' ← put c q; memcpy abuf (p + 1) n q'

-- `memset(q, c, n)`
unfoldable pub memset : ℕ → ℕ → Buffer → Result Buffer
memset c zero q = ok q
memset c (suc n) q = do q' ← put c q; memset c n q'

-- `strncpy(q, p, n)`: as far as a NUL, then NULs
unfoldable pub strncpy : List ℕ → ℕ → ℕ → Buffer → Result Buffer
strncpy abuf p zero q = ok q
strncpy abuf p (suc n) q = do
  c ← peek abuf p
  q' ← put c q
  let rest = strncpy abuf (p + 1) n q'
  if c == 0 then memset 0 n q' else rest

-- the bytes of a text, written one after the other
unfoldable pub puts : List ℕ → Buffer → Result Buffer
puts [] q = ok q
puts (c ∷ cs) q = do q' ← put c q; puts cs q'

-- a text up to its first NUL, as `strlen` and `strcpy` read it
abbrev pub c_string : List ℕ → List ℕ
c_string [] = []
c_string (c ∷ cs) = if c == 0 then [] else c ∷ c_string cs

module _ {E : Status → Type 0} where
  -- one write, then a loop of `n` writes
  write_then :
      {f : Buffer → Result Buffer} (c : ℕ) (q : Buffer) (n r : ℕ)
      → q.room ≡ suc n + r
      → ((q' : Buffer) → q'.room ≡ n + r → Ensures E (Left r q') (f q'))
      → Ensures E (Left r q) (put c q >>= f)
  write_then c q n r h k =
      Ensures-bind (put-Ensures c q (n + r) (omega arith))
        λ q' w. Ensures-mono (k q' w.0) λ q'' v. (v.0, omega arith)

  pub memset-Ensures :
      (c n : ℕ) (q : Buffer) (r : ℕ) → q.room ≡ n + r → Ensures E (Left r q) (memset c n q)
  unfolding memset
  memset-Ensures c zero q r h = returns (omega arith, refl)
  memset-Ensures c (suc n) q r h = write_then c q n r h λ q' w. memset-Ensures c n q' r w

  pub memcpy-Ensures :
      (abuf : List ℕ) (p n : ℕ) (q : Buffer) (r : ℕ)
      → p + n ≤ length abuf
      → q.room ≡ n + r
      → Ensures E (Left r q) (memcpy abuf p n q)
  unfolding memcpy
  memcpy-Ensures abuf p zero q r i h = returns (omega arith, refl)
  memcpy-Ensures abuf p (suc n) q r i h =
      Ensures-bind (peek-Ensures abuf p (omega arith))
        λ c _. write_then c q n r h λ q' w. memcpy-Ensures abuf (p + 1) n q' r (omega arith) w

  pub strncpy-Ensures :
      (abuf : List ℕ) (p n : ℕ) (q : Buffer) (r : ℕ)
      → p + n ≤ length abuf
      → q.room ≡ n + r
      → Ensures E (Left r q) (strncpy abuf p n q)
  unfolding strncpy
  strncpy-Ensures abuf p zero q r i h = returns (omega arith, refl)
  strncpy-Ensures abuf p (suc n) q r i h = Ensures-bind (peek-Ensures abuf p (omega arith)) λ c _.
      write_then c q n r h λ q' w.
        Ensures-if (c == 0) (λ _. memset-Ensures 0 n q' r w)
          (λ _. strncpy-Ensures abuf (p + 1) n q' r (omega arith) w)

  pub puts-Ensures :
      (cs : List ℕ) (q : Buffer) (r : ℕ) → q.room ≡ length cs + r → Ensures E (Left r q) (puts cs q)
  unfolding puts
  puts-Ensures [] q r h = returns (omega arith, refl)
  puts-Ensures (c ∷ cs) q r h = write_then c q (length cs) r h λ q' w. puts-Ensures cs q' r w

pub puts-append : (a b : List ℕ) (q : Buffer) → puts (a ++ b) q ≡ (puts a q >>= λ q'. puts b q')
unfolding puts
puts-append [] b q = refl
puts-append (c ∷ a) b q =
    rw (>>=_assoc (put c q) (puts a) (puts b))
      (ap (◌>>=◌ (put c q)) (fun_ext λ q'. puts-append a b q'))

pub buffer_path :
    {q : Buffer} {n : ℕ} {t : List ℕ} → q.room ≡ n → q.text ≡ t → q ≡ record { room = n; text = t }
buffer_path e f = λ i. record { room = e i; text = f i }

-- With room for it, the text is appended.
pub puts-ok :
    (cs : List ℕ) (q : Buffer) (r : ℕ)
    → q.room ≡ length cs + r
    → puts cs q ≡ ok (record { room = r; text = q.text ++ cs })
unfolding puts
puts-ok [] q r h = ap ok (buffer_path (omega arith) (sym (append-nil q.text)))
puts-ok (c ∷ cs) q r h = rw (put-ok c q (length cs + r) (omega arith)) (
    puts-ok cs (record { room = length cs + r; text = q.text ++ c ∷ [] }) r refl
    ∙ ap (λ t. ok (record { room = r; text = t })) (append_assoc q.text (c ∷ []) cs))
