-- ===== src/Wire.antt =====
-- The macros of include/ares_dns.h that read a message. A pointer into the message `abuf` is an
-- index; a read outside the block that `abuf` points to is a fault.
pub mod At
pub mod Copy
use c_ares.Base.{
  ℕ, ◌+◌, ◌*◌, ◌<◌, ◌≡◌, arith, List, none, some, get_elem?, get_elem?-some, length, refl,
}
use c_ares.Result.{Status, Result, ok, fault, ◌>>=◌}
use c_ares.Result.Ensures.{Ensures, returns, Ensures-bind}

-- `*p`
unfoldable pub peek : List ℕ → ℕ → Result ℕ
peek abuf p = elim (get_elem? abuf p) [ none ↦ fault | some c ↦ ok c ]

-- `DNS__16BIT`: the two bytes have no bit in common once shifted, so their | is a sum.
unfoldable pub read16 : List ℕ → ℕ → Result ℕ
read16 abuf p = do a ← peek abuf p; b ← peek abuf (p + 1); ok (a * 256 + b)

-- `DNS__32BIT`
unfoldable pub read32 : List ℕ → ℕ → Result ℕ
read32 abuf p = do
  a ← peek abuf p
  b ← peek abuf (p + 1)
  c ← peek abuf (p + 2)
  d ← peek abuf (p + 3)
  ok (a * 16777216 + b * 65536 + c * 256 + d)

module _ {E : Status → Type 0} where
  pub peek-Ensures :
      (abuf : List ℕ) (p : ℕ) → p < length abuf → Ensures E (λ c. peek abuf p ≡ ok c) (peek abuf p)
  unfolding peek
  peek-Ensures abuf p h = let (c, e) = get_elem?-some abuf p h in rw (e, peek) (returns refl)

  pub read16-Ensures :
      (abuf : List ℕ) (p : ℕ) → p + 1 < length abuf → Ensures E (λ _. Unit {0}) (read16 abuf p)
  unfolding read16
  read16-Ensures abuf p h =
      Ensures-bind (peek-Ensures abuf p (omega arith))
        λ a _. Ensures-bind (peek-Ensures abuf (p + 1) (omega arith)) λ b _. returns tt

  pub read32-Ensures :
      (abuf : List ℕ) (p : ℕ) → p + 3 < length abuf → Ensures E (λ _. Unit {0}) (read32 abuf p)
  unfolding read32
  read32-Ensures abuf p h = Ensures-bind (peek-Ensures abuf p (omega arith)) λ a _.
      Ensures-bind (peek-Ensures abuf (p + 1) (omega arith)) λ b _.
        Ensures-bind (peek-Ensures abuf (p + 2) (omega arith))
          λ c _. Ensures-bind (peek-Ensures abuf (p + 3) (omega arith)) λ d _. returns tt
