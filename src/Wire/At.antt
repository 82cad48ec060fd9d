-- ===== src/Wire/At.antt =====
-- What stands in the message from a position on.
use mathlib.Core.List.{append_assoc, append-nil}
use c_ares.Base.{
  ℕ, ◌+◌, ◌≡◌, refl, sym, ◌∙◌, ap, arith, List, [], ◌∷◌, ◌++◌, some, get_elem?, length,
  length-append,
}
use c_ares.Result.{ok}
use c_ares.Cmd.{Buffer}
use c_ares.Cmd.Put.{put-ok}
use c_ares.Wire.Copy.{memcpy, buffer_path}
use c_ares.Wire.{peek}

pub record At (abuf : List ℕ) (p : ℕ) (rest : List ℕ) : Type 0 where
  pub before : List ℕ
  pub splits : abuf ≡ before ++ rest
  pub position : length before ≡ p

get_elem?-length :
    (xs : List ℕ) (c : ℕ) (rest : List ℕ) → get_elem? (xs ++ c ∷ rest) (length xs) ≡ some c
get_elem?-length [] c rest = refl
get_elem?-length (x ∷ xs) c rest = get_elem?-length xs c rest

pub At-start : (before rest : List ℕ) → At (before ++ rest) (length before) rest
At-start before rest = record { before = before; splits = refl; position = refl }

module _ {abuf : List ℕ} {p c : ℕ} {rest : List ℕ} (at : At abuf p (c ∷ rest)) where
  pub At-peek : peek abuf p ≡ ok c
  unfolding peek
  At-peek = rw (at.splits, ← at.position, peek, get_elem?-length at.before c rest) refl

  pub At-next : At abuf (p + 1) rest
  At-next = record {
    before = at.before ++ c ∷ [];
    splits = at.splits ∙ sym (append_assoc at.before (c ∷ []) rest);
    position = omega (arith, length-append at.before (c ∷ []), at.position);
  }

pub At-length :
    {abuf : List ℕ} {p : ℕ} {rest : List ℕ} → At abuf p rest → p + length rest ≡ length abuf
At-length {abuf} {p} {rest} at =
    omega (arith, ap length at.splits, length-append at.before rest, at.position)

pub At-append :
    {abuf : List ℕ} {p : ℕ} (l : List ℕ) {rest : List ℕ}
    → At abuf p (l ++ rest)
    → At abuf (p + length l) rest
At-append {abuf} {p} l {rest} at = record {
  before = at.before ++ l;
  splits = at.splits ∙ sym (append_assoc at.before l rest);
  position = omega (arith, length-append at.before l, at.position);
}

-- A copy of what stands there, with room for it.
pub memcpy-At :
    {abuf : List ℕ} (cs : List ℕ) (p : ℕ) (rest : List ℕ) (q : Buffer) (r : ℕ)
    → At abuf p (cs ++ rest)
    → q.room ≡ length cs + r
    → memcpy abuf p (length cs) q ≡ ok (record { room = r; text = q.text ++ cs })
unfolding memcpy
memcpy-At [] p rest q r at h = ap ok (buffer_path (omega arith) (sym (append-nil q.text)))
memcpy-At (c ∷ cs) p rest q r at h =
    rw (At-peek at, put-ok c q (length cs + r) (omega arith))
      (memcpy-At cs (p + 1) rest (record { room = length cs + r; text = q.text ++ c ∷ [] }) r
          (At-next at) refl
        ∙ ap (λ t. ok (record { room = r; text = t })) (append_assoc q.text (c ∷ []) cs))

pub memcpy-whole :
    (cs : List ℕ) (q : Buffer) (r : ℕ)
    → q.room ≡ length cs + r
    → memcpy cs 0 (length cs) q ≡ ok (record { room = r; text = q.text ++ cs })
memcpy-whole cs q r h =
    memcpy-At cs 0 [] q r (record { before = []; splits = sym (append-nil cs); position = refl }) h
