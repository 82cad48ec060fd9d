-- ===== src/Cmd/Put.antt =====
-- Writes into an allocated block.
use c_ares.Base.{ℕ, suc, ◌+◌, ◌≡◌, refl, arith, [], ◌∷◌, ◌++◌, length, length-concat}
use c_ares.Result.{Status, Result, ok, ◌>>=◌}
use c_ares.Result.Ensures.{Ensures, returns, Ensures-bind, Ensures-mono}
use c_ares.Cmd.{Buffer, put}

-- `r` bytes are left in `q'`, and what was written since `q` came out of its room.
abbrev pub Left : ℕ → Buffer → Buffer → Type 0
Left r q q' = (q'.room ≡ r) × (length q'.text + q'.room ≡ length q.text + q.room)

-- no status at all
abbrev pub NoStatus : Status → Type 0
NoStatus s = ⊥

pub put-Ensures :
    {E : Status → Type 0} (c : ℕ) (q : Buffer) (r : ℕ)
    → q.room ≡ suc r
    → Ensures E (Left r q) (put c q)
unfolding put
put-Ensures c q r h = rw (h, put) (returns (refl, omega (arith, length-concat q.text c)))

-- a write, and what follows it
pub put-bind :
    {E : Status → Type 0} {f : Buffer → Result Buffer} (c : ℕ) (q : Buffer) (r s : ℕ)
    → q.room ≡ suc r
    → ((q' : Buffer) → q'.room ≡ r → Ensures E (Left s q') (f q'))
    → Ensures E (Left s q) (put c q >>= f)
put-bind c q r s h k =
    Ensures-bind (put-Ensures c q r h) λ q' w. Ensures-mono (k q' w.0) λ q'' v. (v.0, omega arith)

pub put-ok :
    (c : ℕ) (q : Buffer) (r : ℕ)
    → q.room ≡ suc r
    → put c q ≡ ok (record { room = r; text = q.text ++ c ∷ [] })
unfolding put
put-ok c q r h = rw (h, put) refl
