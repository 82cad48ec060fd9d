-- ===== src/Reply/Host.antt =====
-- `struct hostent`, and what the parsers that build one share.
use c_ares.Base.{ℕ, ◌+◌, List, length}
use c_ares.Result.{Status, enomem}
use c_ares.Cmd.{Cmd, put, malloc, lift, pure, ◌>>=◌}
use c_ares.Cmd.Put.{put-Ensures}
use c_ares.Cmd.Safe.{Safe, Safe-pure, Safe-lift, Safe-bind, Safe-malloc}
use c_ares.Wire.Copy.{puts, puts-Ensures, c_string}

-- AF_INET, which is the system's
pub record Hostent : Type 0 where
  pub h_name : List ℕ
  pub h_aliases : List (List ℕ)
  pub h_addrtype : ℕ
  pub h_length : ℕ
  pub h_addr_list : List (List ℕ)

-- `p = malloc(strlen(s) + 1)` and `strcpy(p, s)`
unfoldable pub copy_string : List ℕ → Cmd (List ℕ)
copy_string s = do
  p ← malloc (length (c_string s) + 1)
  q ← lift (puts (c_string s) p)
  _ ← lift (put 0 q)
  pure (c_string s)

pub copy_string-Safe :
    {E : Status → Type 0} (s : List ℕ) → E enomem → Safe E (λ _. Unit {0}) (copy_string s)
unfolding copy_string
copy_string-Safe s e = Safe-bind (Safe-malloc (length (c_string s) + 1) e) λ p fresh.
    Safe-bind (Safe-lift (puts-Ensures (c_string s) p 1 fresh.0))
      λ q w. Safe-bind (Safe-lift (put-Ensures 0 q 0 w.0)) λ _ _. Safe-pure tt
