-- ===== src/Rc4.antt =====
-- The generator of last resort of src/lib/ares_rand.c: RC4 over a state of 256 bytes. The key, which
-- is made of addresses, the time and `rand`, is an argument.
pub mod Mixed
use c_ares.Base.{
  ℕ, zero, suc, ◌+◌, ◌*◌, ◌%◌, ◌≤◌, ◌<◌, ◌≡◌, ◌≢◌, refl, sym, ◌∙◌, ap, arith, Bool-cases, inl, inr,
  true, false, List, [], ◌∷◌, some, none, get_elem?, get_elem?-some, set, All, length, length-set,
  ◌==◌, if◌then◌else◌,
}
use c_ares.Result.{Result, ok, ◌>>=◌}
use c_ares.Wire.{peek}

pub record Rc4 : Type 0 where
  pub s : List ℕ
  pub i : ℕ
  pub j : ℕ

-- `ARES_SWAP_BYTE`
unfoldable pub swap_byte : List ℕ → ℕ → ℕ → Result (List ℕ)
swap_byte s i j = do a ← peek s i; b ← peek s j; ok (set (set s i b) j a)

-- the bytes from a number on
abbrev pub count_up : ℕ → ℕ → List ℕ
count_up start zero = []
count_up start (suc n) = start ∷ count_up (start + 1) n

-- the rounds of the loop that mixes the key in
unfoldable pub mix_key : ℕ → ℕ → ℕ → List ℕ → List ℕ → Result (List ℕ)
mix_key zero i j key s = ok s
mix_key (suc n) i j key s = do
  a ← peek s i
  k ← peek key (i % 32)
  s' ← swap_byte s i ((j + a + k) % 256)
  mix_key n (i + 1) ((j + a + k) % 256) key s'

unfoldable pub rc4_init : List ℕ → Result Rc4
rc4_init key = do s ← mix_key 256 0 0 key (count_up 0 256); ok (record { s = s; i = 0; j = 0 })

unfoldable pub rc4_prng : ℕ → Rc4 → Result (List ℕ × Rc4)
rc4_prng zero st = ok ([], st)
rc4_prng (suc n) st = do
  a ← peek st.s ((st.i + 1) % 256)
  s ← swap_byte st.s ((st.i + 1) % 256) ((st.j + a) % 256)
  x ← peek s ((st.i + 1) % 256)
  y ← peek s ((st.j + a) % 256)
  c ← peek s ((x + y) % 256)
  (rest, st') ← rc4_prng n (record { s = s; i = (st.i + 1) % 256; j = (st.j + a) % 256 })
  ok (c ∷ rest, st')

-- 256 bytes, all of them different: each byte stands in the state once
pub record IsMixed (s : List ℕ) : Type 0 where
  pub size : length s ≡ 256
  pub small : (k v : ℕ) → get_elem? s k ≡ some v → v < 256
  pub once : (k l v : ℕ) → get_elem? s k ≡ some v → get_elem? s l ≡ some v → k ≡ l
