-- ===== src/Htable/Hash.antt =====
-- The hash functions at the end of src/lib/ares__htable.c, on the bytes of a key.
use c_ares.Base.{ℕ, ◌+◌, ◌*◌, ◌%◌, ◌^◌, ◌≡◌, refl, arith, List, [], ◌∷◌, map, bit_xor}

-- `hv << k` in 32 bits
abbrev shl : ℕ → ℕ → ℕ
shl hv k = hv * 2 ^ k % 2 ^ 32

-- `hv += (hv<<1) + (hv<<4) + (hv<<7) + (hv<<8) + (hv<<24)`
unfoldable pub mix : ℕ → ℕ
mix hv = (hv + (shl hv 1 + shl hv 4 + shl hv 7 + shl hv 8 + shl hv 24)) % 2 ^ 32

unfoldable pub hash_fnv1a : List ℕ → ℕ → ℕ
hash_fnv1a [] hv = hv
hash_fnv1a (c ∷ key) hv = hash_fnv1a key (mix (bit_xor hv c))

-- `tolower` is `(unsigned int)tolower((char)c)` of the C library, at a byte `c`.
unfoldable pub hash_fnv1a_casecmp : (ℕ → ℕ) → List ℕ → ℕ → ℕ
hash_fnv1a_casecmp tolower [] hv = hv
hash_fnv1a_casecmp tolower (c ∷ key) hv =
    hash_fnv1a_casecmp tolower key (mix (bit_xor hv (tolower c)))

-- FNV-1a with the prime of 32 bits
abbrev pub fnv1a : List ℕ → ℕ → ℕ
fnv1a [] hv = hv
fnv1a (c ∷ key) hv = fnv1a key (bit_xor hv c * 16777619 % 2 ^ 32)

mix-mul : (hv : ℕ) → mix hv ≡ hv * 16777619 % 2 ^ 32
unfolding mix
mix-mul hv = omega arith

hash_fnv1a-fnv1a : (key : List ℕ) (seed : ℕ) → hash_fnv1a key seed ≡ fnv1a key seed
unfolding hash_fnv1a
hash_fnv1a-fnv1a [] hv = refl
hash_fnv1a-fnv1a (c ∷ key) hv = rw mix-mul (hash_fnv1a-fnv1a key _)

hash_fnv1a_casecmp-map :
    (tolower : ℕ → ℕ) (key : List ℕ) (seed : ℕ)
    → hash_fnv1a_casecmp tolower key seed ≡ hash_fnv1a (map tolower key) seed
unfolding hash_fnv1a hash_fnv1a_casecmp
hash_fnv1a_casecmp-map tolower [] hv = refl
hash_fnv1a_casecmp-map tolower (c ∷ key) hv = hash_fnv1a_casecmp-map tolower key _

-- `hash_fnv1a` multiplies by the FNV prime 16777619 in 32 bits, as `fnv1a` does, and
-- `hash_fnv1a_casecmp` is the same on the bytes that `tolower` returns.
pub hash_fnv1a_casecmp-fnv1a :
    (tolower : ℕ → ℕ) (key : List ℕ) (seed : ℕ)
    → (hash_fnv1a key seed ≡ fnv1a key seed)
      × (hash_fnv1a_casecmp tolower key seed ≡ fnv1a (map tolower key) seed)
hash_fnv1a_casecmp-fnv1a tolower key seed =
    (hash_fnv1a-fnv1a key seed, rw hash_fnv1a_casecmp-map (hash_fnv1a-fnv1a (map tolower key) seed))
