-- ===== src/Tests/Rc4.antt =====
-- The generator of last resort, with the key of 256 bits of RFC 6229.
use c_ares.Base.{ℕ, ◌≡◌, ◌<◌, refl, List, [], ◌∷◌, All, length}
use c_ares.Result.{Result, ok, ◌>>=◌}
use c_ares.Wire.{peek}
use c_ares.Rc4.{Rc4, IsMixed, count_up, swap_byte, mix_key, rc4_init, rc4_prng}
use c_ares.Rc4.Mixed.{rc4_init-rc4_prng}

abbrev key : List ℕ
key = count_up 1 32

abbrev output : Result (List ℕ × Rc4) → List ℕ
output (ok (out, st)) = out
output _ = []

known_answer :
    output (rc4_init key >>= λ st. rc4_prng 6 st) ≡ 0xea ∷ 0xa6 ∷ 0xbd ∷ 0x25 ∷ 0x88 ∷ 0x0b ∷ []
unfolding rc4_init rc4_prng mix_key swap_byte peek
known_answer = refl

rc4_init-rc4_prng_example :
    (st st' : Rc4) × (out : List ℕ) × (rc4_init key ≡ ok st)
    × (rc4_prng 6 st ≡ ok (out, st'))
    × (length out ≡ 6)
    × All (λ c. c < 256) out
    × IsMixed st'.s
rc4_init-rc4_prng_example = rc4_init-rc4_prng key 6 refl
