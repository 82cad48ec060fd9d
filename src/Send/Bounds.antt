-- ===== src/Send/Bounds.antt =====
-- The doubled timeout fits into an `int`.
use native.Mathlib.Nat.{
  pow-succ', mul_assoc, one-le-pow, div-lt_iff_lt-mul, mul-lt-mul_of_pos_right,
  lt_of_mul-lt-mul_right, mul-le-mul_left,
}
use c_ares.Base.{
  ℕ, zero, suc, ◌+◌, ◌-◌, ◌*◌, ◌/◌, ◌^◌, ◌≤◌, ◌<◌, ◌≡◌, ◌↔◌, refl, sym, ◌∙◌, ap, arith, Bool, true,
  false, ◌&&◌, leb, ◌==◌, if◌then◌else◌, leb→le,
}
use c_ares.Send.{shifted_timeout}

pow_sum : (a b : ℕ) → 2 ^ a * 2 ^ b ≡ 2 ^ (a + b)
pow_sum zero b = let e : 0 + b ≡ b = omega arith in omega (arith, ap (◌^◌ 2) e)
pow_sum (suc a) b =
    let e : suc a + b ≡ suc (a + b) = omega arith in
    ap (λ (m : ℕ). m * 2 ^ b) (pow-succ' 2 a)
    ∙ mul_assoc 2 (2 ^ a) (2 ^ b)
    ∙ ap (λ (m : ℕ). 2 * m) (pow_sum a b)
    ∙ sym (pow-succ' 2 (a + b))
    ∙ ap (◌^◌ 2) (sym e)

pow_split : (shift : ℕ) → shift ≤ 31 → 2 ^ (31 - shift) * 2 ^ shift ≡ 2147483648
pow_split shift h =
    let e : 31 - shift + shift ≡ 31 = omega arith in pow_sum (31 - shift) shift ∙ ap (◌^◌ 2) e

-- The test that the bits shifted away are zero is the one that the product fits.
fits_iff :
    (timeplus shift : ℕ)
    → shift ≤ 31
    → ((timeplus / 2 ^ (31 - shift) == 0) ≡ true) ↔ (timeplus * 2 ^ shift < 2147483648)
fits_iff timeplus shift h = (
  λ e.
      let small : timeplus / 2 ^ (31 - shift) < 1 = ground arith in
      omega (
        arith,
        pow_split shift h,
        mul-lt-mul_of_pos_right {k = 2 ^ shift}
            ((div-lt_iff_lt-mul (one-le-pow (31 - shift) 2 (omega arith))).0 small)
            (one-le-pow shift 2 (omega arith)),
        one_mul (2 ^ (31 - shift)) (2 ^ shift),
      ),
  λ lt.
      let small : timeplus / 2 ^ (31 - shift) < 1 =
        (div-lt_iff_lt-mul {x = timeplus} (one-le-pow (31 - shift) 2 (omega arith))).1 (
          lt_of_mul-lt-mul_right (2 ^ shift)
            (omega (arith, lt, pow_split shift h, one_mul (2 ^ (31 - shift)) (2 ^ shift)))) in
      ground arith,
)
  where
    one_mul : (a b : ℕ) → 1 * a * b ≡ a * b
    one_mul a b = let e : 1 * a ≡ a = omega arith in ap (λ (m : ℕ). m * b) e

grown : (t shift : ℕ) → t ≤ t * 2 ^ shift
grown t shift = omega (arith, mul-le-mul_left t (one-le-pow shift 2 (omega arith)))

-- a choice between a product that fits and a number that fits
chosen :
    (b c : Bool) (t p : ℕ)
    → t < 2147483648
    → t ≤ p
    → (b ≡ true → (c ≡ true) ↔ (p < 2147483648))
    → ((if b && c then p else t) < 2147483648)
      × (t ≤ (if b && c then p else t))
      × (b ≡ true → p < 2147483648 → (if b && c then p else t) ≡ p)
chosen true true t p h le f = ((f refl).0 refl, le, λ _ _. refl)
chosen true false t p h le f = (h, omega arith, λ _ lt. absurd (false-ne-true ((f refl).1 lt)))
  where
    false-ne-true : false ≡ true → ⊥
    false-ne-true e = cc
chosen false c t p h le f = (h, omega arith, λ e _. cc)

-- For a timeout below 2 ^ 31, `shifted_timeout` is below 2 ^ 31 and not less than the timeout; and
-- for a shift of at most 31 for which the product of the timeout and the power of two is below 2 ^
-- 31, it is that product.
pub shifted_timeout_lem :
    (timeplus shift : ℕ)
    → timeplus < 2147483648
    → (shifted_timeout timeplus shift < 2147483648)
      × (timeplus ≤ shifted_timeout timeplus shift)
      × (shift ≤ 31
          → timeplus * 2 ^ shift < 2147483648
          → shifted_timeout timeplus shift ≡ timeplus * 2 ^ shift)
unfolding shifted_timeout
shifted_timeout_lem timeplus shift h =
    let (a, b, c) =
      chosen (leb shift 31) (timeplus / 2 ^ (31 - shift) == 0) timeplus (timeplus * 2 ^ shift) h
        (grown timeplus shift) (λ e. fits_iff timeplus shift (leb→le shift 31 e)) in
    (a, b, λ le. c (ground arith))
