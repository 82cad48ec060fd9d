-- ===== src/Rc4/Mixed.antt =====
-- The state of the generator stays a permutation of the bytes, and every access is inside it.
use c_ares.Base.{
  ℕ, zero, suc, ◌+◌, ◌%◌, ◌≤◌, ◌<◌, ◌≡◌, refl, sym, ◌∙◌, ap, arith, Bool-cases, inl, inr, List, [],
  ◌∷◌, some, get_elem?, get_elem?-some, set, All, length, length-set, ◌==◌, if◌then◌else◌,
}
use c_ares.Result.{ok}
use c_ares.Wire.{peek}
use c_ares.Rc4.{Rc4, swap_byte, count_up, mix_key, rc4_init, rc4_prng, IsMixed}

peek-some : (s : List ℕ) (p v : ℕ) → get_elem? s p ≡ some v → peek s p ≡ ok v
unfolding peek
peek-some s p v e = rw (e, peek) refl

get_elem?-set :
    (s : List ℕ) (i v k : ℕ)
    → i < length s
    → get_elem? (set s i v) k ≡ (if k == i then some v else get_elem? s k)
get_elem?-set [] i v k h = absurd (omega arith)
get_elem?-set (x ∷ s) zero v zero h = refl
get_elem?-set (x ∷ s) zero v (suc k) h = ground arith
get_elem?-set (x ∷ s) (suc i) v zero h = ground arith
get_elem?-set (x ∷ s) (suc i) v (suc k) h = get_elem?-set s i v k (omega arith) ∙ ground arith

-- the place that a byte had before two were swapped
abbrev place : ℕ → ℕ → ℕ → ℕ
place i j k = if k == j then i else if k == i then j else k

place_eq : (i j k l : ℕ) → place i j k ≡ place i j l → k ≡ l
place_eq i j k l e = ground arith

get_elem?-swapped :
    (s : List ℕ) (i j a b k : ℕ)
    → i < length s
    → j < length s
    → get_elem? s i ≡ some a
    → get_elem? s j ≡ some b
    → get_elem? (set (set s i b) j a) k ≡ get_elem? s (place i j k)
get_elem?-swapped s i j a b k hi hj ea eb =
    get_elem?-set (set s i b) j a k (omega (arith, hj, length-set s i b))
    ∙ elim (Bool-cases (k == j)) [
      | inl at_j ↦ rw at_j (sym ea)
      | inr not_j ↦ rw not_j (
          get_elem?-set s i b k hi
          ∙ elim (Bool-cases (k == i)) [ inl at_i ↦ rw at_i (sym eb) | inr not_i ↦ rw not_i refl ])
    ]

-- Two bytes that are swapped leave each byte in the state once.
swap_byte-IsMixed :
    (s : List ℕ) (i j : ℕ)
    → IsMixed s
    → i < 256
    → j < 256
    → (s' : List ℕ) × (swap_byte s i j ≡ ok s') × IsMixed s'
unfolding swap_byte
swap_byte-IsMixed s i j w hi hj =
    let hi' : i < length s = omega (arith, hi, w.size) in
    let hj' : j < length s = omega (arith, hj, w.size) in
    let (a, ea) = get_elem?-some s i hi' in
    let (b, eb) = get_elem?-some s j hj' in
    let moved = λ (k : ℕ). get_elem?-swapped s i j a b k hi' hj' ea eb in
    (
      set (set s i b) j a,
      rw (peek-some s i a ea, peek-some s j b eb) refl,
      record {
        size = length-set (set s i b) j a ∙ length-set s i b ∙ w.size;
        small = λ k v e. w.small (place i j k) v (sym (moved k) ∙ e);
        once = λ k l v e e'.
            place_eq i j k l
              (w.once (place i j k) (place i j l) v (sym (moved k) ∙ e) (sym (moved l) ∙ e'));
      },
    )

-- a byte of the state
peek-IsMixed : (s : List ℕ) (p : ℕ) → IsMixed s → p < 256 → (v : ℕ) × (peek s p ≡ ok v) × (v < 256)
peek-IsMixed s p w h =
    let (v, e) = get_elem?-some s p (omega (arith, h, w.size)) in
    (v, peek-some s p v e, w.small p v e)

count_up-get :
    (start n k v : ℕ) → get_elem? (count_up start n) k ≡ some v → (v ≡ start + k) × (k < n)
count_up-get start zero k v e = absurd (cc e)
count_up-get start (suc n) zero v e = (ground arith, omega arith)
count_up-get start (suc n) (suc k) v e =
    let r = count_up-get (start + 1) n k v e in (omega (arith, r.0), omega (arith, r.1))

length-count_up : (start n : ℕ) → length (count_up start n) ≡ n
length-count_up start zero = refl
length-count_up start (suc n) = ap suc (length-count_up (start + 1) n)

count_up-IsMixed : IsMixed (count_up 0 256)
count_up-IsMixed = record {
  size = length-count_up 0 256;
  small = λ k v e. let r = count_up-get 0 256 k v e in omega (arith, r.0, r.1);
  once = λ k l v e e'.
      let r = count_up-get 0 256 k v e in
      let q = count_up-get 0 256 l v e' in omega (arith, r.0, q.0);
}

mix_key-IsMixed :
    (n i j : ℕ) (key s : List ℕ)
    → IsMixed s
    → length key ≡ 32
    → i + n ≤ 256
    → (s' : List ℕ) × (mix_key n i j key s ≡ ok s') × IsMixed s'
unfolding mix_key
mix_key-IsMixed zero i j key s w size le = (s, refl, w)
mix_key-IsMixed (suc n) i j key s w size le =
    let (a, ea, _) = peek-IsMixed s i w (omega arith) in
    let (k, ek) = get_elem?-some key (i % 32) (omega (arith, size)) in
    let (s1, e1, w1) = swap_byte-IsMixed s i ((j + a + k) % 256) w (omega arith) (omega arith) in
    let (s', e, w') = mix_key-IsMixed n (i + 1) ((j + a + k) % 256) key s1 w1 size (omega arith) in
    (s', rw (ea, peek-some key (i % 32) k ek, e1) e, w')

pub rc4_init-IsMixed :
    (key : List ℕ) → length key ≡ 32 → (st : Rc4) × (rc4_init key ≡ ok st) × IsMixed st.s
unfolding rc4_init
rc4_init-IsMixed key size =
    let (s, e, w) =
      mix_key-IsMixed 256 0 0 key (count_up 0 256) count_up-IsMixed size (omega arith) in
    (record { s = s; i = 0; j = 0 }, rw e refl, w)

pub rc4_prng-IsMixed :
    (n : ℕ) (st : Rc4)
    → IsMixed st.s
    → (out : List ℕ) × (st' : Rc4) × (rc4_prng n st ≡ ok (out, st'))
      × (length out ≡ n)
      × All (λ c. c < 256) out
      × IsMixed st'.s
unfolding rc4_prng
rc4_prng-IsMixed zero st w = ([], st, refl, refl, tt, w)
rc4_prng-IsMixed (suc n) st w =
    let i = (st.i + 1) % 256 in
    let (a, ea, _) = peek-IsMixed st.s i w (omega arith) in
    let j = (st.j + a) % 256 in
    let (s, es, ws) = swap_byte-IsMixed st.s i j w (omega arith) (omega arith) in
    let (x, ex, _) = peek-IsMixed s i ws (omega arith) in
    let (y, ey, _) = peek-IsMixed s j ws (omega arith) in
    let (c, ec, small) = peek-IsMixed s ((x + y) % 256) ws (omega arith) in
    let (rest, st', er, size, bytes, w') = rc4_prng-IsMixed n (record { s = s; i = i; j = j }) ws in
    (c ∷ rest, st', rw (ea, es, ex, ey, ec, er) refl, ap suc size, (small, bytes), w')

-- For a key of 32 bytes and any number of bytes to make: `ares_rc4_init` and then `ares_rc4_prng`
-- end with no access outside the key or the state, and return as many bytes as asked for, all of
-- them below 256. The state is then still a permutation: 256 bytes, none of them twice.
pub rc4_init-rc4_prng :
    (key : List ℕ) (n : ℕ)
    → length key ≡ 32
    → (st st' : Rc4) × (out : List ℕ) × (rc4_init key ≡ ok st)
      × (rc4_prng n st ≡ ok (out, st'))
      × (length out ≡ n)
      × All (λ c. c < 256) out
      × IsMixed st'.s
rc4_init-rc4_prng key n size =
    let (st, e, w) = rc4_init-IsMixed key size in
    let (out, st', run, count, bytes, w') = rc4_prng-IsMixed n st w in
    (st, st', out, e, run, count, bytes, w')
