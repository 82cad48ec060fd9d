-- ===== src/Name/Agrees.antt =====
-- `name_length` and the expansion walk the same bytes: the first ends, stays inside the message,
-- and counts exactly the characters that the second writes.
use mathlib.Core.Option
use c_ares.Base.{
  ℕ, zero, suc, ◌+◌, ◌-◌, ◌*◌, ◌≤◌, ◌<◌, ◌≡◌, refl, ap, arith, Bool, true, false, List, Option,
  none, some, length, not, ◌&&◌, Bool-cases, inl, inr, ◌==◌, leb, ltb, ◌||◌, bit_and,
}
use c_ares.Result.{Status, ebadname, ok, fail}
use c_ares.Result.Ensures.{Ensures, returns, fails, Ensures-bind, Ensures-mono, Ensures-if}
use c_ares.Cmd.{Buffer}
use c_ares.Cmd.Put.{Left, NoStatus, put-Ensures, put-bind}
use c_ares.Name.{
  is_escaped, is_reservedch, is_hostnamech, char_length, expand_char, label_length, expand_label,
  name_length_loop, expand_loop, is_indir, indir_offset, indir_mask, max_indirs,
}
use c_ares.Wire.{peek, peek-Ensures}

abbrev pub IsBadName : Status → Type 0
IsBadName s = s ≡ ebadname

char_out_escaped :
    (nl c : ℕ) (q : Buffer) (r : ℕ)
    → q.room ≡ 4 + r
    → is_escaped nl c ≡ true
    → Ensures NoStatus (Left r q) (expand_char nl c q)
unfolding expand_char
char_out_escaped nl c q r h e = rw e (
    put-bind _ q (3 + r) r (omega arith) λ q1 h1.
      put-bind _ q1 (2 + r) r (omega arith)
        λ q2 h2. put-bind _ q2 (1 + r) r (omega arith) λ q3 h3. put-Ensures _ q3 r (omega arith))

char_out_reserved :
    (nl c : ℕ) (q : Buffer) (r : ℕ)
    → q.room ≡ 2 + r
    → is_escaped nl c ≡ false
    → is_reservedch c ≡ true
    → Ensures NoStatus (Left r q) (expand_char nl c q)
unfolding expand_char
char_out_reserved nl c q r h e v =
    rw (e, v) (put-bind _ q (1 + r) r (omega arith) λ q1 h1. put-Ensures _ q1 r (omega arith))

char_out_plain :
    (nl c : ℕ) (q : Buffer) (r : ℕ)
    → q.room ≡ 1 + r
    → is_escaped nl c ≡ false
    → is_reservedch c ≡ false
    → Ensures NoStatus (Left r q) (expand_char nl c q)
unfolding expand_char
char_out_plain nl c q r h e v = rw (e, v) (put-Ensures _ q r (omega arith))

-- One character takes 4, 2 or 1 places, as `name_length` counts them.
expand_char-Fits :
    (hostname : Bool) (nl c : ℕ)
    → Ensures IsBadName
        (λ m.
          (q : Buffer) (r : ℕ) → q.room ≡ m + r → Ensures NoStatus (Left r q) (expand_char nl c q))
        (char_length hostname nl c)
unfolding char_length
expand_char-Fits hostname nl c = elim (Bool-cases (is_escaped nl c)) [
  | inl e ↦ rw e (
      Ensures-if hostname (λ _. fails refl)
        (λ _. returns λ q r h. char_out_escaped nl c q r (omega arith) e))
  | inr e ↦ rw e (
      Ensures-if (is_reservedch c)
        (λ v.
          Ensures-if hostname (λ _. fails refl)
            (λ _. returns λ q r h. char_out_reserved nl c q r (omega arith) e v))
        (λ v.
          Ensures-if (hostname && not (is_hostnamech c)) (λ _. fails refl)
            (λ _. returns λ q r h. char_out_plain nl c q r (omega arith) e v)))
]

zero_of : {c : ℕ} → (c == 0) ≡ true → c ≡ 0
zero_of h = ground arith

pred-mul : (k a : ℕ) → 0 < k → (k - 1) * a + a ≡ k * a
pred-mul zero a h = absurd (omega arith)
pred-mul (suc k) a h = omega (arith, ap (λ (j : ℕ). j * a) (sub_one k))
  where
    sub_one : (k : ℕ) → suc k - 1 ≡ k
    sub_one k = omega arith

module _ (hostname : Bool) (abuf : List ℕ) where
  -- A label that lies in the message is walked to its end. The expansion walks the same bytes, and
  -- with room for what `name_length` adds to `n`, and `r` more, it leaves `r`.
  label_length-Fits :
      (nl k p n : ℕ)
      → p + k ≤ length abuf
      → Ensures IsBadName
          (λ x.
            (x.0 ≡ p + k)
            × (n ≤ x.1)
            × ((q : Buffer) (r : ℕ)
                → q.room + n ≡ x.1 + r
                → Ensures NoStatus
                    (λ y. (y.0 ≡ p + k) × Left r q y.1)
                    (expand_label abuf nl k p q)))
          (label_length hostname abuf nl k p n)
  unfolding label_length expand_label
  label_length-Fits nl zero p n h =
      returns (omega arith, omega arith, λ q r e. returns (omega arith, (omega arith, refl)))
  label_length-Fits nl (suc k) p n h = Ensures-bind (peek-Ensures abuf p (omega arith)) λ c at.
      Ensures-bind (expand_char-Fits hostname nl c) λ m char.
        Ensures-mono (label_length-Fits nl k (p + 1) (n + m) (omega arith)) λ x w. (
          omega arith,
          omega arith,
          λ q r e. rw at (
              Ensures-bind (char q (x.1 - (n + m) + r) (omega arith)) λ q' v.
                Ensures-mono (w.2 q' r (omega arith)) λ y u. (omega arith, (u.1.0, omega arith))),
        )

  module _ (alen encoded : ℕ) (inside : alen ≤ length abuf) where
    -- `*enclen` is not set before the first pointer, and lies in the message from then on.
    abbrev pub EncLen : Option ℕ → ℕ → Type 0
    EncLen none p = encoded ≤ p
    EncLen (some l) p = (1 ≤ l) × (encoded + l ≤ alen)

    -- What the expansion gives from `p` on, if `name_length` counts from `n` to `total`.
    abbrev pub LoopFits : ℕ → ℕ → ℕ → ℕ → Type 0
    LoopFits f p n total =
        (n ≤ total)
        × ((q : Buffer) (r : ℕ) (e : Option ℕ)
            → q.room + n ≡ total + r
            → EncLen e p
            → Ensures NoStatus
                (λ (y : Buffer × ℕ). Left r q y.0 × (1 ≤ y.1) × (encoded + y.1 ≤ alen))
                (expand_loop abuf encoded f p q e))

    loop_end : (f p n : ℕ) → p < alen → peek abuf p ≡ ok 0 → LoopFits (suc f) p n n
    unfolding expand_loop
    loop_end f p n h at = (omega arith, λ q r e x v. rw at (out q r e x v))
      where
        out :
            (q : Buffer) (r : ℕ) (e : Option ℕ)
            → q.room + n ≡ n + r
            → EncLen e p
            → Ensures NoStatus
                (λ (y : Buffer × ℕ). Left r q y.0 × (1 ≤ y.1) × (encoded + y.1 ≤ alen))
                (ok (q, Option.get_or e (p + 1 - encoded)))
        out q r none x v = returns ((omega arith, refl), omega arith, omega arith)
        out q r (some l) x v = returns ((omega arith, refl), v.0, v.1)

    loop_indir :
        (f p n total c d : ℕ)
        → p + 1 < alen
        → peek abuf p ≡ ok c
        → (c == 0) ≡ false
        → is_indir c ≡ true
        → peek abuf (p + 1) ≡ ok d
        → LoopFits f (indir_offset c d) n total
        → LoopFits (suc f) p n total
    unfolding expand_loop
    loop_indir f p n total c d h at nz ind at' rest =
        (rest.0, λ q r e x v. rw (at, nz, ind, at') (rest.1 q r _ x (len e v)))
      where
        len :
            (e : Option ℕ)
            → EncLen e p
            → EncLen (some (Option.get_or e (p + 2 - encoded))) (indir_offset c d)
        len none v = (omega arith, omega arith)
        len (some l) v = v

    loop_label :
        (f p n m total c : ℕ)
        → peek abuf p ≡ ok c
        → (c == 0) ≡ false
        → is_indir c ≡ false
        → n ≤ m
        → ((q : Buffer) (r : ℕ)
            → q.room + n ≡ m + r
            → Ensures NoStatus
                (λ y. (y.0 ≡ p + 1 + c) × Left r q y.1)
                (expand_label abuf c c (p + 1) q))
        → LoopFits f (p + 1 + c) (m + 1) total
        → LoopFits (suc f) p n total
    unfolding expand_loop
    loop_label f p n m total c at nz ind le label rest = (
      omega arith,
      λ q r e x v.
          rw (at, nz, ind)
            (Ensures-bind (label q (total - m + r) (omega arith)) λ y u.
              Ensures-bind (put-Ensures b'.' y.1 (total - (m + 1) + r) (omega arith)) λ q'' w.
                rw u.0 (
                  Ensures-mono (rest.1 q'' r e (omega arith) (len e v))
                    λ z t. ((t.0.0, omega arith), t.1, t.2))),
    )
      where
        len : (e : Option ℕ) → EncLen e p → EncLen e (p + 1 + c)
        len none v = omega arith
        len (some l) v = v

    pub name_length_loop-Fits :
        (f k p n indir : ℕ)
        → p < alen
        → indir + k ≡ max_indirs
        → k * alen + alen < f + p
        → Ensures IsBadName (LoopFits f p n) (name_length_loop hostname abuf alen f p n indir)
    unfolding name_length_loop
    name_length_loop-Fits zero k p n indir hp hk hf = absurd (omega arith)
    name_length_loop-Fits (suc f) k p n indir hp hk hf =
        Ensures-bind (peek-Ensures abuf p (omega arith)) λ c at.
          Ensures-if (c == 0) (λ z. returns (loop_end f p n hp (rw (zero_of z) at at)))
            λ nz.
              Ensures-if (is_indir c)
                (λ ind.
                  Ensures-if (leb alen (p + 1)) (λ _. fails refl)
                    λ more. Ensures-bind (peek-Ensures abuf (p + 1) (ground arith)) λ d at'.
                      Ensures-if (leb alen (indir_offset c d)) (λ _. fails refl)
                        λ off.
                          Ensures-if (ltb alen (indir + 1) || ltb max_indirs (indir + 1))
                            (λ _. fails refl)
                            λ few.
                              Ensures-mono
                                (name_length_loop-Fits f (k - 1) (indir_offset c d) n (indir + 1)
                                  (ground arith) (ground arith) (ground (arith, pred-mul k alen)))
                                λ total rest.
                                  loop_indir f p n total c d (ground arith) at nz ind at' rest)
                (λ ind.
                  Ensures-if (bit_and c indir_mask == 0)
                    (λ top.
                      Ensures-if (leb alen (p + c + 1)) (λ _. fails refl)
                        λ long. Ensures-bind (label_length-Fits c c (p + 1) n (ground arith)) λ x w.
                          rw w.0 (
                            Ensures-mono
                              (name_length_loop-Fits f k (p + 1 + c) (x.1 + 1) indir (ground arith)
                                hk (omega arith))
                              λ total rest. loop_label f p n x.1 total c at nz ind w.1 w.2 rest))
                    (λ _. fails refl))

    -- A name that starts with a pointer has both its bytes in the message.
    pub name_length_loop-is_indir :
        (f p n indir total c : ℕ)
        → name_length_loop hostname abuf alen f p n indir ≡ ok total
        → peek abuf p ≡ ok c
        → is_indir c ≡ true
        → p + 1 < alen
    unfolding name_length_loop is_indir
    name_length_loop-is_indir zero p n indir total c e at ind = cc
    name_length_loop-is_indir (suc f) p n indir total c e at ind = elim (Bool-cases (c == 0)) [
      | inl z ↦ cc (ap is_indir (zero_of z))
      | inr nz ↦ elim (Bool-cases (leb alen (p + 1))) [
        | inl out ↦ absurd (failed (rw (at, nz, ind, out) at e))
        | inr more ↦ ground arith
      ]
    ]
      where
        failed : fail ebadname ≡ ok total → ⊥
        failed x = cc
