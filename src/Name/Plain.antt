-- ===== src/Name/Plain.antt =====
-- The expansion of encoded labels that need no escapes.
use mathlib.Core.Path.{fun_ext}
use mathlib.Core.List.{append_assoc}
use c_ares.Base.{
  ℕ, zero, suc, ◌+◌, ◌-◌, ◌<◌, ◌≡◌, ◌≢◌, refl, sym, ◌∙◌, ap, arith, Bool, true, false, not, List,
  [], ◌∷◌, ◌++◌, length, length-append, leb, ◌==◌, All, none, drop_last, drop_last-concat, bit_and,
  all_below, all_below_sound, ◌&&◌,
}
use c_ares.Result.{Result, ok, ◌>>=◌, >>=_assoc}
use c_ares.Cmd.{Buffer, put}
use c_ares.Wire.At.{At, At-peek, At-next, At-append, At-length}
use c_ares.Wire.Copy.{puts, puts-append}
use c_ares.Query.Plain.{IsPlainCh, IsPlainLabel, dotted, encoded, length_pos}
use c_ares.Name.{
  is_hostnamech, indir_mask, is_escaped, is_indir, char_length, label_length, name_length_loop,
  expand_char, expand_label, expand_loop,
}

-- the text that the expansion writes: each label and a dot
abbrev pub ended : List (List ℕ) → List ℕ
ended [] = []
ended (l ∷ ls) = l ++ (b'.' ∷ ended ls)

ended-ne-nil : (l : List ℕ) (ls : List (List ℕ)) → ended (l ∷ ls) ≢ []
ended-ne-nil [] ls e = cc
ended-ne-nil (c ∷ l) ls e = cc

-- The last element of a list that ends in `rest` is that of `rest`.
drop_last-append :
    (xs : List ℕ) (y : ℕ) (rest : List ℕ)
    → rest ≢ []
    → drop_last (xs ++ (y ∷ rest)) ≡ xs ++ (y ∷ drop_last rest)
drop_last-append [] y [] h = absurd (h refl)
drop_last-append [] y (z ∷ rest) h = refl
drop_last-append (x ∷ []) y rest h = ap (◌∷◌ x) (drop_last-append [] y rest h)
drop_last-append (x ∷ w ∷ xs) y rest h = ap (◌∷◌ x) (drop_last-append (w ∷ xs) y rest h)

pub drop_last-ended : (ls : List (List ℕ)) → drop_last (ended ls) ≡ dotted ls
drop_last-ended [] = refl
drop_last-ended (l ∷ []) = drop_last-concat l b'.'
drop_last-ended (l ∷ m ∷ ls) =
    drop_last-append l b'.' (ended (m ∷ ls)) (ended-ne-nil m ls)
    ∙ ap (λ t. l ++ (b'.' ∷ t)) (drop_last-ended (m ∷ ls))

-- A hostname has only some of the printable characters.
abbrev IsAllowedCh : Bool → ℕ → Type 0
IsAllowedCh hostname c = (hostname && not (is_hostnamech c)) ≡ false

abbrev pub IsAllowed : Bool → List (List ℕ) → Type 0
IsAllowed hostname = All (All (IsAllowedCh hostname))

allowed_label : (l : List ℕ) → All (IsAllowedCh false) l
allowed_label [] = tt
allowed_label (c ∷ l) = (refl, allowed_label l)

pub any-IsAllowed : (ls : List (List ℕ)) → IsAllowed false ls
any-IsAllowed [] = tt
any-IsAllowed (l ∷ ls) = (allowed_label l, any-IsAllowed ls)

char_length-plain :
    (hostname : Bool) (nl c : ℕ)
    → IsPlainCh c
    → IsAllowedCh hostname c
    → char_length hostname nl c ≡ ok 1
unfolding char_length is_escaped
char_length-plain hostname nl c (p, r) a = rw (p, r, a) refl

expand_char-plain : (nl c : ℕ) (q : Buffer) → IsPlainCh c → expand_char nl c q ≡ put c q
unfolding expand_char is_escaped
expand_char-plain nl c q (p, r) = rw (p, r) refl

abbrev top_clear : ℕ → Bool
top_clear c = not (bit_and c indir_mask == indir_mask) && bit_and c indir_mask == 0

top_table : all_below top_clear 64 ≡ true
unfolding all_below
top_table = refl

-- A length of at most 63 has its two top bits clear.
top_bits : (c : ℕ) → c < 64 → (is_indir c ≡ false) × ((bit_and c indir_mask == 0) ≡ true)
unfolding is_indir
top_bits c h = ground (arith, all_below_sound top_clear c 64 top_table h)

ok_pair :
    {A B : Type 0} {a a' : A} {b b' : B}
    → a ≡ a'
    → b ≡ b'
    → ◌≡◌ {A = Result (A × B)} (ok (a, b)) (ok (a', b'))
ok_pair e f = λ i. ok (e i, f i)

abbrev placed : ℕ → Buffer → Result (ℕ × Buffer)
placed p q = ok (p, q)

abbrev pub finish : ℕ → Buffer → Result (Buffer × ℕ)
finish enclen q = ok (q, enclen)

module _ {abuf : List ℕ} where
  label_length-plain :
      (hostname : Bool) (nl p n : ℕ) (l rest : List ℕ)
      → At abuf p (l ++ rest)
      → All IsPlainCh l
      → All (IsAllowedCh hostname) l
      → label_length hostname abuf nl (length l) p n ≡ ok (p + length l, n + length l)
  unfolding label_length
  label_length-plain hostname nl p n [] rest at h a = ok_pair (omega arith) (omega arith)
  label_length-plain hostname nl p n (c ∷ l) rest at h a =
      rw (At-peek at, char_length-plain hostname nl c h.0 a.0)
        (label_length-plain hostname nl (p + 1) (n + 1) l rest (At-next at) h.1 a.1
          ∙ ok_pair (omega arith) (omega arith))

  expand_label-plain :
      (nl p : ℕ) (l rest : List ℕ) (q : Buffer)
      → At abuf p (l ++ rest)
      → All IsPlainCh l
      → expand_label abuf nl (length l) p q ≡ (puts l q >>= placed (p + length l))
  unfolding expand_label puts
  expand_label-plain nl p [] rest q at h = ok_pair (omega arith) refl
  expand_label-plain nl p (c ∷ l) rest q at h =
      rw (At-peek at, expand_char-plain nl c q h.0)
        (ap (◌>>=◌ (put c q)) (
            fun_ext λ q'.
              expand_label-plain nl (p + 1) l rest q' (At-next at) h.1
              ∙ ap (λ k. puts l q' >>= placed k) (omega arith))
          ∙ sym (>>=_assoc (put c q) (puts l) (placed (p + length (c ∷ l)))))

  regroup : {p : ℕ} (l xs ys : List ℕ) → At abuf p ((l ++ xs) ++ ys) → At abuf p (l ++ (xs ++ ys))
  regroup {p} l xs ys at = rw (append_assoc l xs ys) at at

  -- After a label there is at least the root label.
  room :
      (l : List ℕ) (ls : List (List ℕ)) (post : List ℕ) (p : ℕ)
      → At abuf p (length l ∷ ((l ++ encoded ls) ++ (0 ∷ post)))
      → p + length l + 1 < length abuf
  room l ls post p at = omega (
    arith,
    At-length at,
    length-append (l ++ encoded ls) (0 ∷ post),
    length-append l (encoded ls),
  )

  -- `name_length` counts the text that is written.
  pub name_length_loop-plain :
      (hostname : Bool) (f p n indir : ℕ) (ls : List (List ℕ)) (post : List ℕ)
      → At abuf p (encoded ls ++ (0 ∷ post))
      → All IsPlainLabel ls
      → IsAllowed hostname ls
      → length ls < f
      → name_length_loop hostname abuf (length abuf) f p n indir ≡ ok (n + length (ended ls))
  unfolding name_length_loop
  name_length_loop-plain hostname zero p n indir ls post at h a f = absurd (omega arith)
  name_length_loop-plain hostname (suc k) p n indir [] post at h a f =
      rw (At-peek at) (ap ok (omega arith))
  name_length_loop-plain hostname (suc k) p n indir (l ∷ ls) post at h a f =
      let nz : (length l == 0) ≡ false = ground (arith, length_pos l h.0.filled) in
      let bits = top_bits (length l) (omega (arith, h.0.short)) in
      let at' = regroup l (encoded ls) (0 ∷ post) (At-next at) in
      let inside : leb (length abuf) (p + length l + 1) ≡ false =
        ground (arith, room l ls post p at) in
      rw
        (
          At-peek at,
          nz,
          bits.0,
          bits.1,
          inside,
          label_length-plain hostname (length l) (p + 1) n l (encoded ls ++ (0 ∷ post)) at'
              h.0.plain a.0,
        )
        (name_length_loop-plain hostname k (p + 1 + length l) (n + length l + 1) indir ls post
            (At-append l at') h.1 a.1 (omega arith)
          ∙ ap ok (omega (arith, length-append l (b'.' ∷ ended ls))))

  -- The expansion writes each label and a dot, and ends behind the root label.
  pub expand_loop-plain :
      (start f p : ℕ) (q : Buffer) (ls : List (List ℕ)) (post : List ℕ)
      → At abuf p (encoded ls ++ (0 ∷ post))
      → All IsPlainLabel ls
      → length ls < f
      → expand_loop abuf start f p q none
        ≡ (puts (ended ls) q >>= finish (p + length (encoded ls) + 1 - start))
  unfolding expand_loop puts
  expand_loop-plain start zero p q ls post at h f = absurd (omega arith)
  expand_loop-plain start (suc k) p q [] post at h f = rw (At-peek at) (ok_pair refl (omega arith))
  expand_loop-plain start (suc k) p q (l ∷ ls) post at h f =
      let nz : (length l == 0) ≡ false = ground (arith, length_pos l h.0.filled) in
      let bits = top_bits (length l) (omega (arith, h.0.short)) in
      let at' = regroup l (encoded ls) (0 ∷ post) (At-next at) in
      rw
        (
          At-peek at,
          nz,
          bits.0,
          expand_label-plain (length l) (p + 1) l (encoded ls ++ (0 ∷ post)) q at' h.0.plain,
        )
        (>>=_assoc (puts l q) (placed (p + 1 + length l)) step
          ∙ ap (◌>>=◌ (puts l q)) (
              fun_ext λ q1.
                ap (◌>>=◌ (put b'.' q1)) (
                  fun_ext λ q2.
                    expand_loop-plain start k (p + 1 + length l) q2 ls post (At-append l at') h.1
                      (omega arith)
                    ∙ ap (λ n. puts (ended ls) q2 >>= finish n)
                        (omega (arith, length-append l (encoded ls))))
                ∙ sym (>>=_assoc (put b'.' q1) (puts (ended ls)) done))
          ∙ sym (>>=_assoc (puts l q) (puts (b'.' ∷ ended ls)) done)
          ∙ ap (λ m. m >>= done) (sym (puts-append l (b'.' ∷ ended ls) q)))
    where
      step : ℕ × Buffer → Result (Buffer × ℕ)
      step x = put b'.' x.1 >>= λ q2. expand_loop abuf start k x.0 q2 none

      done : Buffer → Result (Buffer × ℕ)
      done = finish (p + length (encoded (l ∷ ls)) + 1 - start)
