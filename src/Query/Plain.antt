-- ===== src/Query/Plain.antt =====
-- Names whose labels need no escapes: how they are written with dots, how they stand in a message,
-- and that `ares_create_query` turns the one into the other.
use mathlib.Core.Path.{fun_ext}
use mathlib.Core.List.{append-nil}
use c_ares.Base.{
  ℕ, zero, suc, ◌≤◌, ◌<◌, ◌≡◌, ◌≢◌, refl, sym, ◌∙◌, ap, arith, true, false, List, [], ◌∷◌, ◌++◌,
  length, length-append, leb, ◌==◌, All,
}
use c_ares.Result.{Result, ok, ◌>>=◌, >>=_assoc, >>=_ok}
use c_ares.Cmd.{Buffer, put}
use c_ares.Wire.Copy.{c_string, puts, puts-append}
use c_ares.Name.{isprint, is_reservedch}
use c_ares.Query.{maxlabel, label_count, copy_label, name_loop}

-- a printable character that is not reserved
abbrev pub IsPlainCh : ℕ → Type 0
IsPlainCh c = (isprint c ≡ true) × (is_reservedch c ≡ false)

pub record IsPlainLabel (l : List ℕ) : Type 0 where
  pub plain : All IsPlainCh l
  pub filled : l ≢ []
  pub short : length l ≤ maxlabel

-- the labels with dots between them
abbrev pub dotted : List (List ℕ) → List ℕ
dotted [] = []
dotted (l ∷ []) = l
dotted (l ∷ m ∷ ls) = l ++ (b'.' ∷ dotted (m ∷ ls))

-- the labels behind their lengths, without the root label
abbrev pub encoded : List (List ℕ) → List ℕ
encoded [] = []
encoded (l ∷ ls) = length l ∷ (l ++ encoded ls)

-- a plain character is neither the dot, nor the backslash, nor NUL
pub plain_facts :
    (c : ℕ) → IsPlainCh c → ((c == b'.') ≡ false) × ((c == b'\\') ≡ false) × ((c == 0) ≡ false)
unfolding isprint is_reservedch
plain_facts c (p, r) = (ground arith, ground arith, ground arith)

-- A text of plain characters is a C string.
c_string-append : (l p : List ℕ) → All IsPlainCh l → c_string p ≡ p → c_string (l ++ p) ≡ l ++ p
c_string-append [] p h e = e
c_string-append (c ∷ l) p h e =
    rw (plain_facts c h.0).2 (ap (λ t. c ∷ t) (c_string-append l p h.1 e))

pub c_string-dotted : (ls : List (List ℕ)) → All IsPlainLabel ls → c_string (dotted ls) ≡ dotted ls
c_string-dotted [] h = refl
c_string-dotted (l ∷ []) h =
    ap c_string (sym (append-nil l)) ∙ c_string-append l [] h.0.plain refl ∙ append-nil l
c_string-dotted (l ∷ m ∷ ls) h =
    c_string-append l (b'.' ∷ dotted (m ∷ ls)) h.0.plain
      (ap (λ t. b'.' ∷ t) (c_string-dotted (m ∷ ls) h.1))

-- what may follow a label
data Ends : List ℕ → Type 0 where
  at_end : Ends []
  at_dot : {c : ℕ} {p : List ℕ} → (c == b'.') ≡ true → Ends (c ∷ p)

label_count-cons : (c : ℕ) (p : List ℕ) → IsPlainCh c → label_count (c ∷ p) ≡ suc (label_count p)
unfolding label_count
label_count-cons c [] h = rw ((plain_facts c h).0, label_count) refl
label_count-cons c (d ∷ p) h = rw ((plain_facts c h).0, (plain_facts c h).1, label_count) refl

label_count-Ends : {p : List ℕ} → Ends p → label_count p ≡ 0
unfolding label_count
label_count-Ends at_end = refl
label_count-Ends (at_dot {p = []} e) = rw (e, label_count) refl
label_count-Ends (at_dot {p = d ∷ p} e) = rw (e, label_count) refl

label_count-plain : (l p : List ℕ) → All IsPlainCh l → Ends p → label_count (l ++ p) ≡ length l
label_count-plain [] p h e = label_count-Ends e
label_count-plain (c ∷ l) p h e =
    label_count-cons c (l ++ p) h.0 ∙ ap suc (label_count-plain l p h.1 e)

copy_label-cons :
    (c : ℕ) (p : List ℕ) (q : Buffer)
    → IsPlainCh c
    → copy_label (c ∷ p) q ≡ (put c q >>= λ q'. copy_label p q')
unfolding copy_label
copy_label-cons c [] q h = rw ((plain_facts c h).0, copy_label) refl
copy_label-cons c (d ∷ p) q h = rw ((plain_facts c h).0, (plain_facts c h).1, copy_label) refl

copy_label-Ends : {p : List ℕ} (q : Buffer) → Ends p → copy_label p q ≡ ok (p, q)
unfolding copy_label
copy_label-Ends q at_end = refl
copy_label-Ends q (at_dot {p = []} e) = rw (e, copy_label) refl
copy_label-Ends q (at_dot {p = d ∷ p} e) = rw (e, copy_label) refl

abbrev paired : List ℕ → Buffer → Result (List ℕ × Buffer)
paired p q = ok (p, q)

copy_label-plain :
    (l p : List ℕ) (q : Buffer)
    → All IsPlainCh l
    → Ends p
    → copy_label (l ++ p) q ≡ (puts l q >>= paired p)
unfolding puts
copy_label-plain [] p q h e = copy_label-Ends q e
copy_label-plain (c ∷ l) p q h e =
    copy_label-cons c (l ++ p) q h.0
    ∙ rw (>>=_assoc (put c q) (puts l) (paired p))
        (ap (◌>>=◌ (put c q)) (fun_ext λ q'. copy_label-plain l p q' h.1 e))

-- the rest of a round of `name_loop`
abbrev after_label : ℕ → List ℕ → Buffer → Result Buffer
after_label fuel p q = elim p [ [] ↦ ok q | dot ∷ name ↦ name_loop fuel name q ]

name_loop_round :
    (fuel : ℕ) (l p : List ℕ) (q : Buffer)
    → IsPlainLabel l
    → Ends p
    → name_loop (suc fuel) (l ++ p) q ≡ (puts (length l ∷ l) q >>= after_label fuel p)
unfolding name_loop puts
name_loop_round fuel [] p q h e = absurd (h.filled refl)
name_loop_round fuel (c ∷ l) p q h e =
    rw
      (
        (plain_facts c h.plain.0).0,
        label_count-plain (c ∷ l) p h.plain e,
        let s : leb (length (c ∷ l)) maxlabel ≡ true = ground (arith, h.short) in s,
      )
      (ap (◌>>=◌ (put (length (c ∷ l)) q)) (
          fun_ext λ q1.
            ap (λ m. m >>= next) (copy_label-plain (c ∷ l) p q1 h.plain e)
            ∙ >>=_assoc (puts (c ∷ l) q1) (paired p) next)
        ∙ sym (>>=_assoc (put (length (c ∷ l)) q) (puts (c ∷ l)) (after_label fuel p)))
  where
    next : List ℕ × Buffer → Result Buffer
    next x = after_label fuel x.0 x.1

pub length_pos : (l : List ℕ) → l ≢ [] → 0 < length l
length_pos [] h = absurd (h refl)
length_pos (x ∷ l) h = omega arith

-- `ares_create_query` writes a dotted name as its encoded labels.
pub name_loop-dotted :
    (fuel : ℕ) (ls : List (List ℕ)) (q : Buffer)
    → All IsPlainLabel ls
    → length (dotted ls) ≤ fuel
    → name_loop fuel (dotted ls) q ≡ puts (encoded ls) q
name_loop-dotted fuel [] q h f = unfold name_loop puts in refl
name_loop-dotted zero (l ∷ []) q h f = absurd (omega (arith, length_pos l h.0.filled))
name_loop-dotted (suc fuel) (l ∷ []) q h f =
    ap (λ t. name_loop (suc fuel) t q) (sym (append-nil l))
    ∙ name_loop_round fuel l [] q h.0 at_end
    ∙ >>=_ok (puts (length l ∷ l) q)
    ∙ ap (λ t. puts (length l ∷ t) q) (sym (append-nil l))
name_loop-dotted zero (l ∷ m ∷ ls) q h f =
    absurd (omega (arith, length-append l (b'.' ∷ dotted (m ∷ ls))))
name_loop-dotted (suc fuel) (l ∷ m ∷ ls) q h f =
    name_loop_round fuel l (b'.' ∷ dotted (m ∷ ls)) q h.0 (at_dot refl)
    ∙ ap (◌>>=◌ (puts (length l ∷ l) q)) (
        fun_ext λ q'.
          name_loop-dotted fuel (m ∷ ls) q' h.1
            (omega (arith, length-append l (b'.' ∷ dotted (m ∷ ls)))))
    ∙ sym (puts-append (length l ∷ l) (encoded (m ∷ ls)) q)
