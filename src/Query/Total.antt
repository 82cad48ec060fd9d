-- ===== src/Query/Total.antt =====
-- The encoding fits into the block that is allocated for it, for every name.
use c_ares.Base.{
  ℕ, zero, suc, ◌+◌, ◌-◌, ◌≤◌, ◌<◌, ◌≡◌, refl, ap, arith, Bool, not, List, [], ◌∷◌, length, leb,
  ◌==◌, if◌then◌else◌, Bool-cases, inl, inr,
}
use c_ares.Result.{Status, ebadname, Result, ok}
use c_ares.Result.Ensures.{Ensures, returns, Ensures-bind, Ensures-mono, Ensures-if, Ensures-guard}
use c_ares.Cmd.{Buffer, put}
use c_ares.Cmd.Put.{put-Ensures}
use c_ares.Wire.Copy.{puts, puts-Ensures}
use c_ares.Query.{
  maxlabel, header, set16, opt_record, label_count, copy_label, name_loop, skip_root, write_query,
}

-- A write of `n` bytes or less: the room that is left is at least `r`.
abbrev pub Fits : ℕ → Buffer → Buffer → Type 0
Fits r q q' = (r ≤ q'.room) × (length q'.text + q'.room ≡ length q.text + q.room)

put-Fits :
    {E : Status → Type 0} (c : ℕ) (q : Buffer) (r : ℕ) → r < q.room → Ensures E (Fits r q) (put c q)
put-Fits c q r h =
    Ensures-mono (put-Ensures c q (q.room - 1) (omega arith)) λ q' w. (omega arith, w.1)

-- The copy writes as many bytes as `label_count` counts, and takes as many bytes of the name at least.
copy_label-Fits :
    {E : Status → Type 0} (p : List ℕ) (q : Buffer) (r : ℕ)
    → label_count p + r ≤ q.room
    → Ensures E (λ x. (length x.0 + label_count p ≤ length p) × Fits r q x.1) (copy_label p q)
unfolding copy_label label_count
copy_label-Fits [] q r h = returns (omega arith, (omega arith, refl))
copy_label-Fits (c ∷ []) q r h = elim (Bool-cases (c == b'.')) [
  | inl dot ↦ rw (dot, copy_label, label_count) (returns (omega arith, (ground arith, refl)))
  | inr no_dot ↦
      rw (no_dot, copy_label, label_count)
        (Ensures-bind (put-Fits c q r (ground arith)) λ q' w. returns (omega arith, w))
]
copy_label-Fits (c ∷ d ∷ p) q r h = elim (Bool-cases (c == b'.')) [
  | inl dot ↦ rw (dot, copy_label, label_count) (returns (omega arith, (ground arith, refl)))
  | inr no_dot ↦ elim (Bool-cases (c == b'\\')) [
    | inl esc ↦
        rw (no_dot, esc, copy_label, label_count)
          (Ensures-bind (put-Fits d q (label_count p + r) (ground arith)) λ q' w.
            Ensures-mono (copy_label-Fits p q' r w.0) λ x v. (omega arith, (v.1.0, omega arith)))
    | inr plain ↦
        rw (no_dot, plain, copy_label, label_count)
          (Ensures-bind (put-Fits c q (label_count (d ∷ p) + r) (ground arith)) λ q' w.
            Ensures-mono (copy_label-Fits (d ∷ p) q' r w.0)
              λ x v. (omega arith, (v.1.0, omega arith)))
  ]
]

label_count-le : (p : List ℕ) → label_count p ≤ length p
unfolding label_count
label_count-le [] = omega arith
label_count-le (c ∷ []) = ground arith
label_count-le (c ∷ d ∷ p) = ground (arith, label_count-le p, label_count-le (d ∷ p))

abbrev pub IsBadName : Status → Type 0
IsBadName s = s ≡ ebadname

after_label :
    (fuel : ℕ) (p : List ℕ) (q : Buffer) (r : ℕ)
    → r ≤ q.room
    → ((dot : ℕ) (name : List ℕ)
        → p ≡ dot ∷ name
        → Ensures IsBadName (Fits r q) (name_loop fuel name q))
    → Ensures IsBadName
        (Fits r q)
        (elim p as (λ _. Result Buffer) [ [] ↦ ok q | dot ∷ name ↦ name_loop fuel name q ])
after_label fuel [] q r h next = returns (h, refl)
after_label fuel (dot ∷ name) q r h next = next dot name refl

-- With a byte for each byte of the name, and one more, the loop leaves what it does not need.
name_loop-Fits :
    (fuel : ℕ) (name : List ℕ) (q : Buffer) (r : ℕ)
    → length name ≤ fuel
    → length name + 1 + r ≤ q.room
    → Ensures IsBadName (Fits r q) (name_loop fuel name q)
unfolding name_loop
name_loop-Fits fuel [] q r f h = returns (omega arith, refl)
name_loop-Fits zero (c ∷ name) q r f h = absurd (omega arith)
name_loop-Fits (suc fuel) (c ∷ name) q r f h =
    Ensures-guard (not (c == b'.')) ebadname refl λ no_dot.
      Ensures-guard (leb (label_count (c ∷ name)) maxlabel) ebadname refl λ short.
        Ensures-bind (put-Fits (label_count (c ∷ name)) q (length name + 1 + r) (omega arith))
          λ q1 w.
            Ensures-bind
              (copy_label-Fits (c ∷ name) q1 (length name + 1 + r - label_count (c ∷ name))
                (omega (arith, label_count-le (c ∷ name))))
              λ x v.
                Ensures-mono
                  (after_label fuel x.0 x.1 r (omega (arith, v.1.0, label_count-le (c ∷ name)))
                    λ dot name' e.
                      name_loop-Fits fuel name' x.1 r (omega (arith, v.0, ap length e))
                        (omega (arith, v.0, v.1.0, ap length e, label_count-le (c ∷ name))))
                  λ q' u. (u.0, omega (arith, u.1, v.1.1, w.1))

skip_root-le : (name : List ℕ) → length (skip_root name) ≤ length name
unfolding skip_root
skip_root-le [] = omega arith
skip_root-le (c ∷ []) = ground arith
skip_root-le (c ∷ d ∷ name) = omega arith

-- a known text, of `n` bytes
puts-Fits :
    {E : Status → Type 0} (cs : List ℕ) (q : Buffer) (r : ℕ)
    → length cs + r ≤ q.room
    → Ensures E (Fits r q) (puts cs q)
puts-Fits cs q r h =
    Ensures-mono (puts-Ensures cs q (q.room - length cs) (omega arith)) λ q' w. (omega arith, w.1)

-- The whole message fits into the block that `ares_create_query` allocates for it.
pub write_query-Fits :
    (name : List ℕ) (dnsclass type id : ℕ) (rd : Bool) (max_udp_size : ℕ) (q : Buffer)
    → length name + 18 + (if max_udp_size == 0 then 0 else 11) ≤ q.room
    → Ensures IsBadName (Fits 0 q) (write_query name dnsclass type id rd max_udp_size q)
unfolding write_query
write_query-Fits name dnsclass type id rd max_udp_size q h =
    let e : ℕ = if max_udp_size == 0 then 0 else 11 in
    Ensures-bind
      (puts-Fits (header id rd (not (max_udp_size == 0))) q (length name + 6 + e) (omega arith))
      λ q1 w1.
        Ensures-bind
          (name_loop-Fits (length name) (skip_root name) q1 (5 + e) (skip_root-le name)
            (omega (arith, skip_root-le name)))
          λ q2 w2. Ensures-bind (put-Fits 0 q2 (4 + e) (omega arith)) λ q3 w3.
            Ensures-bind (puts-Fits (set16 type) q3 (2 + e) (omega arith)) λ q4 w4.
              Ensures-bind (puts-Fits (set16 dnsclass) q4 e (omega arith)) λ q5 w5.
                Ensures-if (max_udp_size == 0) (λ _. returns (omega arith, omega arith))
                  (λ some_size.
                    Ensures-mono (puts-Fits (opt_record max_udp_size) q5 0 (ground arith))
                      λ q6 w6. (w6.0, omega arith))
