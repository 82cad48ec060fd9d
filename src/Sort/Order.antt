-- ===== src/Sort/Order.antt =====
-- The comparison of src/lib/ares__sortaddrinfo.c as an order.
use c_ares.Base.{
  ℕ, ◌<◌, ◌≡◌, ◌≢◌, refl, sym, ap, ◌∙◌, ◌⊎◌, inl, inr, arith, Bool, true, false, not, ◌&&◌, ℤ, pos,
  sub, neg, is_neg, neg-sub, sub-is_neg, is_neg-sub, sub_ne, ◌==◌, if◌then◌else◌,
}
use c_ares.Sort.{
  SockAddr, inet, inet6, other, is_inet6, in6_v4mapped, SortElem, get_scope, get_precedence,
  scope_match, label_match, has_prefix, prefixlen, rfc6724_compare,
}

-- One rule: the smaller value first, then the rules behind it.
abbrev level : ℕ → ℕ → ℤ → ℤ
level x y r = if not (x == y) then sub x y else r

-- the same with the greater value first
abbrev level_down : ℕ → ℕ → ℤ → ℤ
level_down x y r = if not (x == y) then sub y x else r

level-neg : (x y : ℕ) (r r' : ℤ) → r' ≡ neg r → level y x r' ≡ neg (level x y r)
level-neg x y r r' h = ground (arith, neg-sub x y)

level_down-neg : (x y : ℕ) (r r' : ℤ) → r' ≡ neg r → level_down y x r' ≡ neg (level_down x y r)
level_down-neg x y r r' h = ground (arith, neg-sub y x)

abbrev Less : ℤ → Type 0
Less r = is_neg r ≡ true

-- A rule decides, or it passes on.
level-cases : (x y : ℕ) (r : ℤ) → Less (level x y r) → (x < y) ⊎ ((x ≡ y) × Less r)
level-cases x y r p = by_cases (x == y) refl
  where
    by_cases : (b : Bool) → (x == y) ≡ b → (x < y) ⊎ ((x ≡ y) × Less r)
    by_cases true e = inr (ground arith, rw (sym (ap (λ c. if not c then sub x y else r) e)) p)
    by_cases false e = inl (sub-is_neg x y (rw (sym (ap (λ c. if not c then sub x y else r) e)) p))

level-lt : (x y : ℕ) (r : ℤ) → x < y → Less (level x y r)
level-lt x y r h = ground arith

level-eq : (x y : ℕ) (r : ℤ) → x ≡ y → Less r → Less (level x y r)
level-eq x y r h p = ground arith

level_trans :
    (x y z : ℕ) (r s t : ℤ)
    → (x ≡ y → y ≡ z → Less r → Less s → Less t)
    → Less (level x y r)
    → Less (level y z s)
    → Less (level x z t)
level_trans x y z r s t h p q = elim (level-cases x y r p) [
  | inl lt ↦ elim (level-cases y z s q) [
    | inl lt' ↦ level-lt x z t (omega arith)
    | inr w ↦ level-lt x z t (omega (arith, w.0))
  ]
  | inr w ↦ elim (level-cases y z s q) [
    | inl lt ↦ level-lt x z t (omega (arith, w.0))
    | inr v ↦ level-eq x z t (w.0 ∙ v.0) (h w.0 v.0 w.1 v.1)
  ]
]

level_down-level : (x y : ℕ) (r : ℤ) → level_down x y r ≡ level y x r
level_down-level x y r = ground arith

level_down_trans :
    (x y z : ℕ) (r s t : ℤ)
    → (x ≡ y → y ≡ z → Less r → Less s → Less t)
    → Less (level_down x y r)
    → Less (level_down y z s)
    → Less (level_down x z t)
level_down_trans x y z r s t h p q = rw (level_down-level x z t) (
    level_trans z y x s r t (λ e f u v. h (sym f) (sym e) v u) (rw (sym (level_down-level y z s)) q)
      (rw (sym (level_down-level x y r)) p))

level-ne : (x y : ℕ) (r : ℤ) → r ≢ pos 0 → level x y r ≢ pos 0
level-ne x y r h = ground (arith, sub_ne x y)

level_down-ne : (x y : ℕ) (r : ℤ) → r ≢ pos 0 → level_down x y r ≢ pos 0
level_down-ne x y r h = ground (arith, sub_ne y x)

-- Rule 9, which needs both elements, and rule 10.
abbrev last_rules : Bool → Bool → ℕ → ℕ → ℤ → ℤ
last_rules u v x y r = if (u && v) && not (x == y) then sub y x else r

last_rules-neg :
    (u v : Bool) (x y : ℕ) (r r' : ℤ)
    → r' ≡ neg r
    → last_rules v u y x r' ≡ neg (last_rules u v x y r)
last_rules-neg true true x y r r' h = level_down-neg x y r r' h
last_rules-neg true false x y r r' h = h
last_rules-neg false true x y r r' h = h
last_rules-neg false false x y r r' h = h

last_rules_trans :
    (u : Bool) (x y z : ℕ) (r s t : ℤ)
    → (Less r → Less s → Less t)
    → Less (last_rules u u x y r)
    → Less (last_rules u u y z s)
    → Less (last_rules u u x z t)
last_rules_trans true x y z r s t h = level_down_trans x y z r s t (λ _ _. h)
last_rules_trans false x y z r s t h = h

last_rules-ne : (u v : Bool) (x y : ℕ) (r : ℤ) → r ≢ pos 0 → last_rules u v x y r ≢ pos 0
last_rules-ne true true x y r h = level_down-ne x y r h
last_rules-ne true false x y r h = h
last_rules-ne false v x y r h = h

-- The result of `rfc6724_compare` for two elements in the other order is its negation.
pub neg-rfc6724_compare : (a b : SortElem) → rfc6724_compare b a ≡ neg (rfc6724_compare a b)
unfolding rfc6724_compare
neg-rfc6724_compare a b = level_down-neg a.has_src_addr b.has_src_addr _ _ (
    level_down-neg (scope_match a) (scope_match b) _ _ (
      level_down-neg (label_match a) (label_match b) _ _ (
        level_down-neg (get_precedence a.ai_addr) (get_precedence b.ai_addr) _ _ (
          level-neg (get_scope a.ai_addr) (get_scope b.ai_addr) _ _ (
            last_rules-neg (has_prefix a) (has_prefix b) (prefixlen a) (prefixlen b) _ _
              (sym (neg-sub a.original_order b.original_order)))))))

-- `rfc6724_compare` never answers 0 for two elements whose original places differ.
pub rfc6724_compare_ne :
    (a b : SortElem) → a.original_order ≢ b.original_order → rfc6724_compare a b ≢ pos 0
unfolding rfc6724_compare
rfc6724_compare_ne a b h = level_down-ne a.has_src_addr b.has_src_addr _ (
    level_down-ne (scope_match a) (scope_match b) _ (
      level_down-ne (label_match a) (label_match b) _ (
        level_down-ne (get_precedence a.ai_addr) (get_precedence b.ai_addr) _ (
          level-ne (get_scope a.ai_addr) (get_scope b.ai_addr) _ (
            last_rules-ne (has_prefix a) (has_prefix b) (prefixlen a) (prefixlen b) _
              (sub_ne a.original_order b.original_order h))))))

-- For two elements whose original places differ: the result of `rfc6724_compare` for them in the
-- other order is its negation, and it is never 0.
pub rfc6724_compare_strict :
    (a b : SortElem)
    → a.original_order ≢ b.original_order
    → (rfc6724_compare b a ≡ neg (rfc6724_compare a b)) × (rfc6724_compare a b ≢ pos 0)
rfc6724_compare_strict a b h = (neg-rfc6724_compare a b, rfc6724_compare_ne a b h)

-- an IPv4 address, or an IPv6 address that is not mapped from one
abbrev pub IsUnmapped : SockAddr → Type 0
IsUnmapped (inet na) = Unit
IsUnmapped (inet6 s) = in6_v4mapped s ≡ false
IsUnmapped other = ⊥

precedence-inet6 : (s : ℕ → ℕ) → in6_v4mapped s ≡ false → get_precedence (inet6 s) ≢ 35
unfolding get_precedence
precedence-inet6 s h e = ground arith

-- Equal precedences are those of one family.
same_family :
    (x y : SockAddr)
    → IsUnmapped x
    → IsUnmapped y
    → get_precedence x ≡ get_precedence y
    → is_inet6 x ≡ is_inet6 y
unfolding get_precedence
same_family (inet n) (inet m) p q e = refl
same_family (inet n) (inet6 s) p q e = absurd (precedence-inet6 s q (sym e))
same_family (inet6 s) (inet n) p q e = absurd (precedence-inet6 s p e)
same_family (inet6 s) (inet6 t) p q e = refl
same_family other y p q e = absurd p
same_family (inet n) other p q e = absurd q
same_family (inet6 s) other p q e = absurd q

same_has_prefix :
    (a b : SortElem)
    → IsUnmapped a.ai_addr
    → IsUnmapped b.ai_addr
    → a.has_src_addr ≡ b.has_src_addr
    → get_precedence a.ai_addr ≡ get_precedence b.ai_addr
    → has_prefix a ≡ has_prefix b
unfolding has_prefix
same_has_prefix a b p q h e =
    let f = same_family a.ai_addr b.ai_addr p q e in λ i. not (h i == 0) && f i

-- On elements with IPv4 addresses, or IPv6 addresses that are not mapped from IPv4, the order of
-- `rfc6724_compare` is transitive: if the first element stands before the second and the second
-- before the third, the first stands before the third.
pub rfc6724_compare_trans :
    (a b c : SortElem)
    → IsUnmapped a.ai_addr
    → IsUnmapped b.ai_addr
    → IsUnmapped c.ai_addr
    → is_neg (rfc6724_compare a b) ≡ true
    → is_neg (rfc6724_compare b c) ≡ true
    → is_neg (rfc6724_compare a c) ≡ true
unfolding rfc6724_compare
rfc6724_compare_trans a b c p q r =
    level_down_trans a.has_src_addr b.has_src_addr c.has_src_addr _ _ _ λ ab bc.
      level_down_trans (scope_match a) (scope_match b) (scope_match c) _ _ _ λ _ _.
        level_down_trans (label_match a) (label_match b) (label_match c) _ _ _ λ _ _.
          level_down_trans (get_precedence a.ai_addr) (get_precedence b.ai_addr)
            (get_precedence c.ai_addr) _ _ _
            λ ab' bc'.
              level_trans (get_scope a.ai_addr) (get_scope b.ai_addr) (get_scope c.ai_addr) _ _ _
                λ _ _.
                  rule_9 (has_prefix a) (has_prefix b) (has_prefix c)
                    (same_has_prefix a b p q ab ab') (same_has_prefix b c q r bc bc')
  where
    order : (x y z : ℕ) → Less (sub x y) → Less (sub y z) → Less (sub x z)
    order x y z h k = is_neg-sub x z (omega (arith, sub-is_neg x y h, sub-is_neg y z k))

    rule_9 :
        (u v w : Bool)
        → u ≡ v
        → v ≡ w
        → Less (last_rules u v (prefixlen a) (prefixlen b) (sub a.original_order b.original_order))
        → Less (last_rules v w (prefixlen b) (prefixlen c) (sub b.original_order c.original_order))
        → Less (last_rules u w (prefixlen a) (prefixlen c) (sub a.original_order c.original_order))
    rule_9 u v w e f =
        rw (e, f)
          (last_rules_trans w (prefixlen a) (prefixlen b) (prefixlen c) _ _ _
            (order a.original_order b.original_order c.original_order))
