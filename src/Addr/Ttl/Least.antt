-- ===== src/Addr/Ttl/Least.antt =====
-- What `ares__addrinfo2addrttl` writes: the first addresses of the family, each with the least TTL
-- of its own and those of the aliases.
use mathlib.Core.List.{append_assoc, append-nil}
use c_ares.Base.{
  ℕ, zero, suc, some, get_elem?, ◌⊎◌, ◌∙◌, ◌+◌, ◌-◌, ◌%◌, ◌≤◌, ◌<◌, ◌≡◌, ltb→lt, refl, sym, ap,
  arith, Bool-cases, inl, inr, true, false, ◌&&◌, ◌||◌, ◌==◌, List, [], ◌∷◌, ◌++◌, length, map,
  take, All, ltb, if◌then◌else◌, length-concat,
}
use c_ares.Result.{ok}
use c_ares.Cmd.Slots.{Slots, empty_slots, store-ok}
use c_ares.Wire.Copy.{memcpy}
use c_ares.Wire.At.{memcpy-whole}
use c_ares.Addr.{Family, af_inet, af_inet6, addr_size, AddrNode, Cname}
use c_ares.Addr.Total.{IsNode}
use c_ares.Addr.Block.{same_family, of_family, IsNode-size}
use c_ares.Addr.Ttl.{
  int_lt, int_max, AddrTtl, least_ttl, write_addrttl, write_addrttls, addrinfo2addrttl,
}

-- where an `int` stands between the least and the greatest
abbrev pub rank : ℕ → ℕ
rank a = (a + 2147483648) % 4294967296

-- the address of a node, under a bound for its TTL
abbrev pub entry : ℕ → AddrNode → AddrTtl
entry bound n = record {
  ipaddr = n.ai_addr;
  ttl = if int_lt bound n.ai_ttl then bound else n.ai_ttl;
}

-- A bound that no TTL of the aliases is below, and that is one of them or the greatest `int`.
pub record IsLeast (start bound : ℕ) (cs : List Cname) : Type 0 where
  pub below_start : rank bound ≤ rank start
  pub below_all : All (λ c. rank bound ≤ rank c.ttl) cs
  pub attained :
      (bound ≡ start) ⊎ ((i : ℕ) × (c : Cname) × (get_elem? cs i ≡ some c) × (c.ttl ≡ bound))

pub least_ttl-IsLeast : (start : ℕ) (cs : List Cname) → IsLeast start (least_ttl start cs) cs
unfolding least_ttl
least_ttl-IsLeast start [] = record {
  below_start = omega arith;
  below_all = tt;
  attained = inl refl;
}
least_ttl-IsLeast start (c ∷ cs) = elim (Bool-cases (int_lt c.ttl start)) [
  | inl h ↦
      let w = least_ttl-IsLeast c.ttl cs in
      rw h (record {
        below_start = ground (arith, h, w.below_start);
        below_all = (w.below_start, w.below_all);
        attained = elim w.attained [
          | inl e ↦ inr (0, c, refl, sym e)
          | inr (i, d, at, e) ↦ inr (suc i, d, at, e)
        ];
      })
  | inr h ↦
      let w = least_ttl-IsLeast start cs in
      rw h (record {
        below_start = w.below_start;
        below_all = (ground (arith, h, w.below_start), w.below_all);
        attained = elim w.attained [ inl e ↦ inl e | inr (i, d, at, e) ↦ inr (suc i, d, at, e) ];
      })
]

take-nil : {A : Type 0} (n : ℕ) → take {A = A} n [] ≡ []
take-nil zero = refl
take-nil (suc n) = refl

take-pred :
    {A : Type 0} (n : ℕ) (x : A) (xs : List A) → 0 < n → take n (x ∷ xs) ≡ x ∷ take (n - 1) xs
take-pred zero x xs h = absurd (omega arith)
take-pred (suc n) x xs h = ap (λ k. x ∷ take k xs) (omega arith)

module _ (family : Family) (bound req : ℕ) where
  write_addrttl-ok :
      (n : AddrNode) (out : Slots AddrTtl)
      → IsNode n
      → same_family n.ai_family family ≡ true
      → length out.filled + out.free ≡ req
      → 0 < out.free
      → write_addrttl family bound req n out
        ≡ ok (record { free = out.free - 1; filled = out.filled ++ entry bound n ∷ [] })
  unfolding write_addrttl
  write_addrttl-ok n out w h full room =
      let below : ltb (length out.filled) req ≡ true = ground arith in
      let size = IsNode-size family n w h in
      let copied : memcpy n.ai_addr 0 (addr_size family)
            (record { room = addr_size family; text = [] })
          ≡ ok (record { room = 0; text = n.ai_addr }) =
        rw size (
          memcpy-whole n.ai_addr (record { room = length n.ai_addr; text = [] }) 0 (omega arith)) in
      rw (h, below, copied, store-ok (entry bound n) out (out.free - 1) (omega arith)) refl

  write_addrttl-other :
      (n : AddrNode) (out : Slots AddrTtl)
      → (same_family n.ai_family family && ltb (length out.filled) req) ≡ false
      → write_addrttl family bound req n out ≡ ok out
  unfolding write_addrttl
  write_addrttl-other n out h = rw h refl

  -- The array takes as many as it has room for.
  write_addrttls-ok :
      (nodes : List AddrNode) (out : Slots AddrTtl)
      → All IsNode nodes
      → length out.filled + out.free ≡ req
      → (r : Slots AddrTtl) × (write_addrttls family bound req nodes out ≡ ok r)
        × (r.filled ≡ out.filled ++ take out.free (map (entry bound) (of_family family nodes)))
  unfolding write_addrttls
  write_addrttls-ok [] out w full =
      (out, refl, sym (ap (λ t. out.filled ++ t) (take-nil out.free) ∙ append-nil out.filled))
  write_addrttls-ok (n ∷ nodes) out w full = elim (Bool-cases (same_family n.ai_family family)) [
    | inr h ↦
        let other : (same_family n.ai_family family && ltb (length out.filled) req) ≡ false =
          rw h refl in
        let (r, run, same) = write_addrttls-ok nodes out w.1 full in
        (r, rw (write_addrttl-other n out other) run, rw h same)
    | inl h ↦ elim (Bool-cases (ltb (length out.filled) req)) [
      | inl room ↦
          let pos : 0 < out.free = omega (arith, ltb→lt (length out.filled) req room) in
          let next : Slots AddrTtl = record {
            free = out.free - 1;
            filled = out.filled ++ entry bound n ∷ [];
          } in
          let (r, run, same) =
            write_addrttls-ok nodes next w.1
              (omega (arith, length-concat out.filled (entry bound n))) in
          (
            r,
            rw (write_addrttl-ok n out w.0 h full pos) run,
            rw h (
                same
                ∙ append_assoc out.filled (entry bound n ∷ []) _
                ∙ ap (λ t. out.filled ++ t) (sym (take-pred out.free (entry bound n) _ pos))),
          )
      | inr no_room ↦
          let spent : out.free ≡ 0 = ground arith in
          let other : (same_family n.ai_family family && ltb (length out.filled) req) ≡ false =
            rw (h, no_room) refl in
          let (r, run, same) = write_addrttls-ok nodes out w.1 full in
          (r, rw (write_addrttl-other n out other) run, rw h (same ∙ rw spent refl))
    ]
  ]

-- For nodes with addresses of the sizes of their families, AF_INET or AF_INET6, and an array of at
-- least one element: `ares__addrinfo2addrttl` writes the first addresses of the family, as many as
-- the array takes, in their order. The TTL of each is the less, as a signed integer, of its own and
-- a bound; the bound is not above the TTL of any alias, and is one of these or INT_MAX.
pub addrinfo2addrttl-entries :
    (cnames : List Cname) (nodes : List AddrNode) (family : Family) (req : ℕ)
    → All IsNode nodes
    → (family ≡ af_inet) ⊎ (family ≡ af_inet6)
    → 0 < req
    → (bound : ℕ) × IsLeast int_max bound cnames
      × (addrinfo2addrttl cnames nodes family req
          ≡ ok (take req (map (entry bound) (of_family family nodes))))
unfolding addrinfo2addrttl
addrinfo2addrttl-entries cnames nodes family req w known pos =
    let bound = least_ttl int_max cnames in
    let (r, run, same) =
      write_addrttls-ok family bound req nodes (empty_slots req) w (omega arith) in
    let nz : (req == 0) ≡ false = ground arith in
    let one : (same_family family af_inet || same_family family af_inet6) ≡ true = elim known [
      | inl e ↦ rw e refl
      | inr e ↦ rw e refl
    ] in
    (bound, least_ttl-IsLeast int_max cnames, rw (one, nz, run, same) refl)
