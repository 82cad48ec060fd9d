-- ===== src/Addr/Block.antt =====
-- The addresses that are copied into the block of a `struct hostent`
-- (src/lib/ares__addrinfo2hostent.c).
use mathlib.Core.List.{append_assoc, append-nil}
use c_ares.Base.{
  ℕ, zero, suc, ◌+◌, ◌*◌, ◌≡◌, refl, sym, ◌∙◌, arith, Bool, true, false, List, [], ◌∷◌, ◌++◌,
  length, inl, inr, Bool-cases, All, length-append, length-concat, if◌then◌else◌,
}
use c_ares.Result.{Result, ok, ◌>>=◌}
use c_ares.Cmd.{Buffer}
use c_ares.Cmd.Slots.{Slots, store, store-ok, slots_path}
use c_ares.Wire.Copy.{memcpy, buffer_path}
use c_ares.Wire.At.{memcpy-whole}
use c_ares.Addr.{Family, af_unspec, af_inet, af_inet6, addr_size, AddrNode}
use c_ares.Addr.Total.{IsNode}

abbrev pub same_family : Family → Family → Bool
same_family af_unspec af_unspec = true
same_family af_inet af_inet = true
same_family af_inet6 af_inet6 = true
same_family _ _ = false

-- the pointers and the block; the next address stands behind those written
abbrev pub Filled : Type 0
Filled = Slots ℕ × Buffer

unfoldable pub copy_address : Family → AddrNode → Filled → Result Filled
copy_address family n q =
    if same_family n.ai_family family
    then (do
      pointers ← store (length q.0.filled * addr_size family) q.0
      block ← memcpy n.ai_addr 0 (addr_size family) q.1
      ok (pointers, block))
    else ok q

unfoldable pub copy_addresses : Family → List AddrNode → Filled → Result Filled
copy_addresses family [] q = ok q
copy_addresses family (n ∷ nodes) q = do
  q' ← copy_address family n q
  copy_addresses family nodes q'

-- the nodes of a family
abbrev pub of_family : Family → List AddrNode → List AddrNode
of_family family [] = []
of_family family (n ∷ nodes) =
    let rest = of_family family nodes in if same_family n.ai_family family then n ∷ rest else rest

-- the addresses, one behind the other
abbrev pub joined : List AddrNode → List ℕ
joined [] = []
joined (n ∷ nodes) = n.ai_addr ++ joined nodes

-- the multiples of a size
abbrev pub offsets : ℕ → ℕ → ℕ → List ℕ
offsets size i zero = []
offsets size i (suc n) = i * size ∷ offsets size (i + 1) n

same_family-eq : (f g : Family) → same_family f g ≡ true → addr_size f ≡ addr_size g
same_family-eq af_unspec af_unspec h = refl
same_family-eq af_inet af_inet h = refl
same_family-eq af_inet6 af_inet6 h = refl
same_family-eq af_unspec af_inet h = cc
same_family-eq af_unspec af_inet6 h = cc
same_family-eq af_inet af_unspec h = cc
same_family-eq af_inet af_inet6 h = cc
same_family-eq af_inet6 af_unspec h = cc
same_family-eq af_inet6 af_inet h = cc

-- an address of the family that is looked for has its size
pub IsNode-size :
    (family : Family) (n : AddrNode)
    → IsNode n
    → same_family n.ai_family family ≡ true
    → addr_size family ≡ length n.ai_addr
IsNode-size family n w h = sym (same_family-eq n.ai_family family h) ∙ sym w

module _ (family : Family) where
  copy_address-ok :
      (n : AddrNode) (q : Filled) (r s : ℕ)
      → IsNode n
      → same_family n.ai_family family ≡ true
      → q.0.free ≡ suc r
      → q.1.room ≡ length n.ai_addr + s
      → copy_address family n q
        ≡ ok (
          record { free = r; filled = q.0.filled ++ length q.0.filled * addr_size family ∷ [] },
          record { room = s; text = q.1.text ++ n.ai_addr },
        )
  unfolding copy_address
  copy_address-ok n q r s w h free room =
      let size = IsNode-size family n w h in
      let copied : memcpy n.ai_addr 0 (addr_size family) q.1
          ≡ ok (record { room = s; text = q.1.text ++ n.ai_addr }) =
        rw size (memcpy-whole n.ai_addr q.1 s room) in
      rw (h, store-ok (length q.0.filled * addr_size family) q.0 r free, copied) refl

  copy_address-other :
      (n : AddrNode) (q : Filled)
      → same_family n.ai_family family ≡ false
      → copy_address family n q ≡ ok q
  unfolding copy_address
  copy_address-other n q h = rw h refl

  -- With room for them, the pointers and the addresses of the family are written.
  pub copy_addresses-ok :
      (nodes : List AddrNode) (q : Filled) (r s : ℕ)
      → All IsNode nodes
      → q.0.free ≡ length (of_family family nodes) + r
      → q.1.room ≡ length (joined (of_family family nodes)) + s
      → copy_addresses family nodes q
        ≡ ok (
          record {
            free = r;
            filled =
                q.0.filled
                ++ offsets (addr_size family) (length q.0.filled) (length (of_family family nodes));
          },
          record { room = s; text = q.1.text ++ joined (of_family family nodes) },
        )
  unfolding copy_addresses
  copy_addresses-ok [] q r s w free room =
      let pointers = slots_path {n = r} (omega (arith, free)) (sym (append-nil q.0.filled)) in
      let block = buffer_path {n = s} (omega (arith, room)) (sym (append-nil q.1.text)) in
      λ i. ok (pointers i, block i)
  copy_addresses-ok (n ∷ nodes) q r s w free room =
      elim (Bool-cases (same_family n.ai_family family)) [
        | inl h ↦
            let filled = of_family family nodes in
            let free' : q.0.free ≡ suc (length filled + r) = ground (arith, free, h) in
            let room' : q.1.room ≡ length n.ai_addr + (length (joined filled) + s) =
              ground (arith, room, h, length-append n.ai_addr (joined filled)) in
            rw
              (
                copy_address-ok n q (length filled + r) (length (joined filled) + s) w.0 h free'
                    room',
                h,
                copy_addresses-ok nodes
                    (
                      record {
                        free = length filled + r;
                        filled = q.0.filled ++ length q.0.filled * addr_size family ∷ [];
                      },
                      record { room = length (joined filled) + s; text = q.1.text ++ n.ai_addr },
                    )
                    r s w.1 refl refl,
                length-concat q.0.filled (length q.0.filled * addr_size family),
                append_assoc q.0.filled (length q.0.filled * addr_size family ∷ []),
                append_assoc q.1.text n.ai_addr,
              )
              refl
        | inr h ↦
            let free' : q.0.free ≡ length (of_family family nodes) + r = ground (arith, free, h) in
            let room' : q.1.room ≡ length (joined (of_family family nodes)) + s =
              ground (arith, room, h) in
            rw (copy_address-other n q h, h) (copy_addresses-ok nodes q r s w.1 free' room')
      ]
