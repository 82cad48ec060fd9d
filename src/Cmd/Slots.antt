-- ===== src/Cmd/Slots.antt =====
-- An allocated array, whose elements are written in their order.
use c_ares.Base.{ℕ, zero, suc, ◌≡◌, refl, List, [], ◌∷◌, ◌++◌}
use c_ares.Result.{Result, ok, fault}

-- the elements that are still free, behind those written
pub record Slots (A : Type 0) : Type 0 where
  pub free : ℕ
  pub filled : List A

module _ {A : Type 0} where
  abbrev pub empty_slots : ℕ → Slots A
  empty_slots n = record { free = n; filled = [] }

  -- `array[i++] = a`
  unfoldable pub store : A → Slots A → Result (Slots A)
  store a q = elim q.free [
    | zero ↦ fault
    | suc n ↦ ok (record { free = n; filled = q.filled ++ a ∷ [] })
  ]

  pub store-ok :
      (a : A) (q : Slots A) (r : ℕ)
      → q.free ≡ suc r
      → store a q ≡ ok (record { free = r; filled = q.filled ++ a ∷ [] })
  unfolding store
  store-ok a q r h = rw (h, store) refl

  pub slots_path :
      {q : Slots A} {n : ℕ} {t : List A}
      → q.free ≡ n
      → q.filled ≡ t
      → q ≡ record { free = n; filled = t }
  slots_path e f = λ i. record { free = e i; filled = f i }
