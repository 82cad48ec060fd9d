-- ===== src/Cmd.antt =====
-- Code that allocates. `ares_malloc` of src/lib/ares_library_init.c is the application's allocator:
-- its answers are the state, `false` for NULL, and every call behind the last one succeeds.
pub mod Put
pub mod Safe
pub mod Slots
use c_ares.Base.{
  ℕ, zero, suc, ◌≡◌, refl, Bool, true, false, List, [], ◌∷◌, ◌++◌, ltb, if◌then◌else◌,
}
use c_ares.Result.{Status, enomem, Result, ok, fail, fault, stuck}

abbrev pub Allocs : Type 0
Allocs = List Bool

abbrev pub Cmd : Type 0 → Type 0
Cmd A = Allocs → Result (A × Allocs)

-- an allocated block: the bytes still free behind those written
pub record Buffer : Type 0 where
  pub room : ℕ
  pub text : List ℕ

-- `*q++ = c`
unfoldable pub put : ℕ → Buffer → Result Buffer
put c b = elim b.room [ zero ↦ fault | suc n ↦ ok (record { room = n; text = b.text ++ c ∷ [] }) ]

abbrev pub pure : {A : Type 0} → A → Cmd A
pure a h = ok (a, h)

abbrev pub raise : {A : Type 0} → Status → Cmd A
raise s h = fail s

abbrev pub lift : {A : Type 0} → Result A → Cmd A
lift (ok a) h = ok (a, h)
lift (fail s) h = fail s
lift fault h = fault
lift stuck h = stuck

module _ {A B : Type 0} where
  abbrev pub and_then : Result (A × Allocs) → (A → Cmd B) → Result (B × Allocs)
  and_then (ok (a, h)) k = k a h
  and_then (fail s) k = fail s
  and_then fault k = fault
  and_then stuck k = stuck

  infixl 5 ◌>>=◌ ◌>>◌
  abbrev pub ◌>>=◌ : Cmd A → (A → Cmd B) → Cmd B
  (m >>= k) h = and_then (m h) k

  abbrev pub ◌>>◌ : Cmd A → Cmd B → Cmd B
  (m >> n) h = and_then (m h) (λ _. n)

module _ {A B : Type 0} where
  abbrev pub attempted :
      Result (A × Allocs) → Allocs → (A → Cmd B) → (Status → Cmd B) → Result (B × Allocs)
  attempted (ok (a, h)) h0 k e = k a h
  attempted (fail s) h0 k e = e s h0
  attempted fault h0 k e = fault
  attempted stuck h0 k e = stuck

  -- A failure of the first part is handled. What follows a failure does not allocate in the code
  -- modelled here, so the answers that the failed part has used make no difference.
  abbrev pub attempt : Cmd A → (A → Cmd B) → (Status → Cmd B) → Cmd B
  attempt m k e h = attempted (m h) h k e

-- an early `return s`, taken unless the test holds
abbrev pub guard : Bool → Status → Cmd (Unit {0})
guard true s h = ok (tt, h)
guard false s h = fail s

-- `malloc(size)`: a block of that size, or ARES_ENOMEM
unfoldable pub malloc : ℕ → Cmd Buffer
malloc size [] = ok (record { room = size; text = [] }, [])
malloc size (true ∷ h) = ok (record { room = size; text = [] }, h)
malloc size (false ∷ h) = fail enomem

-- `ares_malloc_data` and the like: the node is a value here, so only the answer matters.
unfoldable pub malloc_node : Cmd (Unit {0})
malloc_node [] = ok (tt, [])
malloc_node (true ∷ h) = ok (tt, h)
malloc_node (false ∷ h) = fail enomem

-- an access to element `i` of an array of `n`
abbrev pub index : ℕ → ℕ → Result (Unit {0})
index i n = if ltb i n then ok tt else fault
