-- ===== src/Htable.antt =====
-- The hash table of src/lib/ares__htable.c. A table and its buckets are values. A bucket is none
-- for NULL and else a list of values; an index outside the array is a fault. `freed` is the list of
-- the values that `bucket_free` was called for, the last one first. The answers of the allocator
-- are consumed one by one, as in Cmd.antt. NULL as a table, a key or a value is not a value here.
pub mod Chains
pub mod Buckets
pub mod View
pub mod Expand
pub mod Map
pub mod Lookup
pub mod Insertion
pub mod Removal
pub mod Hash
pub mod Stvp
use c_ares.Base.{
  ℕ, zero, suc, ◌+◌, ◌-◌, ◌*◌, ◌/◌, ◌%◌, ◌^◌, ◌≡◌, Bool, true, false, Option, none, some, List, [],
  ◌∷◌, set, replicate, length, bit_and, ltb, ◌==◌, if◌then◌else◌,
}
use c_ares.Result.{Result, ok, fault, ◌>>=◌}
use c_ares.Cmd.{Allocs}

-- The callbacks that `ares__htable_create` stores, with what a table asks of them: keys that are
-- equal have one hash.
pub record Callbacks (K E : Type 0) : Type 0 where
  pub hash : K → ℕ → ℕ
  pub bucket_key : E → K
  pub key_eq : K → K → Bool
  pub key_eq_refl : (a : K) → key_eq a a ≡ true
  pub key_eq_symm : (a b : K) → key_eq a b ≡ key_eq b a
  pub key_eq_trans : (a b c : K) → key_eq a b ≡ true → key_eq b c ≡ true → key_eq a c ≡ true
  pub hash_congr : (a b : K) (seed : ℕ) → key_eq a b ≡ true → hash a seed ≡ hash b seed

abbrev pub max_buckets : ℕ
max_buckets = 2 ^ 24

abbrev pub min_buckets : ℕ
min_buckets = 2 ^ 4

abbrev pub expand_percent : ℕ
expand_percent = 75

pub record Htable (E : Type 0) : Type 0 where
  pub seed : ℕ
  pub size : ℕ
  pub num_keys : ℕ
  pub buckets : List (Option (List E))
  pub freed : List E

-- what an operation leaves behind: its return value, the new state, the answers not yet used
abbrev pub Done : Type 0 → Type 0
Done S = Bool × S × Allocs

-- the next answer of `ares_malloc`, `false` for NULL
abbrev pub answer : Allocs → Bool × Allocs
answer [] = (true, [])
answer (made ∷ a) = (made, a)

-- `buckets[i]`
unfoldable pub at {ℓ} : {A : Type ℓ} → List A → ℕ → Result A
at [] i = fault
at (x ∷ xs) zero = ok x
at (x ∷ xs) (suc i) = at xs i

-- the nodes of a list, none for NULL
abbrev pub nodes : {E : Type 0} → Option (List E) → List E
nodes none = []
nodes (some c) = c

-- `ares__htable_create`, with the seed that it generates
unfoldable pub create : {E : Type 0} → ℕ → Allocs → Option (Htable E) × Allocs
create seed a =
    let table = answer a in
    let array = answer table.1 in
    if table.0
    then if array.0
      then (
        some (record {
          seed = seed;
          size = min_buckets;
          num_keys = 0;
          buckets = replicate min_buckets none;
          freed = [];
        }),
        array.1,
      )
      else (none, array.1)
    else (none, table.1)

module _ {E : Type 0} where
  -- `ares__llist_insert_first(buckets[i], e)`
  link : List (Option (List E)) → ℕ → List E → E → Allocs → Result (Done (List (Option (List E))))
  link bs i c e a =
      let node = answer a in
      if node.0 then ok (true, set bs i (some (e ∷ c)), node.1) else ok (false, bs, node.1)

  -- a list is made at the first use of a bucket, then the value is put in front
  unfoldable pub put_first :
      List (Option (List E)) → ℕ → E → Allocs → Result (Done (List (Option (List E))))
  unfolding link
  put_first bs i e a = at bs i >>= λ b. elim b [
    | some c ↦ link bs i c e a
    | none ↦
        let made = answer a in
        if made.0 then link (set bs i (some [])) i [] e made.1 else ok (false, bs, made.1)
  ]

module _ {K E : Type 0} (cb : Callbacks K E) where
  -- HASH_IDX
  unfoldable pub hash_idx : ℕ → ℕ → K → ℕ
  hash_idx seed size key = bit_and (cb.hash key seed) (size - 1)

  -- the loop of `ares__htable_find`; its node is used through `replace` and `erase`
  unfoldable pub find : K → List E → Option E
  find key [] = none
  find key (e ∷ c) = if cb.key_eq key (cb.bucket_key e) then some e else find key c

  -- `ares__llist_node_replace` at the node found
  unfoldable pub replace : K → E → List E → List E
  replace key new [] = []
  replace key new (e ∷ c) =
      if cb.key_eq key (cb.bucket_key e) then new ∷ c else e ∷ replace key new c

  -- `ares__llist_node_destroy` of the node found
  unfoldable pub erase : K → List E → List E
  erase key [] = []
  erase key (e ∷ c) = if cb.key_eq key (cb.bucket_key e) then c else e ∷ erase key c

  -- the loops of `ares__htable_expand`, over one bucket and over the array
  unfoldable pub move_chain :
      ℕ → ℕ → List E → List (Option (List E)) → Allocs → Result (Done (List (Option (List E))))
  move_chain seed size [] fresh a = ok (true, fresh, a)
  move_chain seed size (e ∷ c) fresh a =
      put_first fresh (hash_idx seed size (cb.bucket_key e)) e a >>= λ r. elim r.0 [
        | false ↦ ok r
        | true ↦ move_chain seed size c r.1 r.2
      ]

  unfoldable pub move_all :
      ℕ
      → ℕ
      → List (Option (List E))
      → List (Option (List E))
      → Allocs
      → Result (Done (List (Option (List E))))
  move_all seed size [] fresh a = ok (true, fresh, a)
  move_all seed size (b ∷ bs) fresh a = move_chain seed size (nodes b) fresh a >>= λ r. elim r.0 [
    | false ↦ ok r
    | true ↦ move_all seed size bs r.1 r.2
  ]

  -- the new size is restored on a failure, and `bucket_free` is not called
  unfoldable pub expand : Htable E → Allocs → Result (Done (Htable E))
  expand t a =
      let size = t.size * 2 % 2 ^ 32 in
      let array = answer a in
      if t.size == max_buckets
      then ok (true, t, a)
      else if array.0
      then (move_all t.seed size t.buckets (replicate size none) array.1 >>= λ r.
          ok (r.0, (if r.0 then record t { size = size; buckets = r.1 } else t), r.2))
      else ok (false, t, array.1)

  -- the test of the load in `ares__htable_insert`
  unfoldable pub grow : Htable E → Allocs → Result (Done (Htable E))
  grow t a =
      if ltb (t.size * expand_percent % 2 ^ 32 / 100) (t.num_keys + 1)
      then expand t a
      else ok (true, t, a)

  -- the end of `ares__htable_insert`, where the key is new
  unfoldable pub insert_new : Htable E → E → Allocs → Result (Done (Htable E))
  insert_new t e a = put_first t.buckets (hash_idx t.seed t.size (cb.bucket_key e)) e a >>= λ r.
      ok (
        r.0,
        (if r.0
            then record t { num_keys = t.num_keys + 1; buckets = r.1 }
            else record t { buckets = r.1 }),
        r.2,
      )

  unfoldable pub insert : Htable E → E → Allocs → Result (Done (Htable E))
  insert t e a =
      let key = cb.bucket_key e in
      let idx = hash_idx t.seed t.size key in
      at t.buckets idx >>= λ b. elim (find key (nodes b)) [
        | some old ↦ ok (
          true,
          record t {
            buckets = set t.buckets idx (some (replace key e (nodes b)));
            freed = old ∷ t.freed;
          },
          a,
        )
        | none ↦ grow t a >>= λ r. if r.0 then insert_new r.1 e r.2 else ok (false, r.1, r.2)
      ]

  unfoldable pub get : Htable E → K → Result (Option E)
  get t key = at t.buckets (hash_idx t.seed t.size key) >>= λ b. ok (find key (nodes b))

  unfoldable pub remove : Htable E → K → Result (Bool × Htable E)
  remove t key =
      let idx = hash_idx t.seed t.size key in
      at t.buckets idx >>= λ b. elim (find key (nodes b)) [
        | none ↦ ok (false, t)
        | some old ↦ ok (
          true,
          record t {
            num_keys = t.num_keys - 1;
            buckets = set t.buckets idx (some (erase key (nodes b)));
            freed = old ∷ t.freed;
          },
        )
      ]
