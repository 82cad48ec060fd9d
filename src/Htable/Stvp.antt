-- ===== src/Htable/Stvp.antt =====
-- The table from numbers to pointers of src/lib/ares__htable_stvp.c, a client of the hash table.
pub mod Runs
use c_ares.Base.{
  ℕ, ◌≡◌, ◌+◌, refl, arith, Bool, true, false, Option, none, some, List, ◌==◌, ==_iff, ap,
  if◌then◌else◌,
}
use c_ares.Result.{Result, ok, ◌>>=◌}
use c_ares.Cmd.{Allocs}
use c_ares.Htable.{Callbacks, Htable, Done, answer}
use c_ares.Htable
use c_ares.Htable.Hash.{hash_fnv1a}

-- `ares__htable_stvp_bucket_t`, without the pointer to the table that holds it
pub record Bucket (V : Type 0) : Type 0 where
  pub key : ℕ
  pub val : V

key_eq_symm : (a b : ℕ) → a == b ≡ b == a
key_eq_symm a b = ground arith

key_eq_trans : (a b c : ℕ) → (a == b) ≡ true → (b == c) ≡ true → (a == c) ≡ true
key_eq_trans a b c p q = ground arith

-- `bucket->val` of a bucket that was found
abbrev pub val_of : {V : Type 0} → Option (Bucket V) → Option V
val_of none = none
val_of (some b) = some b.val

-- `ares__htable_stvp_create`
unfoldable pub create : {V : Type 0} → ℕ → Allocs → Option (Htable (Bucket V)) × Allocs
create seed a =
    let block = answer a in if block.0 then Htable.create seed block.1 else (none, block.1)

-- `bytes` are the bytes of a `size_t` in memory.
module _ (bytes : ℕ → List ℕ) where
  hash_func : ℕ → ℕ → ℕ
  hash_func key seed = hash_fnv1a (bytes key) seed

  hash_func_congr : (a b seed : ℕ) → (a == b) ≡ true → hash_func a seed ≡ hash_func b seed
  hash_func_congr a b seed e = ap (λ k. hash_func k seed) ((==_iff a b).0 e)

module _ (bytes : ℕ → List ℕ) {V : Type 0} where
  -- `hash_func`, `bucket_key` and `key_eq`
  unfoldable pub callbacks : Callbacks ℕ (Bucket V)
  unfolding hash_func hash_func_congr key_eq_symm key_eq_trans
  callbacks = record {
    hash = hash_func bytes;
    bucket_key = λ b. b.key;
    key_eq = ◌==◌;
    key_eq_refl = λ a. (==_iff a a).1 refl;
    key_eq_symm = key_eq_symm;
    key_eq_trans = key_eq_trans;
    hash_congr = hash_func_congr bytes;
  }

  unfoldable pub insert : Htable (Bucket V) → ℕ → V → Allocs → Result (Done (Htable (Bucket V)))
  insert t key val a =
      let block = answer a in
      if block.0
      then Htable.insert callbacks t (record { key = key; val = val }) block.1
      else ok (false, t, block.1)

  unfoldable pub get : Htable (Bucket V) → ℕ → Result (Option V)
  get t key = Htable.get callbacks t key >>= λ b. ok (val_of b)

  unfoldable pub remove : Htable (Bucket V) → ℕ → Result (Bool × Htable (Bucket V))
  remove t key = Htable.remove callbacks t key
