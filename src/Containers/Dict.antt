-- ===== src/Containers/Dict.antt =====
-- src/runtime/runtime_dict.c: hash tables with chains. The hash and the comparison are function
-- pointers of the table, so they are parameters; `cmp_eq` is the test that the comparison gives 0.
-- A table is not null. `granted` is whether `malloc` or `calloc` gives the memory that a call asks for.
pub mod Laws
pub mod Invariant
pub mod Items
pub mod IntKeys
pub mod BoxedKeys
use limitly.Prelude.{
  Option, none, some, ℕ, zero, suc, ◌+◌, ◌*◌, ◌%◌, ◌^◌, Bool, true, false, not, ◌&&◌, List, [], ◌∷◌,
  ◌++◌, length, ◌==◌, if◌then◌else◌,
}
use limitly.Runtime.Word.{Word, val_nil}

-- `LmDictEntry`, less its link
pub record LmDictEntry : Type 0 where
  pub key : Word
  pub value : Word
  pub hash : ℕ

-- `LmDict`, less its header and its functions. `bucket_count` is the length of `buckets`.
pub record LmDict : Type 0 where
  pub buckets : List (List LmDictEntry)
  pub size : ℕ

unfoldable pub empty_buckets : ℕ → List (List LmDictEntry)
empty_buckets zero = []
empty_buckets (suc n) = [] ∷ empty_buckets n

-- INITIAL_BUCKET_COUNT is 16.
unfoldable pub new_dict : LmDict
unfolding empty_buckets
new_dict = record { buckets = empty_buckets 16; size = 0 }

-- `buckets_granted` is the answer of `calloc`.
unfoldable pub lm_dict_new : Bool → Bool → Option LmDict
lm_dict_new granted buckets_granted =
    if granted then (if buckets_granted then some new_dict else none) else none

-- `buckets[i]`
unfoldable pub bucket_at : List (List LmDictEntry) → ℕ → List LmDictEntry
bucket_at [] i = []
bucket_at (b ∷ bs) zero = b
bucket_at (b ∷ bs) (suc i) = bucket_at bs i

unfoldable pub set_bucket : List (List LmDictEntry) → ℕ → List LmDictEntry → List (List LmDictEntry)
set_bucket [] i c = []
set_bucket (b ∷ bs) zero c = c ∷ bs
set_bucket (b ∷ bs) (suc i) c = b ∷ set_bucket bs i c

-- The keys and values of a chain, and of all chains in order.
unfoldable pub chain_items : List LmDictEntry → List Word
chain_items [] = []
chain_items (e ∷ es) = e.key ∷ (e.value ∷ chain_items es)

unfoldable pub bucket_items : List (List LmDictEntry) → List Word
unfolding chain_items
bucket_items [] = []
bucket_items (b ∷ bs) = chain_items b ++ bucket_items bs

-- The items, or `NULL`, and `*out_count`.
unfoldable pub lm_dict_items : Bool → LmDict → Option (List Word) × ℕ
unfolding bucket_items
lm_dict_items granted d =
    if d.size == 0
    then (none, 0)
    else if granted
    then (some (bucket_items d.buckets), d.size)
    else (none, 0)

module _ (hash_fn : Word → ℕ) (cmp_eq : Word → Word → Bool) where
  -- `entry->hash == hash && dict->cmp_fn(entry->key, key) == 0`
  unfoldable pub matches : LmDictEntry → Word → Bool
  matches e key = e.hash == hash_fn key && cmp_eq e.key key

  unfoldable pub has_entry : Word → List LmDictEntry → Bool
  unfolding matches
  has_entry key [] = false
  has_entry key (e ∷ es) = let rest = has_entry key es in if matches e key then true else rest

  -- `entry->value = value` at the first entry that matches
  unfoldable pub set_entry : Word → Word → List LmDictEntry → List LmDictEntry
  unfolding matches
  set_entry key value [] = []
  set_entry key value (e ∷ es) =
      let rest = set_entry key value es in
      if matches e key then record e { value = value } ∷ es else e ∷ rest

  unfoldable pub lm_dict_set : Bool → LmDict → Word → Word → LmDict
  unfolding has_entry set_entry bucket_at set_bucket
  lm_dict_set granted d key value =
      let hash = hash_fn key in
      let bucket = hash % length d.buckets in
      let chain = bucket_at d.buckets bucket in
      if has_entry key chain
      then record d { buckets = set_bucket d.buckets bucket (set_entry key value chain) }
      else if granted
      then record {
        buckets =
            set_bucket d.buckets bucket (record { key = key; value = value; hash = hash } ∷ chain);
        size = (d.size + 1) % 2 ^ 64;
      }
      else d

  unfoldable pub get_entry : Word → List LmDictEntry → Word
  unfolding matches
  get_entry key [] = val_nil
  get_entry key (e ∷ es) = let rest = get_entry key es in if matches e key then e.value else rest

  unfoldable pub lm_dict_get : LmDict → Word → Word
  unfolding get_entry bucket_at
  lm_dict_get d key = get_entry key (bucket_at d.buckets (hash_fn key % length d.buckets))

  unfoldable pub lm_dict_contains : LmDict → Word → Bool
  unfolding lm_dict_get
  lm_dict_contains d key = not (lm_dict_get d key == val_nil)
