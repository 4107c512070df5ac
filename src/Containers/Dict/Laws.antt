-- ===== src/Containers/Dict/Laws.antt =====
-- Lookups in the hash table of src/runtime/runtime_dict.c after an insertion.
use limitly.Prelude.{
  ◌+◌, ◌&&◌, ◌||◌, false, sym, All, ℕ, zero, suc, ◌<◌, ◌%◌, Bool, true, List, [], ◌∷◌, ◌≡◌, refl,
  ap, ◌∙◌, length, ◌==◌, if◌then◌else◌, arith, Bool-cases, inl, inr,
}
use native.Mathlib.Nat.{mod-lt}
use limitly.Runtime.Word.{Word}
use limitly.Containers.Dict.Invariant.{IsDict, Belongs, Placed-bucket_at, length-set_bucket}
use limitly.Containers.Dict.{
  LmDictEntry, LmDict, bucket_at, set_bucket, matches, has_entry, set_entry, get_entry, lm_dict_set,
  lm_dict_get,
}

-- What the table takes for the same key: the hashes are equal and the comparison gives 0.
abbrev pub same_key : (Word → ℕ) → (Word → Word → Bool) → Word → Word → Bool
same_key hash_fn cmp_eq j k = hash_fn j == hash_fn k && cmp_eq j k

-- It is an equivalence.
pub record IsKeyEquality (hash_fn : Word → ℕ) (cmp_eq : Word → Word → Bool) : Type 0 where
  pub refl_eq : (k : Word) → same_key hash_fn cmp_eq k k ≡ true
  pub sym_eq : (j k : Word) → same_key hash_fn cmp_eq j k ≡ same_key hash_fn cmp_eq k j
  pub trans_eq :
      (i j k : Word)
      → same_key hash_fn cmp_eq i j ≡ true
      → same_key hash_fn cmp_eq j k ≡ true
      → same_key hash_fn cmp_eq i k ≡ true

pub bucket_at-set_bucket :
    (bs : List (List LmDictEntry)) (i j : ℕ) (c : List LmDictEntry)
    → i < length bs
    → bucket_at (set_bucket bs i c) j ≡ (if i == j then c else bucket_at bs j)
unfolding set_bucket bucket_at
bucket_at-set_bucket [] i j c l = absurd (omega (arith, l))
bucket_at-set_bucket (b ∷ bs) zero zero c l = ground arith
bucket_at-set_bucket (b ∷ bs) zero (suc j) c l = ground arith
bucket_at-set_bucket (b ∷ bs) (suc i) zero c l = ground arith
bucket_at-set_bucket (b ∷ bs) (suc i) (suc j) c l = ground (arith, bucket_at-set_bucket bs i j c)

set_bucket-bucket_at :
    (bs : List (List LmDictEntry)) (i : ℕ) → set_bucket bs i (bucket_at bs i) ≡ bs
unfolding set_bucket bucket_at
set_bucket-bucket_at [] i = refl
set_bucket-bucket_at (b ∷ bs) zero = refl
set_bucket-bucket_at (b ∷ bs) (suc i) = ap (◌∷◌ b) (set_bucket-bucket_at bs i)

bool_eq : (a b : Bool) → (a ≡ true → b ≡ true) → (b ≡ true → a ≡ true) → a ≡ b
bool_eq true b f g = sym (f refl)
bool_eq false true f g = g refl
bool_eq false false f g = refl

-- The chain of a key after an insertion.
abbrev new_chain :
    (Word → ℕ) → (Word → Word → Bool) → Bool → Word → Word → List LmDictEntry → List LmDictEntry
new_chain hash_fn cmp_eq granted k v c =
    if has_entry hash_fn cmp_eq k c
    then set_entry hash_fn cmp_eq k v c
    else if granted
    then record { key = k; value = v; hash = hash_fn k } ∷ c
    else c

module _ (hash_fn : Word → ℕ) (cmp_eq : Word → Word → Bool) (q : IsKeyEquality hash_fn cmp_eq) where
  -- The loop finds an entry by its key.
  pub matches-same_key :
      (e : LmDictEntry) (k : Word)
      → e.hash ≡ hash_fn e.key
      → matches hash_fn cmp_eq e k ≡ same_key hash_fn cmp_eq e.key k
  unfolding matches
  matches-same_key e k h = rw h refl

  -- An entry that matches one key matches another exactly when the keys are the same.
  matches-other :
      (e : LmDictEntry) (k j : Word)
      → e.hash ≡ hash_fn e.key
      → matches hash_fn cmp_eq e k ≡ true
      → matches hash_fn cmp_eq e j ≡ same_key hash_fn cmp_eq k j
  matches-other e k j h m =
      let x : same_key hash_fn cmp_eq e.key k ≡ true = sym (matches-same_key e k h) ∙ m in
      let y : same_key hash_fn cmp_eq k e.key ≡ true = q.sym_eq k e.key ∙ x in
      matches-same_key e j h
      ∙ bool_eq _ _ (λ z. q.trans_eq k e.key j y z) (λ z. q.trans_eq e.key k j x z)

  matches-same :
      (e : LmDictEntry) (k j : Word)
      → e.hash ≡ hash_fn e.key
      → same_key hash_fn cmp_eq k j ≡ true
      → matches hash_fn cmp_eq e j ≡ matches hash_fn cmp_eq e k
  matches-same e k j h s =
      let t : same_key hash_fn cmp_eq j k ≡ true = q.sym_eq j k ∙ s in
      matches-same_key e j h
      ∙ bool_eq _ _ (λ z. q.trans_eq e.key j k z t) (λ z. q.trans_eq e.key k j z s)
      ∙ sym (matches-same_key e k h)

  matches-value :
      (e : LmDictEntry) (v k : Word)
      → matches hash_fn cmp_eq (record e { value = v }) k ≡ matches hash_fn cmp_eq e k
  unfolding matches
  matches-value e v k = refl

  get_entry-new :
      (c : List LmDictEntry) (k j v : Word)
      → get_entry hash_fn cmp_eq j (record { key = k; value = v; hash = hash_fn k } ∷ c)
        ≡ (if same_key hash_fn cmp_eq k j then v else get_entry hash_fn cmp_eq j c)
  unfolding get_entry matches
  get_entry-new c k j v = refl

  module _ (n i : ℕ) where
    get_entry-set_entry :
        (c : List LmDictEntry) (k j v : Word)
        → All (Belongs hash_fn n i) c
        → has_entry hash_fn cmp_eq k c ≡ true
        → get_entry hash_fn cmp_eq j (set_entry hash_fn cmp_eq k v c)
          ≡ (if same_key hash_fn cmp_eq k j then v else get_entry hash_fn cmp_eq j c)
    unfolding has_entry set_entry get_entry
    get_entry-set_entry [] k j v a h = cc
    get_entry-set_entry (e ∷ c) k j v a h = elim (Bool-cases (matches hash_fn cmp_eq e k)) [
      | inl m ↦ ground (arith, m, matches-other e k j a.0.0 m, matches-value e v j)
      | inr m ↦
          let ih = get_entry-set_entry c k j v a.1 (ground (arith, m, h)) in
          ground (arith, m, ih, matches-same e k j a.0.0)
    ]

    -- The chain that an insertion leaves, by whether the key was there and there is memory.
    get_entry-chain :
        (granted : Bool) (c : List LmDictEntry) (k j v : Word)
        → All (Belongs hash_fn n i) c
        → get_entry hash_fn cmp_eq j (new_chain hash_fn cmp_eq granted k v c) ≡ (
            if (granted || has_entry hash_fn cmp_eq k c) && same_key hash_fn cmp_eq k j
            then v
            else get_entry hash_fn cmp_eq j c)
    get_entry-chain granted c k j v a = elim (Bool-cases (has_entry hash_fn cmp_eq k c)) [
      | inl h ↦ elim (Bool-cases granted) [
        | inl g ↦ rw (h, g) (get_entry-set_entry c k j v a h)
        | inr g ↦ rw (h, g) (get_entry-set_entry c k j v a h)
      ]
      | inr h ↦ elim (Bool-cases granted) [
        | inl g ↦ rw (h, g) (get_entry-new c k j v)
        | inr g ↦ rw (h, g) refl
      ]
    ]

  -- The table holds a value under the key.
  unfoldable pub has_key : LmDict → Word → Bool
  has_key d k = has_entry hash_fn cmp_eq k (bucket_at d.buckets (hash_fn k % length d.buckets))

  -- An insertion changes the buckets at one place.
  lm_dict_set-buckets :
      (granted : Bool) (d : LmDict) (k v : Word)
      → (lm_dict_set hash_fn cmp_eq granted d k v).buckets ≡ (
          let i = hash_fn k % length d.buckets in
          set_bucket d.buckets i (new_chain hash_fn cmp_eq granted k v (bucket_at d.buckets i)))
  unfolding lm_dict_set
  lm_dict_set-buckets granted d k v =
      let i = hash_fn k % length d.buckets in
      elim (Bool-cases (has_entry hash_fn cmp_eq k (bucket_at d.buckets i))) [
        | inl h ↦ rw h refl
        | inr h ↦ elim (Bool-cases granted) [
          | inl g ↦ rw (h, g) refl
          | inr g ↦ rw (h, g) (sym (set_bucket-bucket_at d.buckets i))
        ]
      ]

  -- In a well-formed table, if what the table takes for the same key (equal hashes and a comparison
  -- that gives 0) is an equivalence: where the insertion gets memory or the key is there, its value is
  -- found under every key that is the same, and the lookups of all other keys are as they were;
  -- where it does neither, all lookups are.
  pub lm_dict_get-lm_dict_set :
      (granted : Bool) (d : LmDict) (k j v : Word)
      → IsDict hash_fn d
      → lm_dict_get hash_fn cmp_eq (lm_dict_set hash_fn cmp_eq granted d k v) j ≡ (
          if (granted || has_key d k) && same_key hash_fn cmp_eq k j
          then v
          else lm_dict_get hash_fn cmp_eq d j)
  unfolding lm_dict_get has_key
  lm_dict_get-lm_dict_set granted d k j v w =
      let n = length d.buckets in
      let i = hash_fn k % n in
      let m = hash_fn j % n in
      let c = bucket_at d.buckets i in
      let c' = new_chain hash_fn cmp_eq granted k v c in
      let b : i < n = mod-lt (hash_fn k) w.has_buckets in
      let e : get_entry hash_fn cmp_eq j (bucket_at (set_bucket d.buckets i c') m) ≡ (
          if (granted || has_entry hash_fn cmp_eq k c) && same_key hash_fn cmp_eq k j
          then v
          else get_entry hash_fn cmp_eq j (bucket_at d.buckets m)) =
        elim (Bool-cases (i == m)) [
          | inl s ↦
              let p : i ≡ m = ground (arith, s) in
              rw (bucket_at-set_bucket d.buckets i m c' b, s)
                (get_entry-chain n (0 + i) granted c k j v
                    (Placed-bucket_at hash_fn n 0 d.buckets i b w.placed)
                  ∙ ap
                      (λ (x : ℕ).
                        if (granted || has_entry hash_fn cmp_eq k c) && same_key hash_fn cmp_eq k j
                        then v
                        else get_entry hash_fn cmp_eq j (bucket_at d.buckets x))
                      p)
          | inr s ↦
              let f : same_key hash_fn cmp_eq k j ≡ false =
                other_bucket (λ x. ap (λ (y : ℕ). y % n) x) s in
              rw (bucket_at-set_bucket d.buckets i m c' b, s)
                (if_other (granted || has_entry hash_fn cmp_eq k c) _ v _ f)
        ] in
      rw (lm_dict_set-buckets granted d k v, length-set_bucket d.buckets i c') e
    where
      other_bucket :
          (hash_fn k ≡ hash_fn j → hash_fn k % length d.buckets ≡ hash_fn j % length d.buckets)
          → (hash_fn k % length d.buckets == hash_fn j % length d.buckets) ≡ false
          → same_key hash_fn cmp_eq k j ≡ false
      other_bucket x s = elim (Bool-cases (hash_fn k == hash_fn j)) [
        | inl y ↦ let z = x (ground (arith, y)) in absurd (ground (arith, s, z))
        | inr y ↦ rw y refl
      ]

      if_other : (a b : Bool) (x y : Word) → b ≡ false → y ≡ (if a && b then x else y)
      if_other true b x y h = rw h refl
      if_other false b x y h = refl
