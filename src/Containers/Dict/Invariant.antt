-- ===== src/Containers/Dict/Invariant.antt =====
-- What every table of src/runtime/runtime_dict.c keeps: each entry stands in the bucket of its key's
-- hash, and the size counts the entries.
use limitly.Prelude.{
  ℕ, zero, suc, ◌+◌, ◌-◌, ◌<◌, ◌%◌, ◌^◌, Bool, List, [], ◌∷◌, ◌≡◌, refl, sym, ap, ◌∙◌, subst,
  length, arith, Bool-cases, inl, inr, All,
}
use native.Mathlib.Nat.{mod-lt}
use limitly.Runtime.Word.{Word}
use limitly.Containers.Dict.{
  LmDictEntry, LmDict, empty_buckets, bucket_at, set_bucket, new_dict, matches, has_entry,
  set_entry, lm_dict_set,
}

pub length-set_bucket :
    (bs : List (List LmDictEntry)) (i : ℕ) (c : List LmDictEntry)
    → length (set_bucket bs i c) ≡ length bs
unfolding set_bucket
length-set_bucket [] i c = refl
length-set_bucket (b ∷ bs) zero c = refl
length-set_bucket (b ∷ bs) (suc i) c = omega (arith, length-set_bucket bs i c)

-- The entries of all chains.
unfoldable pub entry_count : List (List LmDictEntry) → ℕ
entry_count [] = 0
entry_count (b ∷ bs) = length b + entry_count bs

module _ (hash_fn : Word → ℕ) where
  -- The entry belongs in bucket `i` of `n`.
  abbrev pub Belongs : ℕ → ℕ → LmDictEntry → Type 0
  Belongs n i e = (e.hash ≡ hash_fn e.key) × (e.hash % n ≡ i)

  -- Every entry belongs where it stands, in buckets that are counted from `i`.
  abbrev pub Placed : ℕ → ℕ → List (List LmDictEntry) → Type 0
  Placed n i [] = Unit {0}
  Placed n i (b ∷ bs) = All (Belongs n i) b × Placed n (suc i) bs

  pub record IsDict (d : LmDict) : Type 0 where
    pub has_buckets : 0 < length d.buckets
    pub placed : Placed (length d.buckets) 0 d.buckets
    pub counted : d.size ≡ entry_count d.buckets % 2 ^ 64

  Placed-empty : (n i k : ℕ) → Placed n i (empty_buckets k)
  unfolding empty_buckets
  Placed-empty n i zero = tt
  Placed-empty n i (suc k) = (tt, Placed-empty n (suc i) k)

  pub Placed-bucket_at :
      (n i : ℕ) (bs : List (List LmDictEntry)) (k : ℕ)
      → k < length bs
      → Placed n i bs
      → All (Belongs n (i + k)) (bucket_at bs k)
  unfolding bucket_at
  Placed-bucket_at n i [] k l p = absurd (omega (arith, l))
  Placed-bucket_at n i (b ∷ bs) zero l p = subst (λ x. All (Belongs n x) b) (omega arith) p.0
  Placed-bucket_at n i (b ∷ bs) (suc k) l p =
      subst (λ x. All (Belongs n x) (bucket_at bs k)) (omega arith)
        (Placed-bucket_at n (suc i) bs k (omega (arith, l)) p.1)

  Placed-set_bucket :
      (n i : ℕ) (bs : List (List LmDictEntry)) (k : ℕ) (c : List LmDictEntry)
      → Placed n i bs
      → All (Belongs n (i + k)) c
      → Placed n i (set_bucket bs k c)
  unfolding set_bucket
  Placed-set_bucket n i [] k c p a = tt
  Placed-set_bucket n i (b ∷ bs) zero c p a =
      (subst (λ x. All (Belongs n x) c) (omega arith) a, p.1)
  Placed-set_bucket n i (b ∷ bs) (suc k) c p a = (
    p.0,
    Placed-set_bucket n (suc i) bs k c p.1 (subst (λ x. All (Belongs n x) c) (omega arith) a),
  )

entry_count-set_bucket :
    (bs : List (List LmDictEntry)) (k : ℕ) (c : List LmDictEntry)
    → k < length bs
    → entry_count (set_bucket bs k c) + length (bucket_at bs k) ≡ entry_count bs + length c
unfolding entry_count set_bucket bucket_at
entry_count-set_bucket [] k c l = absurd (omega (arith, l))
entry_count-set_bucket (b ∷ bs) zero c l = omega arith
entry_count-set_bucket (b ∷ bs) (suc k) c l =
    omega (arith, entry_count-set_bucket bs k c (omega (arith, l)))

module _ (hash_fn : Word → ℕ) (cmp_eq : Word → Word → Bool) where
  length-set_entry :
      (k v : Word) (c : List LmDictEntry) → length (set_entry hash_fn cmp_eq k v c) ≡ length c
  unfolding set_entry
  length-set_entry k v [] = refl
  length-set_entry k v (e ∷ c) = ground (arith, length-set_entry k v c)

  All-set_entry :
      (n i : ℕ) (k v : Word) (c : List LmDictEntry)
      → All (Belongs hash_fn n i) c
      → All (Belongs hash_fn n i) (set_entry hash_fn cmp_eq k v c)
  unfolding set_entry
  All-set_entry n i k v [] a = tt
  All-set_entry n i k v (e ∷ c) a = elim (Bool-cases (matches hash_fn cmp_eq e k)) [
    | inl m ↦ rw m (a.0, a.1)
    | inr m ↦ rw m (a.0, All-set_entry n i k v c a.1)
  ]

  module _ (d : LmDict) (w : IsDict hash_fn d) (k v : Word) where
    abbrev at_key : ℕ
    at_key = hash_fn k % length d.buckets

    at_key-lt : at_key < length d.buckets
    at_key-lt = mod-lt (hash_fn k) w.has_buckets

    -- Another chain in the bucket of the key.
    new_chain-IsDict :
        (c : List LmDictEntry) (size : ℕ)
        → All (Belongs hash_fn (length d.buckets) at_key) c
        → size ≡ (entry_count d.buckets + length c - length (bucket_at d.buckets at_key)) % 2 ^ 64
        → IsDict hash_fn (record { buckets = set_bucket d.buckets at_key c; size = size })
    new_chain-IsDict c size a e =
        let l = length-set_bucket d.buckets at_key c in
        let m = entry_count-set_bucket d.buckets at_key c at_key-lt in
        record {
          has_buckets = omega (arith, l, w.has_buckets);
          placed =
              subst (λ n. Placed hash_fn n 0 (set_bucket d.buckets at_key c)) (sym l)
                (Placed-set_bucket hash_fn (length d.buckets) 0 d.buckets at_key c w.placed
                  (subst (λ x. All (Belongs hash_fn (length d.buckets) x) c) (omega arith) a));
          counted = e ∙ ap (λ x. x % 2 ^ 64) (omega (arith, m));
        }

    old_chain : All (Belongs hash_fn (length d.buckets) at_key) (bucket_at d.buckets at_key)
    old_chain =
        subst (λ x. All (Belongs hash_fn (length d.buckets) x) (bucket_at d.buckets at_key))
          (omega arith)
          (Placed-bucket_at hash_fn (length d.buckets) 0 d.buckets at_key at_key-lt w.placed)

    -- Every insertion keeps a table well formed, also where it gets no memory.
    pub lm_dict_set-IsDict :
        (granted : Bool) → IsDict hash_fn (lm_dict_set hash_fn cmp_eq granted d k v)
    unfolding lm_dict_set
    lm_dict_set-IsDict granted =
        let c = bucket_at d.buckets at_key in
        elim (Bool-cases (has_entry hash_fn cmp_eq k c)) [
          | inl h ↦ rw h (
              new_chain-IsDict (set_entry hash_fn cmp_eq k v c) d.size
                (All-set_entry (length d.buckets) at_key k v c old_chain)
                (w.counted ∙ ap (λ x. x % 2 ^ 64) (omega (arith, length-set_entry k v c))))
          | inr h ↦ elim (Bool-cases granted) [
            | inl g ↦
                rw (h, g)
                  (new_chain-IsDict (record { key = k; value = v; hash = hash_fn k } ∷ c)
                    ((d.size + 1) % 2 ^ 64) ((refl, refl), old_chain) (omega (arith, w.counted)))
            | inr g ↦ rw (h, g) w
          ]
        ]

pub new_dict-IsDict : (hash_fn : Word → ℕ) → IsDict hash_fn new_dict
unfolding new_dict empty_buckets entry_count
new_dict-IsDict hash_fn = record {
  has_buckets = omega arith;
  placed = Placed-empty hash_fn 16 0 16;
  counted = refl;
}
