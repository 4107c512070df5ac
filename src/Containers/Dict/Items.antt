-- ===== src/Containers/Dict/Items.antt =====
-- The listing of a table (`lm_dict_items` of src/runtime/runtime_dict.c) against its lookups.
use limitly.Prelude.{
  ℕ, zero, suc, ◌+◌, ◌*◌, ◌<◌, ◌%◌, ◌^◌, Bool, Option, none, some, List, [], ◌∷◌, ◌++◌, ◌≡◌, ◌≢◌,
  refl, sym, ap, ◌∙◌, length, length-append, ◌==◌, if◌then◌else◌, arith, Bool-cases, inl, inr, All,
}
use native.Mathlib.Nat.{mod-lt}
use limitly.Runtime.Word.{Word, val_nil}
use limitly.Containers.Dict.{
  LmDictEntry, LmDict, bucket_at, chain_items, bucket_items, lm_dict_items, matches, get_entry,
  lm_dict_get,
}
use limitly.Containers.Dict.Laws.{same_key}
use limitly.Containers.Dict.Invariant.{IsDict, Placed, Placed-bucket_at, Belongs, entry_count}

abbrev pub or_nil : Option Word → Word
or_nil none = val_nil
or_nil (some v) = v

abbrev pub items_or_none : Option (List Word) → List Word
items_or_none none = []
items_or_none (some l) = l

is_nil_list : (l : List Word) → length l ≡ 0 → l ≡ []
is_nil_list [] h = refl
is_nil_list (x ∷ l) h = absurd (omega (arith, h))

length-chain_items : (c : List LmDictEntry) → length (chain_items c) ≡ 2 * length c
unfolding chain_items
length-chain_items [] = refl
length-chain_items (e ∷ c) = omega (arith, length-chain_items c)

length-bucket_items : (bs : List (List LmDictEntry)) → length (bucket_items bs) ≡ 2 * entry_count bs
unfolding bucket_items entry_count
length-bucket_items [] = refl
length-bucket_items (b ∷ bs) = omega (
  arith,
  length-append (chain_items b) (bucket_items bs),
  length-chain_items b,
  length-bucket_items bs,
)

module _ (hash_fn : Word → ℕ) (cmp_eq : Word → Word → Bool) where
  -- The value that a list of keys and values gives a key: the one of the first key that the table
  -- takes for the same.
  unfoldable pub find_item : Word → List Word → Option Word
  find_item key [] = none
  find_item key (k ∷ []) = none
  find_item key (k ∷ (v ∷ items)) =
      let rest = find_item key items in if same_key hash_fn cmp_eq k key then some v else rest

  unfoldable find_entry : Word → List LmDictEntry → Option Word
  find_entry key [] = none
  find_entry key (e ∷ c) =
      let rest = find_entry key c in
      if same_key hash_fn cmp_eq e.key key then some e.value else rest

  abbrev or_else : Option Word → Option Word → Option Word
  or_else none o = o
  or_else (some v) o = some v

  or_else-none : (o : Option Word) → or_else o none ≡ o
  or_else-none none = refl
  or_else-none (some v) = refl

  find_item-chain :
      (key : Word) (c : List LmDictEntry) (items : List Word)
      → find_item key (chain_items c ++ items) ≡ or_else (find_entry key c) (find_item key items)
  unfolding find_item find_entry chain_items
  find_item-chain key [] items = refl
  find_item-chain key (e ∷ c) items = ground (arith, find_item-chain key c items)

  module _ (n : ℕ) (key : Word) where
    get_entry-find_entry :
        (i : ℕ) (c : List LmDictEntry)
        → All (Belongs hash_fn n i) c
        → get_entry hash_fn cmp_eq key c ≡ or_nil (find_entry key c)
    unfolding get_entry find_entry matches
    get_entry-find_entry i [] a = refl
    get_entry-find_entry i (e ∷ c) a = ground (arith, a.0.0, get_entry-find_entry i c a.1)

    find_entry-elsewhere :
        (i : ℕ) (c : List LmDictEntry)
        → All (Belongs hash_fn n i) c
        → i ≢ hash_fn key % n
        → find_entry key c ≡ none
    unfolding find_entry
    find_entry-elsewhere i [] a h = refl
    find_entry-elsewhere i (e ∷ c) a h = elim (Bool-cases (same_key hash_fn cmp_eq e.key key)) [
      | inr f ↦ rw f (find_entry-elsewhere i c a.1 h)
      | inl f ↦
          let y : hash_fn e.key ≡ hash_fn key = ground (arith, f) in
          absurd (h (sym a.0.1 ∙ ap (λ x. x % n) (a.0.0 ∙ y)))
    ]

    find_item-past :
        (i : ℕ) (bs : List (List LmDictEntry))
        → Placed hash_fn n i bs
        → hash_fn key % n < i
        → find_item key (bucket_items bs) ≡ none
    unfolding bucket_items find_item
    find_item-past i [] p l = refl
    find_item-past i (b ∷ bs) p l =
        find_item-chain key b (bucket_items bs)
        ∙ ap (λ o. or_else o (find_item key (bucket_items bs)))
            (find_entry-elsewhere i b p.0 (λ e. omega (arith, e, l)))
        ∙ find_item-past (suc i) bs p.1 (omega (arith, l))

    find_item-bucket :
        (i : ℕ) (bs : List (List LmDictEntry)) (k : ℕ)
        → Placed hash_fn n i bs
        → hash_fn key % n ≡ i + k
        → k < length bs
        → find_item key (bucket_items bs) ≡ find_entry key (bucket_at bs k)
    unfolding bucket_items bucket_at
    find_item-bucket i [] k p e l = absurd (omega (arith, l))
    find_item-bucket i (b ∷ bs) zero p e l =
        find_item-chain key b (bucket_items bs)
        ∙ ap (or_else (find_entry key b)) (find_item-past (suc i) bs p.1 (omega (arith, e)))
        ∙ or_else-none (find_entry key b)
    find_item-bucket i (b ∷ bs) (suc k) p e l =
        find_item-chain key b (bucket_items bs)
        ∙ ap (λ o. or_else o (find_item key (bucket_items bs)))
            (find_entry-elsewhere i b p.0 (λ x. omega (arith, x, e)))
        ∙ find_item-bucket (suc i) bs k p.1 (omega (arith, e)) (omega (arith, l))

  get-bucket_items :
      (d : LmDict) (key : Word)
      → IsDict hash_fn d
      → lm_dict_get hash_fn cmp_eq d key ≡ or_nil (find_item key (bucket_items d.buckets))
  unfolding lm_dict_get
  get-bucket_items d key w =
      let n = length d.buckets in
      let k = hash_fn key % n in
      let l : k < n = mod-lt (hash_fn key) w.has_buckets in
      get_entry-find_entry n key (0 + k) (bucket_at d.buckets k)
        (Placed-bucket_at hash_fn n 0 d.buckets k l w.placed)
      ∙ ap or_nil (sym (find_item-bucket n key 0 d.buckets k w.placed (omega arith) l))

  -- The listing of a well-formed table with fewer than 2^60 entries, whose block has a size of 64
  -- bits: where it gets memory, it counts the entries, holds as many pairs, and gives each key the
  -- value that a lookup gives it, all by what the table takes for the same key (equal hashes and a
  -- comparison that gives 0); where it gets none, it counts and holds nothing.
  pub find_item-lm_dict_items :
      (granted : Bool) (d : LmDict) (key : Word)
      → IsDict hash_fn d
      → entry_count d.buckets < 2 ^ 60
      → (let items = lm_dict_items granted d in
          (items.1 ≡ (if granted then entry_count d.buckets else 0))
          × (length (items_or_none items.0) ≡ 2 * items.1)
          × (or_nil (find_item key (items_or_none items.0))
              ≡ (if granted then lm_dict_get hash_fn cmp_eq d key else val_nil)))
  unfolding lm_dict_items find_item
  find_item-lm_dict_items granted d key w b =
      let g = get-bucket_items d key w in
      let c = length-bucket_items d.buckets in
      let n : d.size ≡ entry_count d.buckets = omega (arith, w.counted, b) in
      elim (Bool-cases (d.size == 0)) [
        | inr s ↦ elim (Bool-cases granted) [
          | inl t ↦ rw (s, t) (n, omega (arith, c, n), sym g)
          | inr t ↦ rw (s, t) (refl, omega arith, refl)
        ]
        | inl s ↦
            let z : d.size ≡ 0 = ground (arith, s) in
            let e = is_nil_list (bucket_items d.buckets) (omega (arith, c, n, z)) in
            let x : lm_dict_get hash_fn cmp_eq d key ≡ val_nil =
              g ∙ ap (λ l. or_nil (find_item key l)) e in
            elim (Bool-cases granted) [
              | inl t ↦ rw (s, t) (omega (arith, n, z), omega arith, sym x)
              | inr t ↦ rw (s, t) (refl, omega arith, refl)
            ]
      ]
