-- ===== src/Containers/Tests.antt =====
-- The containers on small inputs.
use limitly.Prelude.{
  String, false, true, Bool, ℕ, zero, suc, ◌*◌, ◌/◌, ◌^◌, ◌<◌, Option, some, List, [], ◌∷◌, ◌≡◌,
  refl, sym, ◌∙◌, length, get_elem?, arith,
}
use limitly.Runtime.Word.{is_ptr, unbox_int, is_int, Word, val_nil}
use limitly.Containers.Block.{IsMalloc, IsRealloc}
use limitly.Containers.Dict.{
  LmDict, new_dict, lm_dict_set, lm_dict_get, lm_dict_items, bucket_at, set_bucket, has_entry,
  set_entry, get_entry, matches, empty_buckets, bucket_items, chain_items,
}
use limitly.Containers.Dict.BoxedKeys.{
  hash_boxed_value, cmp_boxed_value, lm_value_eq, numbers_eq, texts_eq, text_at, object_text,
  cmp_boxed_eq, boxed_keys-IsKeyEquality,
}
use limitly.Containers.Dict.IntKeys.{lm_hash_int}
use limitly.Prelude.Int.{ℤ, pos}
use limitly.Runtime.Arithmetic.{
  is_integer, object_is_integer, is_numeric, is_float, object_is_float, object_at, FloatOps,
  wrap_unsigned, as_i64, as_i128,
}
use limitly.Containers.Dict.Laws.{IsKeyEquality, lm_dict_get-lm_dict_set}
use limitly.Containers.Dict.Invariant.{IsDict, lm_dict_set-IsDict, new_dict-IsDict, entry_count}
use limitly.Containers.Dict.Items.{find_item, or_nil, items_or_none, find_item-lm_dict_items}
use limitly.Containers.Vector.Calls.{ListCall, list_answers, get_at, set_at}
use limitly.Containers.Vector.Refinement.{run_new, run_new-list_answers}
use limitly.Containers.Tuple.{LmTuple, lm_tuple_iterator_new}
use limitly.Containers.Tuple.Cells.{IsTuple, IsClean, Answers, Leaves}
use limitly.Containers.Tuple.Lookups.{
  TupleCall, tuple_call, lookups_after, tuple_call-Leaves, IsKeeping,
}
use limitly.Containers.Tuple.Iteration.{elements_from, elements_from-iterator_new}

-- Keys are small integers: no float stands in the heap.
abbrev no_floats : FloatOps
no_floats = record {
  add = λ a b. 0;
  sub = λ a b. 0;
  mul = λ a b. 0;
  div = λ a b. 0;
  lt = λ a b. false;
  eq = λ a b. false;
  of_i64 = λ z. 0;
  to_int = λ d. pos 0;
}

abbrev no_chars : String → List ℤ
no_chars t = []

abbrev hash_key : Word → ℕ
hash_key = hash_boxed_value no_floats no_chars []

abbrev cmp_key : Word → Word → Bool
cmp_key = cmp_boxed_eq no_floats no_chars []

nothing-not_float : (v : Word) → is_float [] v ≡ false
unfolding is_float object_is_float object_at
nothing-not_float v = ground arith

keys-IsKeyEquality : IsKeyEquality hash_key cmp_key
keys-IsKeyEquality = boxed_keys-IsKeyEquality no_floats no_chars [] nothing-not_float

-- The integers 5, 21 and 37 as words; they share a bucket.
abbrev key_5 : Word
key_5 = 41

abbrev key_21 : Word
key_21 = 169

abbrev key_37 : Word
key_37 = 297

abbrev one_entry : LmDict
one_entry = lm_dict_set hash_key cmp_key true new_dict key_5 50

abbrev two_entries : LmDict
two_entries = lm_dict_set hash_key cmp_key true one_entry key_21 210

two_entries-IsDict : IsDict hash_key two_entries
two_entries-IsDict =
    lm_dict_set-IsDict hash_key cmp_key one_entry
      (lm_dict_set-IsDict hash_key cmp_key new_dict (new_dict-IsDict hash_key) key_5 50 true) key_21
      210 true

lm_dict_get-lm_dict_set_example :
    lm_dict_get hash_key cmp_key (lm_dict_set hash_key cmp_key true two_entries key_37 370) key_37
    ≡ 370
unfolding hash_boxed_value cmp_boxed_value lm_value_eq numbers_eq texts_eq text_at object_text
    is_integer object_is_integer is_numeric is_float object_is_float is_ptr object_at lm_hash_int
    as_i64 as_i128 is_int unbox_int wrap_unsigned
lm_dict_get-lm_dict_set_example =
    lm_dict_get-lm_dict_set hash_key cmp_key keys-IsKeyEquality true two_entries key_37 key_37 370
      two_entries-IsDict

-- Without memory a new key is not stored, and the other keys are as they were.
unstored_key :
    lm_dict_get hash_key cmp_key (lm_dict_set hash_key cmp_key false two_entries key_37 370) key_37
    ≡ val_nil
unfolding lm_dict_get lm_dict_set new_dict bucket_at set_bucket has_entry set_entry get_entry
    matches empty_buckets hash_boxed_value cmp_boxed_value lm_value_eq numbers_eq texts_eq text_at
    object_text is_integer object_is_integer is_numeric is_float object_is_float is_ptr object_at
    lm_hash_int as_i64 as_i128 is_int unbox_int wrap_unsigned
unstored_key = refl

find_item-lm_dict_items_example :
    ((lm_dict_items true two_entries).1 ≡ 2)
    × (length (items_or_none (lm_dict_items true two_entries).0)
        ≡ 2 * (lm_dict_items true two_entries).1)
    × (or_nil (find_item hash_key cmp_key key_5 (items_or_none (lm_dict_items true two_entries).0))
        ≡ 50)
unfolding lm_dict_get lm_dict_set new_dict bucket_at set_bucket has_entry set_entry get_entry
    matches empty_buckets lm_dict_items bucket_items chain_items find_item entry_count lm_hash_int
    hash_boxed_value cmp_boxed_value lm_value_eq numbers_eq texts_eq text_at object_text is_integer
    object_is_integer is_numeric is_float object_is_float is_ptr object_at as_i64 as_i128 is_int
    unbox_int wrap_unsigned
find_item-lm_dict_items_example =
    find_item-lm_dict_items hash_key cmp_key true two_entries key_5 two_entries-IsDict (omega arith)

-- The words of `p`, cut or filled with zeros to `n` words.
unfoldable fit : List Word → ℕ → List Word
fit p zero = []
fit [] (suc n) = 0 ∷ fit [] n
fit (x ∷ p) (suc n) = x ∷ fit p n

abbrev test_malloc : ℕ → Option (List Word)
test_malloc b = some (fit [] (b / 8))

abbrev test_realloc : List Word → ℕ → Option (List Word)
test_realloc p b = some (fit p (b / 8))

length-fit : (p : List Word) (n : ℕ) → length (fit p n) ≡ n
unfolding fit
length-fit p zero = refl
length-fit [] (suc n) = omega (arith, length-fit [] n)
length-fit (x ∷ p) (suc n) = omega (arith, length-fit p n)

get_elem?-fit :
    (p : List Word) (n i : ℕ) → i < n → i < length p → get_elem? (fit p n) i ≡ get_elem? p i
unfolding fit
get_elem?-fit p zero i l m = absurd (omega (arith, l))
get_elem?-fit [] (suc n) i l m = absurd (omega (arith, m))
get_elem?-fit (x ∷ p) (suc n) zero l m = refl
get_elem?-fit (x ∷ p) (suc n) (suc i) l m =
    get_elem?-fit p n i (omega (arith, l)) (omega (arith, m))

some-inj : (p q : List Word) → some p ≡ some q → p ≡ q
some-inj p q e = cc

test_malloc-IsMalloc : IsMalloc test_malloc (2 ^ 62)
test_malloc-IsMalloc = record {
  new_length = λ n p e.
      rw (sym (some-inj (fit [] (8 * n / 8)) p e)) (length-fit [] (8 * n / 8) ∙ omega arith);
  new_granted = λ n l. (fit [] (8 * n / 8), refl);
}

test_realloc-IsRealloc : IsRealloc test_realloc (2 ^ 62)
test_realloc-IsRealloc = record {
  length_new = λ p n p' e.
      rw (sym (some-inj (fit p (8 * n / 8)) p' e)) (length-fit p (8 * n / 8) ∙ omega arith);
  kept = λ p n p' e l i m.
      rw (sym (some-inj (fit p (8 * n / 8)) p' e))
        (get_elem?-fit p (8 * n / 8) i (omega (arith, l, m)) m);
  granted = λ p n l. (fit p (8 * n / 8), refl);
}

-- The ninth element makes the block grow.
abbrev nine_calls : List ListCall
nine_calls =
    ListCall.append 1
    ∷ (ListCall.append 2
        ∷ (ListCall.append 3
            ∷ (ListCall.append 4
                ∷ (ListCall.append 5
                    ∷ (ListCall.append 6
                        ∷ (ListCall.append 7
                            ∷ (ListCall.append 8
                                ∷ (ListCall.append 9
                                    ∷ (ListCall.set 1 20
                                        ∷ (ListCall.get 1
                                            ∷ (ListCall.get 8
                                                ∷ (ListCall.get 9 ∷ (ListCall.len ∷ [])))))))))))))

run_new-list_answers_example :
    run_new test_malloc test_realloc nine_calls ≡ some (20 ∷ (9 ∷ (val_nil ∷ (9 ∷ []))))
unfolding list_answers get_at set_at
run_new-list_answers_example =
    run_new-list_answers test_malloc test_realloc (2 ^ 62) nine_calls test_malloc-IsMalloc
      test_realloc-IsRealloc (omega arith) (omega arith)

abbrev full_tuple : LmTuple
full_tuple = record { elements = 30 ∷ (40 ∷ []); size = 2; capacity = 2 }

full_tuple-IsTuple : IsTuple full_tuple
full_tuple-IsTuple = record { block_full = refl; size_le = omega arith; few = omega arith }

full_tuple-IsClean : IsClean full_tuple
full_tuple-IsClean i l m = absurd (omega (arith, l, m))

tuple_call-Leaves_example : Leaves (tuple_call test_realloc full_tuple (TupleCall.append 50)) (λ t'.
    (IsKeeping full_tuple (TupleCall.append 50) → IsClean t')
    × Answers t' (lookups_after full_tuple (TupleCall.append 50)))
tuple_call-Leaves_example =
    tuple_call-Leaves test_realloc (2 ^ 62) test_realloc-IsRealloc (omega arith) full_tuple
      (TupleCall.append 50) full_tuple-IsTuple full_tuple-IsClean (omega arith)

elements_from-iterator_new_example :
    elements_from 3 (lm_tuple_iterator_new full_tuple) ≡ some (30 ∷ (40 ∷ []))
elements_from-iterator_new_example =
    elements_from-iterator_new full_tuple 3 full_tuple-IsTuple (omega arith)
