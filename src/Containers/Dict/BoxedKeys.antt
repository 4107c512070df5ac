-- ===== src/Containers/Dict/BoxedKeys.antt =====
-- The hash and the comparison of the tables that the program makes (`hash_boxed_value` and
-- `cmp_boxed_value` of src/runtime/runtime_dict.c, `lm_value_eq` of src/runtime/runtime_value.c).
-- `chars` gives the `char`s of a text as C reads them, whose sign is the compiler's choice.
use text.Mathlib.Text.{◌==◌ as str_eq}
use limitly.Prelude.{
  Bool-cases, inl, inr, subst, ℕ, ◌+◌, ◌*◌, ◌%◌, ◌^◌, Bool, true, false, ◌&&◌, ◌||◌, Option, none,
  some, List, [], ◌∷◌, String, ◌≡◌, refl, sym, ◌==◌, ltb, string_eq, if◌then◌else◌, arith,
}
use limitly.Prelude.Int.{ℤ, pos, negsuc, leb_ℤ}
use limitly.Runtime.Word.{Word, is_ptr, is_int, is_nil, is_bool}
use limitly.Runtime.Arithmetic.{
  Object, lm_box_string, Heap, FloatOps, wrap_unsigned, object_at, object_is_integer, is_integer,
  is_float, is_numeric, as_i128, as_float, is_zero,
}
use limitly.Containers.Dict.Laws.{IsKeyEquality}
use limitly.Containers.Dict.IntKeys.{lm_hash_int}

unfoldable pub object_text : Object → Option String
object_text (lm_box_string t) = some t
object_text _ = none

-- The text of a word that points at a string.
unfoldable pub text_at : Heap → Word → Option String
unfolding object_text
text_at h v = if is_ptr v then object_text (object_at h v) else none

-- `hash = ((hash << 5) + hash) + c`
unfoldable pub hash_chars : List ℤ → ℕ → ℕ
unfolding wrap_unsigned
hash_chars [] hash = hash
hash_chars (c ∷ cs) hash = hash_chars cs ((hash * 32 + hash + wrap_unsigned 64 c) % 2 ^ 64)

-- Two texts are compared as texts; all else as `numbers` says.
unfoldable pub texts_eq : Option String → Option String → Bool → Bool
texts_eq (some t) (some u) numbers = str_eq t u
texts_eq _ _ numbers = numbers

object_text-not_integer :
    (o : Object) (t : String) → object_text o ≡ some t → object_is_integer o ≡ false
unfolding object_text object_is_integer
object_text-not_integer (lm_box_string u) t e = refl
object_text-not_integer _ t e = cc

text-not_integer :
    (h : Heap) (v : Word) (t : String) → text_at h v ≡ some t → is_integer h v ≡ false
unfolding text_at is_integer is_int is_ptr
text-not_integer h v t e = elim (Bool-cases (is_ptr v)) [
  | inl p ↦
      let o =
        object_text-not_integer (object_at h v) t (unfold is_ptr text_at in ground (arith, p, e)) in
      ground (arith, p, o)
  | inr p ↦ cc
]

texts_trans :
    (s t u : Option String) (n m r : Bool)
    → ((x : String) → s ≡ some x → n ≡ false)
    → ((x : String) → t ≡ some x → (n ≡ false) × (m ≡ false))
    → ((x : String) → u ≡ some x → m ≡ false)
    → (n ≡ true → m ≡ true → r ≡ true)
    → texts_eq s t n ≡ true
    → texts_eq t u m ≡ true
    → texts_eq s u r ≡ true
unfolding texts_eq
texts_trans none none none n m r p q w g a b = g a b
texts_trans none none (some z) n m r p q w g a b = absurd (ground (arith, w z refl, b))
texts_trans none (some y) u n m r p q w g a b = absurd (ground (arith, (q y refl).0, a))
texts_trans (some x) none u n m r p q w g a b = absurd (ground (arith, p x refl, a))
texts_trans (some x) (some y) none n m r p q w g a b = absurd (ground (arith, (q y refl).1, b))
texts_trans (some x) (some y) (some z) n m r p q w g a b =
    ground (arith, a, b, string_eq.beq_iff x y, string_eq.beq_iff y z, string_eq.beq_iff x z)

texts_sym : (s t : Option String) (n m : Bool) → n ≡ m → texts_eq s t n ≡ texts_eq t s m
unfolding texts_eq
texts_sym none none n m e = e
texts_sym none (some y) n m e = e
texts_sym (some x) none n m e = e
texts_sym (some x) (some y) n m e = ground (arith, string_eq.beq_iff x y, string_eq.beq_iff y x)

module _ (f : FloatOps) (chars : String → List ℤ) (h : Heap) where
  unfoldable pub lm_hash_string : Word → ℕ
  unfolding text_at hash_chars
  lm_hash_string key = elim (text_at h key) [ none ↦ 0 | some t ↦ hash_chars (chars t) 5381 ]

  unfoldable pub numbers_eq : Word → Word → Bool
  numbers_eq a b =
      if is_numeric h a && is_numeric h b
      then if is_float h a || is_float h b
        then f.eq (as_float f h a) (as_float f h b)
        else leb_ℤ (as_i128 f h a) (as_i128 f h b) && leb_ℤ (as_i128 f h b) (as_i128 f h a)
      else false

  unfoldable pub lm_value_eq : Word → Word → Bool
  unfolding texts_eq numbers_eq
  lm_value_eq a b = if a == b then true else texts_eq (text_at h a) (text_at h b) (numbers_eq a b)

  unfoldable pub hash_boxed_value : Word → ℕ
  unfolding lm_hash_string
  hash_boxed_value key =
      if is_integer h key
      then lm_hash_int f h key
      else if is_bool key
      then lm_hash_int f h key
      else if is_nil key
      then 0
      else if is_ptr key
      then elim (text_at h key) [ none ↦ key | some t ↦ lm_hash_string key ]
      else key

  unfoldable pub cmp_boxed_value : Word → Word → ℤ
  unfolding lm_value_eq
  cmp_boxed_value a b = if lm_value_eq a b then pos 0 else if ltb b a then pos 1 else negsuc 0

  abbrev pub cmp_boxed_eq : Word → Word → Bool
  cmp_boxed_eq a b = is_zero (cmp_boxed_value a b)

  cmp_boxed-zero : (a b : Word) → cmp_boxed_eq a b ≡ lm_value_eq a b
  unfolding cmp_boxed_value
  cmp_boxed-zero a b = ground arith

  -- Without floats, numbers are equal when they are the same integer.
  module _ (no_floats : (v : Word) → is_float h v ≡ false) where
    numbers-integers :
        (a b : Word)
        → numbers_eq a b ≡ (
            (is_integer h a && is_integer h b)
            && (leb_ℤ (as_i128 f h a) (as_i128 f h b) && leb_ℤ (as_i128 f h b) (as_i128 f h a)))
    unfolding numbers_eq is_numeric
    numbers-integers a b = ground (arith, no_floats a, no_floats b)

    no_number : (a b : Word) (t : String) → text_at h a ≡ some t → numbers_eq a b ≡ false
    no_number a b t e = ground (arith, numbers-integers a b, text-not_integer h a t e)

    no_other_number : (a b : Word) (t : String) → text_at h b ≡ some t → numbers_eq a b ≡ false
    no_other_number a b t e = ground (arith, numbers-integers a b, text-not_integer h b t e)

    numbers_sym : (a b : Word) → numbers_eq a b ≡ numbers_eq b a
    numbers_sym a b = ground (arith, numbers-integers a b, numbers-integers b a)

    numbers_trans :
        (a b c : Word) → numbers_eq a b ≡ true → numbers_eq b c ≡ true → numbers_eq a c ≡ true
    numbers_trans a b c x y =
        ground (arith, x, y, numbers-integers a b, numbers-integers b c, numbers-integers a c)

    value_eq_refl : (a : Word) → lm_value_eq a a ≡ true
    unfolding lm_value_eq
    value_eq_refl a = ground arith

    value_eq_sym : (a b : Word) → lm_value_eq a b ≡ lm_value_eq b a
    unfolding lm_value_eq
    value_eq_sym a b = ground (arith, texts_sym (text_at h a) (text_at h b) _ _ (numbers_sym a b))

    value_eq_trans :
        (a b c : Word) → lm_value_eq a b ≡ true → lm_value_eq b c ≡ true → lm_value_eq a c ≡ true
    unfolding lm_value_eq
    value_eq_trans a b c x y = elim (Bool-cases (a == b)) [
      | inl e ↦ let p : a ≡ b = ground (arith, e) in subst (λ w. lm_value_eq w c ≡ true) (sym p) y
      | inr e ↦ elim (Bool-cases (b == c)) [
        | inl k ↦ let p : b ≡ c = ground (arith, k) in subst (λ w. lm_value_eq a w ≡ true) p x
        | inr k ↦
            let t =
              texts_trans (text_at h a) (text_at h b) (text_at h c) (numbers_eq a b)
                (numbers_eq b c) (numbers_eq a c) (no_number a b)
                (λ z w. (no_other_number a b z w, no_number b c z w)) (no_other_number b c)
                (numbers_trans a b c) (ground (arith, x, e)) (ground (arith, y, k)) in
            ground (arith, t)
      ]
    ]

    -- Where the heap holds no floats, what the program's tables take for the same key is an
    -- equivalence.
    pub boxed_keys-IsKeyEquality : IsKeyEquality hash_boxed_value cmp_boxed_eq
    boxed_keys-IsKeyEquality = record {
      refl_eq = λ k. ground (arith, cmp_boxed-zero k k, value_eq_refl k);
      sym_eq = λ j k. ground (arith, cmp_boxed-zero j k, cmp_boxed-zero k j, value_eq_sym j k);
      trans_eq = λ i j k x y. ground (
        arith,
        x,
        y,
        cmp_boxed-zero i j,
        cmp_boxed-zero j k,
        cmp_boxed-zero i k,
        value_eq_trans i j k,
      );
    }
