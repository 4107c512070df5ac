-- ===== src/Runtime/Arithmetic/Integers.antt =====
-- Integer arithmetic of the runtime (src/runtime/runtime_value.c) against the integers.
use limitly.Prelude.{
  get_elem?-last, if◌then◌else◌, ◌==◌, subst, ◌+◌, ◌-◌, ◌*◌, ◌/◌, ◌≡◌, ◌≢◌, refl, sym, ap, ◌⊎◌, inl,
  inr, Bool-cases, true, false, Option, none, some, [], ◌∷◌, ◌++◌, length, get_elem?, arith,
}
use limitly.Prelude.Int.{ltb_ℤ, ℤ, pos, negsuc, ◌+ℤ◌, ◌-ℤ◌, ◌*ℤ◌, quot}
use limitly.Runtime.Word.{Word, val_nil, fits_smi_i64, box_int, is_int, is_ptr}
use limitly.Runtime.Word.Laws.{unbox-box}
use limitly.Runtime.Arithmetic.{
  lm_box_string, is_numeric, is_float, numeric_compare, other_object, obj_u64, obj_u128, obj_float,
  lm_box_int, lm_box_float, object_is_float, Object, obj_i64, obj_i128, Heap, FloatOps, alloc,
  object_at, in_i64, in_i128, make_i128, is_integer, object_is_integer, as_i128, object_as_i128,
  int_arith, lm_add, lm_sub, lm_mul, lm_div, is_zero,
}

object_at-alloc : (o : Object) (h : Heap) → object_at (alloc o h).1 (alloc o h).0 ≡ o
unfolding object_at alloc
object_at-alloc o h =
    let e : 8 * (length h + 1) / 8 - 1 ≡ length h = omega arith in
    let g : get_elem? (h ++ (o ∷ [])) (8 * (length h + 1) / 8 - 1) ≡ some o =
      subst (λ k. get_elem? (h ++ (o ∷ [])) k ≡ some o) (sym e) (get_elem?-last h o) in
    ap (λ (r : Option Object). elim r [ none ↦ other_object | some x ↦ x ]) g

ptr-alloc : (o : Object) (h : Heap) → (is_int (alloc o h).0 ≡ false) × (is_ptr (alloc o h).0 ≡ true)
unfolding alloc is_int is_ptr
ptr-alloc o h = ground arith

-- A word that stands for an integer on a heap.
pub record Denotes (f : FloatOps) (z : ℤ) (r : Word × Heap) : Type 0 where
  pub integer : is_integer r.1 r.0 ≡ true
  pub value : as_i128 f r.1 r.0 ≡ z

box-Denotes : (f : FloatOps) (z : ℤ) (h : Heap) → fits_smi_i64 z ≡ true → Denotes f z (box_int z, h)
unfolding is_integer as_i128
box-Denotes f z h e =
    let b = unbox-box z e in record { integer = ground arith; value = ground arith }

alloc-Denotes :
    (f : FloatOps) (z : ℤ) (o : Object) (h : Heap)
    → object_is_integer o ≡ true
    → object_as_i128 f o ≡ z
    → Denotes f z (alloc o h)
unfolding is_integer as_i128
alloc-Denotes f z o h i v =
    let p = ptr-alloc o h in
    let q = object_at-alloc o h in record { integer = ground arith; value = ground arith }

make_i128-Denotes : (f : FloatOps) (z : ℤ) (h : Heap) → Denotes f z (make_i128 z h)
unfolding make_i128
make_i128-Denotes f z h = elim (Bool-cases (fits_smi_i64 z)) [
  | inl e ↦ rw e (box-Denotes f z h e)
  | inr e ↦ elim (Bool-cases (in_i64 z)) [
    | inl i ↦
        rw (e, i)
          (alloc-Denotes f z (obj_i64 z) h (unfold object_is_integer in refl)
            (unfold object_as_i128 in refl))
    | inr i ↦
        rw (e, i)
          (alloc-Denotes f z (obj_i128 z) h (unfold object_is_integer in refl)
            (unfold object_as_i128 in refl))
  ]
]

-- The result of an integer operation: exact, or nil with the heap as it was.
abbrev pub IsExactOr : FloatOps → ℤ → Heap → Word × Heap → Type 0
IsExactOr f z h r =
    ((in_i128 z ≡ true) × Denotes f z r) ⊎ ((in_i128 z ≡ false) × (r ≡ (val_nil, h)))

int_arith-IsExactOr :
    (f : FloatOps) (op : ℤ → ℤ → ℤ) (a b : Word) (h : Heap)
    → IsExactOr f (op (as_i128 f h a) (as_i128 f h b)) h (int_arith f op a b h)
unfolding int_arith
int_arith-IsExactOr f op a b h =
    let r = op (as_i128 f h a) (as_i128 f h b) in
    elim (Bool-cases (in_i128 r)) [
      | inl e ↦ inl (e, rw e (make_i128-Denotes f r h))
      | inr e ↦ inr (e, rw e refl)
    ]

is_zero_pos : (z : ℤ) → is_zero z ≡ true → z ≡ pos 0
is_zero_pos (pos n) e = ground arith
is_zero_pos (negsuc n) e = ground arith

integer-not_float : (o : Object) → object_is_integer o ≡ true → object_is_float o ≡ false
unfolding object_is_integer object_is_float
integer-not_float (obj_i64 z) e = refl
integer-not_float (obj_u64 n) e = refl
integer-not_float (obj_i128 z) e = refl
integer-not_float (obj_u128 n) e = refl
integer-not_float (obj_float d) e = cc
integer-not_float (lm_box_int z) e = refl
integer-not_float (lm_box_float d) e = cc
integer-not_float (lm_box_string t) e = cc
integer-not_float other_object e = cc

is_integer-not_is_float : (h : Heap) (v : Word) → is_integer h v ≡ true → is_float h v ≡ false
unfolding is_integer is_float is_int is_ptr
is_integer-not_is_float h v e = ground (arith, integer-not_float (object_at h v))

ltb_ℤ-irrefl : (z : ℤ) → ltb_ℤ z z ≡ false
ltb_ℤ-irrefl z = ground arith

module _ (f : FloatOps) (a b : Word) (h : Heap) (ia : is_integer h a ≡ true)
    (ib : is_integer h b ≡ true) where
  pub lm_add-IsExactOr : IsExactOr f (as_i128 f h a +ℤ as_i128 f h b) h (lm_add f a b h)
  unfolding lm_add
  lm_add-IsExactOr = rw (ia, ib) (int_arith-IsExactOr f ◌+ℤ◌ a b h)

  pub lm_sub-IsExactOr : IsExactOr f (as_i128 f h a -ℤ as_i128 f h b) h (lm_sub f a b h)
  unfolding lm_sub
  lm_sub-IsExactOr = rw (ia, ib) (int_arith-IsExactOr f ◌-ℤ◌ a b h)

  pub lm_mul-IsExactOr : IsExactOr f (as_i128 f h a *ℤ as_i128 f h b) h (lm_mul f a b h)
  unfolding lm_mul
  lm_mul-IsExactOr = rw (ia, ib) (int_arith-IsExactOr f ◌*ℤ◌ a b h)

  -- Addition, subtraction and multiplication of two integer words give a word for the exact
  -- result where it is an __int128, and nil with the heap as it was where it is none.
  pub int_ops-IsExactOr :
      IsExactOr f (as_i128 f h a +ℤ as_i128 f h b) h (lm_add f a b h)
      × IsExactOr f (as_i128 f h a -ℤ as_i128 f h b) h (lm_sub f a b h)
      × IsExactOr f (as_i128 f h a *ℤ as_i128 f h b) h (lm_mul f a b h)
  int_ops-IsExactOr = (lm_add-IsExactOr, lm_sub-IsExactOr, lm_mul-IsExactOr)

  -- Division of two integer words gives nil with the heap as it was for a divisor 0, and otherwise
  -- a word for the quotient rounded towards zero, where the quotient is an __int128.
  pub lm_div_lem :
      in_i128 (quot (as_i128 f h a) (as_i128 f h b)) ≡ true
      → ((as_i128 f h b ≡ pos 0) × (lm_div f a b h ≡ (val_nil, h)))
        ⊎ ((as_i128 f h b ≢ pos 0)
            × Denotes f (quot (as_i128 f h a) (as_i128 f h b)) (lm_div f a b h))
  unfolding lm_div
  lm_div_lem _ = elim (Bool-cases (is_zero (as_i128 f h b))) [
    | inl e ↦ inl (is_zero_pos (as_i128 f h b) e, rw (ia, ib, e) refl)
    | inr e ↦ inr (
      (λ z. ground (arith, e, z)),
      rw (ia, ib, e) (make_i128-Denotes f (quot (as_i128 f h a) (as_i128 f h b)) h),
    )
  ]

  -- Two integer words compare as the integers that they stand for: -1 below, 1 above and 0 between
  -- equals, on whatever path the words are represented.
  pub numeric_compare_lem : numeric_compare f h a b ≡ (
      if ltb_ℤ (as_i128 f h a) (as_i128 f h b)
      then negsuc 0
      else if ltb_ℤ (as_i128 f h b) (as_i128 f h a)
      then pos 1
      else pos 0)
  unfolding numeric_compare is_numeric
  numeric_compare_lem =
      let fa = is_integer-not_is_float h a ia in
      let fb = is_integer-not_is_float h b ib in
      elim (Bool-cases (a == b)) [
        | inl e ↦
            let p : a ≡ b = ground (arith, e) in
            let q = ltb_ℤ-irrefl (as_i128 f h a) in
            subst
              (λ w. numeric_compare f h a w ≡ (
                if ltb_ℤ (as_i128 f h a) (as_i128 f h w)
                then negsuc 0
                else if ltb_ℤ (as_i128 f h w) (as_i128 f h a)
                then pos 1
                else pos 0))
              p (let r : a == a ≡ true = ground arith in rw (r, q) refl)
        | inr e ↦ rw (e, ia, ib, fa, fb) refl
      ]
