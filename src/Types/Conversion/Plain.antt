-- ===== src/Types/Conversion/Plain.antt =====
-- The conversion tests of src/backend/types.hh that do not look into types, against what types mean.
use limitly.Prelude.{
  leb, ℕ, true, false, ◌&&◌, ◌||◌, Option, some, String, string_eq, List, ◌==◌, ◌≡◌, refl, sym, ap,
  subst, ◌∙◌, inl, inr, arith, Bool-cases,
}
use limitly.Types.Term.{
  TypePtr, type_at, Extra, no_extra, TypeTag, tag_of, is_integer_tag, is_float_tag, is_decimal_tag,
  tag_bool, tag_any,
}
use limitly.Types.Shallow.{FrameInfo, convert_same, convert_decimal, convert_bool, convert_numeric}
use limitly.Types.Conversion.Meaning.{
  Value, is_plain, plain_value, HasType, HasExtra, IsFull, IsFullExtra, Below,
}

module _ (registry : List (String × FrameInfo)) (heap : ℕ → Option TypePtr) where
  -- A type with a plain tag has no extra information.
  plain-no_extra :
      (tag : TypeTag) (e : Extra)
      → IsFullExtra registry heap tag e
      → is_plain tag ≡ true
      → e ≡ no_extra
  plain-no_extra tag no_extra h p = refl
  plain-no_extra tag e h p = absurd (grind (arith, h, p))

  pub any-HasType :
      (b : TypePtr)
      → IsFull registry heap b
      → (tag_of b == tag_any) ≡ true
      → (v : Value) → HasType registry b v
  any-HasType (type_at b tag e) w p v =
      let q = plain-no_extra tag e w.1 (ground (arith, p)) in
      subst (λ x. HasExtra registry tag x v) (sym q) (inl p)

  pub convert_same-Below :
      (a b : TypePtr)
      → IsFull registry heap a
      → IsFull registry heap b
      → convert_same a b ≡ some true
      → Below registry heap a b
  unfolding convert_same
  convert_same-Below (type_at a tag e) (type_at b tag' e') wa wb h v x =
      elim (Bool-cases (tag' == tag_any)) [
        | inl p ↦ any-HasType (type_at b tag' e') wb p v
        | inr p ↦
            let q : a ≡ b = ground (arith, h, p) in
            let k : some (type_at a tag e) ≡ some (type_at b tag' e') =
              sym wa.0 ∙ ap heap q ∙ wb.0 in
            let r : type_at a tag e ≡ type_at b tag' e' = cc in
            subst (λ t. HasType registry t v) r x
      ]

  -- Two types with the same plain tag have the same values.
  plain-Below :
      (a b : TypePtr)
      → IsFull registry heap a
      → IsFull registry heap b
      → tag_of a ≡ tag_of b
      → is_plain (tag_of a) ≡ true
      → Below registry heap a b
  plain-Below (type_at a tag e) (type_at b tag' e') wa wb p k v x =
      let q = plain-no_extra tag e wa.1 k in
      let q' = plain-no_extra tag' e' wb.1 (subst (λ n. is_plain n ≡ true) p k) in
      let y : HasExtra registry tag no_extra v = subst (λ z. HasExtra registry tag z v) q x in
      let z : HasExtra registry tag' no_extra v = subst (λ n. HasExtra registry n no_extra v) p y in
      subst (λ u. HasExtra registry tag' u v) (sym q') z

  pub convert_decimal-Below :
      (a b : TypePtr)
      → IsFull registry heap a
      → IsFull registry heap b
      → convert_decimal a b ≡ some true
      → Below registry heap a b
  unfolding convert_decimal is_decimal_tag
  convert_decimal-Below a b wa wb h =
      let c : (leb 37 (tag_of a) && leb (tag_of a) 39 || leb 37 (tag_of b) && leb (tag_of b) 39)
          ≡ true =
        ground (arith, h) in
      let p : tag_of a ≡ tag_of b = ground (arith, h) in
      plain-Below a b wa wb p (ground (arith, c, p))

  pub convert_bool-Below :
      (a b : TypePtr)
      → IsFull registry heap a
      → IsFull registry heap b
      → convert_bool a b ≡ some true
      → Below registry heap a b
  unfolding convert_bool
  convert_bool-Below a b wa wb h =
      let p : tag_of a ≡ tag_bool = ground (arith, h) in
      let q : tag_of b ≡ tag_bool = ground (arith, h) in
      plain-Below a b wa wb (p ∙ sym q) (ground (arith, p))

  -- Two types whose tags are plain and no `Any`, and have the same values.
  kind-Below :
      (a b : TypePtr)
      → IsFull registry heap a
      → IsFull registry heap b
      → is_plain (tag_of a) ≡ true
      → is_plain (tag_of b) ≡ true
      → (tag_of a == tag_any) ≡ false
      → plain_value (tag_of a) ≡ plain_value (tag_of b)
      → Below registry heap a b
  kind-Below (type_at a tag e) (type_at b tag' e') wa wb k k' n p v x =
      let q = plain-no_extra tag e wa.1 k in
      let q' = plain-no_extra tag' e' wb.1 k' in
      let y : HasExtra registry tag no_extra v = subst (λ z. HasExtra registry tag z v) q x in
      let z : HasExtra registry tag' no_extra v = elim y [
        | inl f ↦ absurd (ground (arith, f, n))
        | inr f ↦ inr (f ∙ p)
      ] in
      subst (λ u. HasExtra registry tag' u v) (sym q') z

  pub convert_numeric-Below :
      (a b : TypePtr)
      → IsFull registry heap a
      → IsFull registry heap b
      → convert_numeric a b ≡ some true
      → Below registry heap a b
  unfolding convert_numeric is_integer_tag is_float_tag plain_value
  convert_numeric-Below a b wa wb h =
      elim (Bool-cases (is_integer_tag (tag_of a) && is_integer_tag (tag_of b))) [
        | inl p ↦
            kind-Below a b wa wb (ground (arith, p)) (ground (arith, p)) (ground (arith, p))
              (ground (arith, p))
        | inr p ↦
            let f : (is_float_tag (tag_of a) && is_float_tag (tag_of b)) ≡ true =
              ground (arith, p, h) in
            kind-Below a b wa wb (ground (arith, f)) (ground (arith, f)) (ground (arith, f))
              (ground (arith, f))
      ]
