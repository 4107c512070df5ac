-- ===== src/Types/Conversion/Step.antt =====
-- A step of `canConvert` (src/backend/types.hh) asks about smaller types only.
use limitly.Prelude.{
  ℕ, suc, ◌+◌, ◌<◌, Bool, ◌&&◌, Option, none, some, String, List, ◌≡◌, refl, ap, ◌==◌, arith,
  if◌then◌else◌, Bool-cases, inl, inr,
}
use limitly.Types.Term.{
  TypePtr, type_at, tag_tuple, tag_function, tag_union, tag_refined, tag_structural,
}
use limitly.Types.Shallow.{FrameInfo}
use limitly.Types.Conversion.{
  convert_from_refined, convert_to_refined, convert_structural, convert_collection, convert_tuple,
  convert_from_union, convert_to_union, convert_error_union, convert_function, convert_step,
}
use limitly.Types.Conversion.Named.{structural-Full}
use limitly.Types.Conversion.Meaning.{IsFull}
use limitly.Types.Conversion.Smaller.{
  size_of, Agree, list_converts-Agree, dict_converts-Agree, base_from-Agree, base_to-Agree,
  tuple_converts-Agree, members_from-Agree, members_to-Agree, error_converts-Agree,
  success_to-Agree, function_converts-Agree,
}

module _ (registry : List (String × FrameInfo)) (heap : ℕ → Option TypePtr) where
  module _ (f g : TypePtr → TypePtr → Bool) (n : ℕ) (k : Agree registry heap f g n) where
    convert_structural-Agree :
        (a b : TypePtr)
        → IsFull registry heap b
        → convert_structural registry f a b ≡ convert_structural registry g a b
    unfolding convert_structural
    convert_structural-Agree a (type_at b tag e) wb = elim (Bool-cases (tag == tag_structural)) [
      | inr p ↦ rw p refl
      | inl p ↦ absurd (structural-Full registry heap tag e wb.1 (ground (arith, p)))
    ]

    convert_collection-Agree :
        (a b : TypePtr)
        → IsFull registry heap a
        → IsFull registry heap b
        → size_of a + size_of b < suc (suc n)
        → convert_collection registry f a b ≡ convert_collection registry g a b
    unfolding convert_collection
    convert_collection-Agree (type_at a tag e) (type_at b tag' e') wa wb l =
        rw
          (
            list_converts-Agree registry heap f g n k tag tag' e e' wa.1 wb.1 (omega (arith, l)),
            dict_converts-Agree registry heap f g n k tag tag' e e' wa.1 wb.1 (omega (arith, l)),
          )
          refl

    convert_tests-Agree :
        (a b : TypePtr)
        → IsFull registry heap a
        → IsFull registry heap b
        → size_of a + size_of b < suc n
        → (convert_from_refined registry f a b ≡ convert_from_refined registry g a b)
          × (convert_to_refined registry f a b ≡ convert_to_refined registry g a b)
          × (convert_tuple registry f a b ≡ convert_tuple registry g a b)
          × (convert_from_union registry f a b ≡ convert_from_union registry g a b)
          × (convert_to_union registry f a b ≡ convert_to_union registry g a b)
          × (convert_error_union registry f a b ≡ convert_error_union registry g a b)
          × (convert_function registry f a b ≡ convert_function registry g a b)
    unfolding convert_from_refined convert_to_refined convert_tuple convert_from_union
        convert_to_union convert_error_union convert_function
    convert_tests-Agree (type_at a tag e) (type_at b tag' e') wa wb l =
        let ta = type_at a tag e in
        let tb = type_at b tag' e' in
        (
          ap (λ o. if tag == tag_refined then o else none)
              (base_from-Agree registry heap f g n k tag e tb wa.1 wb (omega (arith, l))),
          ap (λ o. if tag' == tag_refined then o else none)
              (base_to-Agree registry heap f g n k ta tag' e' wa wb.1 (omega (arith, l))),
          ap (λ c. if tag == tag_tuple && tag' == tag_tuple then some c else none)
              (tuple_converts-Agree registry heap f g n k tag tag' e e' wa.1 wb.1
                (omega (arith, l))),
          ap (λ o. if tag == tag_union then o else none)
              (members_from-Agree registry heap f g n k tag e tb wa.1 wb (omega (arith, l))),
          ap (λ o. if tag' == tag_union then o else none)
              (members_to-Agree registry heap f g n k ta tag' e' wa wb.1 (omega (arith, l))),
          rw
              (
                error_converts-Agree registry heap f g n k tag tag' e e' wa.1 wb.1
                    (omega (arith, l)),
                success_to-Agree registry heap f g n k ta tag' e' wa wb.1 (omega (arith, l)),
              )
              refl,
          ap (λ c. if tag == tag_function && tag' == tag_function then some c else none)
              (function_converts-Agree registry heap f g n k tag tag' e e' wa.1 wb.1
                (omega (arith, l))),
        )

    pub convert_step-Agree :
        (a b : TypePtr)
        → IsFull registry heap a
        → IsFull registry heap b
        → size_of a + size_of b < suc n
        → convert_step registry f a b ≡ convert_step registry g a b
    unfolding convert_step
    convert_step-Agree a b wa wb l =
        let t = convert_tests-Agree a b wa wb l in
        rw
          (
            convert_structural-Agree a b wb,
            convert_collection-Agree a b wa wb (omega (arith, l)),
            t.0,
            t.1,
            t.2,
            t.3,
            t.4,
            t.5,
            t.6,
          )
          refl
