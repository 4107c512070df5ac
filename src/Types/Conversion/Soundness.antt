-- ===== src/Types/Conversion/Soundness.antt =====
-- `canConvert` (src/backend/types.hh) is sound: a type converts only to types that have all its values.
use limitly.Prelude.{
  ℕ, zero, suc, Bool, true, false, Option, none, some, String, List, ◌≡◌, refl, arith,
}
use limitly.Types.Term.{TypePtr}
use limitly.Types.Shallow.{
  FrameInfo, convert_same, convert_decimal, convert_bool, convert_frame_to_trait, convert_frame,
  convert_enum, convert_numeric,
}
use limitly.Types.Conversion.{
  convert_from_refined, convert_to_refined, convert_structural, convert_collection, convert_tuple,
  convert_from_union, convert_to_union, convert_error_union, convert_function, or_next,
  convert_step, can_convert,
}
use limitly.Types.Conversion.Meaning.{IsFull, Below, IsSound}
use limitly.Types.Conversion.Plain.{
  convert_same-Below, convert_decimal-Below, convert_bool-Below, convert_numeric-Below,
}
use limitly.Types.Conversion.Named.{
  convert_frame_to_trait-Below, convert_frame-Below, convert_enum-Below,
}
use limitly.Types.Conversion.Compound.{
  from_refined_sound, to_refined_sound, structural_sound, collection_sound, tuple_sound,
}
use limitly.Types.Conversion.Unions.{
  from_union_sound, to_union_sound, error_union_sound, function_sound,
}

-- A test that is tried before others.
or_next-cases :
    {A : Type 0} (o : Option Bool) (rest : Bool)
    → (o ≡ some true → A)
    → (rest ≡ true → A)
    → or_next o rest ≡ true
    → A
or_next-cases none rest f g h = g h
or_next-cases (some true) rest f g h = f refl
or_next-cases (some false) rest f g h = absurd (ground (arith, h))

module _ (registry : List (String × FrameInfo)) (heap : ℕ → Option TypePtr) where
  convert_step-IsSound :
      (can : TypePtr → TypePtr → Bool)
      → IsSound registry heap can
      → IsSound registry heap (convert_step registry can)
  unfolding convert_step
  convert_step-IsSound can s a b wa wb =
      or_next-cases (convert_same a b) _ (convert_same-Below registry heap a b wa wb) (
        or_next-cases (convert_decimal a b) _ (convert_decimal-Below registry heap a b wa wb) (
          or_next-cases (convert_bool a b) _ (convert_bool-Below registry heap a b wa wb) (
            or_next-cases (convert_frame_to_trait registry a b) _
              (convert_frame_to_trait-Below registry heap a b wa wb)
              (or_next-cases (convert_frame a b) _ (convert_frame-Below registry heap a b wa wb) (
                or_next-cases (convert_enum a b) _ (convert_enum-Below registry heap a b) (
                  or_next-cases (convert_from_refined registry can a b) _
                    (from_refined_sound registry heap can s a b wa wb)
                    (or_next-cases (convert_to_refined registry can a b) _
                      (to_refined_sound registry heap can s a b wa wb)
                      (or_next-cases (convert_structural registry can a b) _
                        (structural_sound registry heap can s a b wa wb)
                        (or_next-cases (convert_numeric a b) _
                          (convert_numeric-Below registry heap a b wa wb)
                          (or_next-cases (convert_collection registry can a b) _
                            (collection_sound registry heap can s a b wa wb)
                            (or_next-cases (convert_tuple registry can a b) _
                              (tuple_sound registry heap can s a b wa wb)
                              (or_next-cases (convert_from_union registry can a b) _
                                (from_union_sound registry heap can s a b wa wb)
                                (or_next-cases (convert_to_union registry can a b) _
                                  (to_union_sound registry heap can s a b wa wb)
                                  (or_next-cases (convert_error_union registry can a b) _
                                    (error_union_sound registry heap can s a b wa wb)
                                    (or_next-cases (convert_function registry can a b) _
                                      (function_sound registry heap can s a b wa wb)
                                      (λ h. absurd (ground (arith, h))))))))))))))))))

  -- A type that converts to another has no value that the other has not, where both are complete and have
  -- no structural type in them, floats and integers of all widths count as one kind each, and
  -- conditions of refined types and signatures of functions do not count.
  pub can_convert-IsSound :
      (fuel : ℕ) (a b : TypePtr)
      → IsFull registry heap a
      → IsFull registry heap b
      → can_convert registry fuel a b ≡ true
      → Below registry heap a b
  unfolding can_convert
  can_convert-IsSound zero a b wa wb h = absurd (ground (arith, h))
  can_convert-IsSound (suc fuel) a b wa wb h =
      convert_step-IsSound (can_convert registry fuel) (can_convert-IsSound fuel) a b wa wb h
