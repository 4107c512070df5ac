-- ===== src/Types/Conversion/Fuel.antt =====
-- The recursion of `canConvert` (src/backend/types.hh) ends on types without structural types.
use limitly.Prelude.{ℕ, zero, suc, ◌+◌, ◌<◌, Option, String, List, ◌≡◌, ap, ◌∙◌, arith}
use limitly.Types.Term.{TypePtr}
use limitly.Types.Shallow.{FrameInfo}
use limitly.Types.Conversion.{can_convert}
use limitly.Types.Conversion.Meaning.{IsFull}
use limitly.Types.Conversion.Smaller.{size_of}
use limitly.Types.Conversion.Step.{convert_step-Agree}

module _ (registry : List (String × FrameInfo)) (heap : ℕ → Option TypePtr) where
  -- On complete types without structural types, the recursion has ended with as much fuel as the two
  -- types have nodes, and one more: further fuel does not change the answer.
  pub can_convert-fuel :
      (fuel more : ℕ) (a b : TypePtr)
      → IsFull registry heap a
      → IsFull registry heap b
      → size_of a + size_of b < fuel
      → can_convert registry (fuel + more) a b ≡ can_convert registry fuel a b
  unfolding can_convert
  can_convert-fuel zero more a b wa wb l = absurd (omega (arith, l))
  can_convert-fuel (suc fuel) more a b wa wb l =
      let e : suc fuel + more ≡ suc (fuel + more) = omega arith in
      ap (λ k. can_convert registry k a b) e
      ∙ convert_step-Agree registry heap (can_convert registry (fuel + more))
          (can_convert registry fuel) fuel (λ c d wc wd m. can_convert-fuel fuel more c d wc wd m) a
          b wa wb l
