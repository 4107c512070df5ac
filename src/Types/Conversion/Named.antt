-- ===== src/Types/Conversion/Named.antt =====
-- The conversion tests of src/backend/types.hh that compare names, against what types mean.
use limitly.Prelude.{
  ℕ, Bool, true, Option, some, String, string_eq, List, ◌==◌, ◌≡◌, sym, ap, subst, ◌∙◌, arith,
}
use limitly.Types.Term.{
  TypePtr, type_at, Extra, no_extra, enum_type, frame_type, trait_type, TypeTag, tag_frame,
  tag_trait, tag_structural,
}
use limitly.Types.Shallow.{
  FrameInfo, convert_frame_to_trait, convert_frame, frame_to_trait, same_frame, same_enum,
  convert_enum,
}
use limitly.Types.Conversion.Meaning.{
  Value, an_enum, a_frame, HasTrait, HasExtra, IsFull, IsFullExtra, Below,
}

module _ (registry : List (String × FrameInfo)) (heap : ℕ → Option TypePtr) where
  abbrev pub Full : TypeTag → Extra → Type 0
  Full = IsFullExtra registry heap

  abbrev pub Has : TypeTag → Extra → Value → Type 0
  Has = HasExtra registry

  trait-Has :
      (tag tag' : TypeTag) (e e' : Extra)
      → Full tag e
      → Full tag' e'
      → tag ≡ tag_frame
      → tag' ≡ tag_trait
      → frame_to_trait registry e e' ≡ true
      → (v : Value) → Has tag e v
      → Has tag' e' v
  trait-Has tag tag' (frame_type n is fs) (trait_type t) w w' p p' h v x =
      subst (HasTrait registry t) (sym x) (ground (arith, h, w.1 t))
  trait-Has tag tag' (frame_type n is fs) e' w w' p p' h v x = absurd (grind (arith, w', p', h))
  trait-Has tag tag' e e' w w' p p' h v x = absurd (grind (arith, w, p, h))

  frame-Has :
      (tag tag' : TypeTag) (e e' : Extra) (d : Bool)
      → Full tag e
      → Full tag' e'
      → tag ≡ tag_frame
      → tag' ≡ tag_frame
      → same_frame e e' d ≡ true
      → (v : Value) → Has tag e v
      → Has tag' e' v
  frame-Has tag tag' (frame_type n is fs) (frame_type n' is' fs') d w w' p p' h v x =
      x ∙ ap a_frame ((string_eq.beq_iff n n').0 h)
  frame-Has tag tag' (frame_type n is fs) e' d w w' p p' h v x = absurd (grind (arith, w', p'))
  frame-Has tag tag' e e' d w w' p p' h v x = absurd (grind (arith, w, p))

  enum-Has :
      (tag tag' : TypeTag) (e e' : Extra)
      → same_enum e e' ≡ true
      → (v : Value) → Has tag e v
      → Has tag' e' v
  enum-Has tag tag' (enum_type n) (enum_type n') h v x =
      x ∙ ap an_enum ((string_eq.beq_iff n n').0 h)
  enum-Has tag tag' (enum_type n) e' h v x = absurd (ground (arith, h))
  enum-Has tag tag' e e' h v x = absurd (ground (arith, h))

  pub convert_frame_to_trait-Below :
      (a b : TypePtr)
      → IsFull registry heap a
      → IsFull registry heap b
      → convert_frame_to_trait registry a b ≡ some true
      → Below registry heap a b
  unfolding convert_frame_to_trait
  convert_frame_to_trait-Below (type_at a tag e) (type_at b tag' e') wa wb h =
      trait-Has tag tag' e e' wa.1 wb.1 (ground (arith, h)) (ground (arith, h)) (ground (arith, h))

  pub convert_frame-Below :
      (a b : TypePtr)
      → IsFull registry heap a
      → IsFull registry heap b
      → convert_frame a b ≡ some true
      → Below registry heap a b
  unfolding convert_frame
  convert_frame-Below (type_at a tag e) (type_at b tag' e') wa wb h =
      frame-Has tag tag' e e' (a == b) wa.1 wb.1 (ground (arith, h)) (ground (arith, h))
        (ground (arith, h))

  pub convert_enum-Below : (a b : TypePtr) → convert_enum a b ≡ some true → Below registry heap a b
  unfolding convert_enum
  convert_enum-Below (type_at a tag e) (type_at b tag' e') h =
      enum-Has tag tag' e e' (ground (arith, h))

  pub structural-Full : (tag : TypeTag) (e : Extra) → Full tag e → tag ≡ tag_structural → ⊥
  structural-Full tag no_extra w p = grind (arith, w, p)
  structural-Full tag e w p = grind (arith, w, p)

  -- Each test as a whole.
  abbrev pub IsSoundTest : (TypePtr → TypePtr → Option Bool) → Type 0
  IsSoundTest test =
      (a b : TypePtr)
      → IsFull registry heap a
      → IsFull registry heap b
      → test a b ≡ some true
      → Below registry heap a b
