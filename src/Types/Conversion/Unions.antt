-- ===== src/Types/Conversion/Unions.antt =====
-- The conversion tests of src/backend/types.hh on unions, errors and functions, against what types mean.
use limitly.Prelude.{
  ℕ, Bool, true, ◌&&◌, ◌||◌, Option, some, String, string_eq, List, [], ◌∷◌, ◌==◌, if◌then◌else◌,
  contains, ◌≡◌, subst, inl, inr, arith, Bool-cases,
}
use limitly.Types.Term.{
  TypePtr, type_at, Extra, function_type, union_type, error_union_type, TypePtrs, no_types,
  more_types, TypeTag, tag_function, tag_error_union,
}
use limitly.Types.Shallow.{FrameInfo}
use limitly.Types.Conversion.{
  members_from, members_to, error_converts, success_to, convert_from_union, convert_to_union,
  convert_error_union, convert_function, all_convert, any_converts, errors_included,
}
use limitly.Types.Conversion.Meaning.{
  Value, an_error, IsErrorOf, HasType, HasMember, IsFull, AreFull, IsSound,
}
use limitly.Types.Conversion.Named.{Full, Has, IsSoundTest}

module _ (registry : List (String × FrameInfo)) (heap : ℕ → Option TypePtr) where
  module _ (can : TypePtr → TypePtr → Bool) (s : IsSound registry heap can) where
    all_convert-HasMember :
        (ts : TypePtrs) (b : TypePtr)
        → AreFull registry heap ts
        → IsFull registry heap b
        → all_convert registry can ts b ≡ true
        → (v : Value) → HasMember registry ts v
        → HasType registry b v
    unfolding all_convert
    all_convert-HasMember no_types b w wb h v x = absurd x
    all_convert-HasMember (more_types t ts) b w wb h v (inl x) =
        s t b w.0 wb (ground (arith, h)) v x
    all_convert-HasMember (more_types t ts) b w wb h v (inr x) =
        all_convert-HasMember ts b w.1 wb (ground (arith, h)) v x

    any_converts-HasMember :
        (a : TypePtr) (ts : TypePtrs)
        → IsFull registry heap a
        → AreFull registry heap ts
        → any_converts registry can a ts ≡ true
        → (v : Value) → HasType registry a v
        → HasMember registry ts v
    unfolding any_converts
    any_converts-HasMember a no_types wa w h v x = absurd (ground (arith, h))
    any_converts-HasMember a (more_types t ts) wa w h v x = elim (Bool-cases (can a t)) [
      | inl p ↦ inl (s a t wa w.0 p v x)
      | inr p ↦ inr (any_converts-HasMember a ts wa w.1 (ground (arith, h, p)) v x)
    ]

    from_union-Has :
        (tag : TypeTag) (e : Extra) (b : TypePtr)
        → Full registry heap tag e
        → IsFull registry heap b
        → members_from registry can e b ≡ some true
        → (v : Value) → Has registry heap tag e v
        → HasType registry b v
    from_union-Has tag (union_type ts) b w wb h =
        all_convert-HasMember ts b w.1 wb (ground (arith, h))
    from_union-Has tag e b w wb h = absurd (ground (arith, h))

    to_union-Has :
        (a : TypePtr) (tag : TypeTag) (e : Extra)
        → IsFull registry heap a
        → Full registry heap tag e
        → members_to registry can a e ≡ some true
        → (v : Value) → HasType registry a v
        → Has registry heap tag e v
    to_union-Has a tag (union_type ts) wa w h =
        any_converts-HasMember a ts wa w.1 (ground (arith, h))
    to_union-Has a tag e wa w h = absurd (ground (arith, h))

    errors_included-contains :
        (errors targets : List String) (e : String)
        → errors_included errors targets ≡ true
        → contains e errors ≡ true
        → contains e targets ≡ true
    unfolding errors_included contains
    errors_included-contains [] targets e h c = absurd (ground (arith, c))
    errors_included-contains (f ∷ errors) targets e h c = elim (Bool-cases (string_eq.beq f e)) [
      | inr p ↦ errors_included-contains errors targets e (ground (arith, h)) (ground (arith, p, c))
      | inl p ↦
          subst (λ x. contains x targets ≡ true) ((string_eq.beq_iff f e).0 p) (ground (arith, h))
    ]

    IsErrorOf-Below :
        (errors errors' : List String) (g g' : Bool)
        → (g' || (if g then g' else errors_included errors errors')) ≡ true
        → (v : Value) → IsErrorOf errors g v
        → IsErrorOf errors' g' v
    IsErrorOf-Below errors errors' g g' h (an_error e) x =
        ground (arith, h, x, errors_included-contains errors errors' e)
    IsErrorOf-Below errors errors' g g' h v x = absurd x

    error-Has :
        (tag tag' : TypeTag) (e e' : Extra)
        → Full registry heap tag e
        → Full registry heap tag' e'
        → tag ≡ tag_error_union
        → tag' ≡ tag_error_union
        → error_converts registry can e e' ≡ true
        → (v : Value) → Has registry heap tag e v
        → Has registry heap tag' e' v
    error-Has tag tag' (error_union_type t r g) (error_union_type u r' g') w w' p p' h v (inl x) =
        inl (IsErrorOf-Below r r' g g' (ground (arith, h)) v x)
    error-Has tag tag' (error_union_type t r g) (error_union_type u r' g') w w' p p' h v (inr x) =
        inr (s t u w.1 w'.1 (ground (arith, h)) v x)
    error-Has tag tag' (error_union_type t r g) e' w w' p p' h v x = absurd (grind (arith, w', p'))
    error-Has tag tag' e e' w w' p p' h v x = absurd (grind (arith, w, p))

    success-Has :
        (a : TypePtr) (tag : TypeTag) (e : Extra)
        → IsFull registry heap a
        → Full registry heap tag e
        → success_to registry can a e ≡ some true
        → (v : Value) → HasType registry a v
        → Has registry heap tag e v
    success-Has a tag (error_union_type t r g) wa w h v x =
        inr (s a t wa w.1 (ground (arith, h)) v x)
    success-Has a tag e wa w h v x = absurd (ground (arith, h))

    function-Has :
        (tag tag' : TypeTag) (e e' : Extra)
        → Full registry heap tag e
        → Full registry heap tag' e'
        → tag ≡ tag_function
        → tag' ≡ tag_function
        → (v : Value) → Has registry heap tag e v
        → Has registry heap tag' e' v
    function-Has tag tag' (function_type ts t) (function_type us u) w w' p p' v x = x
    function-Has tag tag' (function_type ts t) e' w w' p p' v x = absurd (grind (arith, w', p'))
    function-Has tag tag' e e' w w' p p' v x = absurd (grind (arith, w, p))

    pub from_union_sound : IsSoundTest registry heap (convert_from_union registry can)
    unfolding convert_from_union
    from_union_sound (type_at a tag e) b wa wb h =
        from_union-Has tag e b wa.1 wb (ground (arith, h))

    pub to_union_sound : IsSoundTest registry heap (convert_to_union registry can)
    unfolding convert_to_union
    to_union_sound a (type_at b tag e) wa wb h = to_union-Has a tag e wa wb.1 (ground (arith, h))

    pub error_union_sound : IsSoundTest registry heap (convert_error_union registry can)
    unfolding convert_error_union
    error_union_sound (type_at a tag e) (type_at b tag' e') wa wb h =
        elim (Bool-cases (tag == tag_error_union && tag' == tag_error_union)) [
          | inl p ↦
              error-Has tag tag' e e' wa.1 wb.1 (ground (arith, p)) (ground (arith, p))
                (ground (arith, p, h))
          | inr p ↦ success-Has (type_at a tag e) tag' e' wa wb.1 (ground (arith, p, h))
        ]

    pub function_sound : IsSoundTest registry heap (convert_function registry can)
    unfolding convert_function
    function_sound (type_at a tag e) (type_at b tag' e') wa wb h =
        function-Has tag tag' e e' wa.1 wb.1 (ground (arith, h)) (ground (arith, h))
