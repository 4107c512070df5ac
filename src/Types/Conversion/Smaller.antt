-- ===== src/Types/Conversion/Smaller.antt =====
-- The size of types, and that the tests of `canConvert` (src/backend/types.hh) ask about smaller parts only.
use limitly.Prelude.{ℕ, ◌+◌, ◌<◌, Bool, Option, some, String, List, ◌≡◌, refl, ap, arith}
use limitly.Types.Term.{
  TypePtr, type_at, Extra, no_extra, list_type, dict_type, tuple_type, enum_type, function_type,
  union_type, error_union_type, refined_type, frame_type, trait_type, structural_type, other_extra,
  TypePtrs, no_types, more_types, TypeTag,
}
use limitly.Types.Shallow.{FrameInfo}
use limitly.Types.Conversion.{
  base_from, base_to, list_converts, dict_converts, tuple_converts, members_from, members_to,
  error_converts, success_to, function_converts, each_converts, all_convert, any_converts,
}
use limitly.Types.Conversion.Meaning.{IsFull, IsFullExtra, AreFull}

-- The nodes of a type.
abbrev mutual
  pub size_of : TypePtr → ℕ
  size_of (type_at a tag e) = 1 + size_extra e

  pub size_extra : Extra → ℕ
  size_extra no_extra = 0
  size_extra (list_type t) = size_of t
  size_extra (dict_type k t) = size_of k + size_of t
  size_extra (tuple_type ts) = size_types ts
  size_extra (enum_type n) = 0
  size_extra (function_type ts t) = size_types ts + size_of t
  size_extra (union_type ts) = size_types ts
  size_extra (error_union_type t r g) = size_of t
  size_extra (refined_type t) = size_of t
  size_extra (frame_type n is fs) = 0
  size_extra (trait_type n) = 0
  size_extra (structural_type fs) = 0
  size_extra other_extra = 0

  pub size_types : TypePtrs → ℕ
  size_types no_types = 0
  size_types (more_types t ts) = size_of t + size_types ts

module _ (registry : List (String × FrameInfo)) (heap : ℕ → Option TypePtr) where
  abbrev pub Full : TypeTag → Extra → Type 0
  Full = IsFullExtra registry heap

  -- Two answers to the recursive calls about fewer than `n` nodes.
  abbrev pub Agree : (TypePtr → TypePtr → Bool) → (TypePtr → TypePtr → Bool) → ℕ → Type 0
  Agree f g n =
      (a b : TypePtr)
      → IsFull registry heap a
      → IsFull registry heap b
      → size_of a + size_of b < n
      → f a b ≡ g a b

  module _ (f g : TypePtr → TypePtr → Bool) (n : ℕ) (k : Agree f g n) where
    pub base_from-Agree :
        (tag : TypeTag) (e : Extra) (b : TypePtr)
        → Full tag e
        → IsFull registry heap b
        → size_extra e + size_of b < n
        → base_from registry f e b ≡ base_from registry g e b
    base_from-Agree tag (refined_type t) b w wb l = ap some (k t b w.1 wb l)
    base_from-Agree tag e b w wb l = refl

    pub base_to-Agree :
        (a : TypePtr) (tag : TypeTag) (e : Extra)
        → IsFull registry heap a
        → Full tag e
        → size_of a + size_extra e < n
        → base_to registry f a e ≡ base_to registry g a e
    base_to-Agree a tag (refined_type t) wa w l = ap some (k a t wa w.1 l)
    base_to-Agree a tag e wa w l = refl

    pub list_converts-Agree :
        (tag tag' : TypeTag) (e e' : Extra)
        → Full tag e
        → Full tag' e'
        → size_extra e + size_extra e' < n
        → list_converts registry f e e' ≡ list_converts registry g e e'
    list_converts-Agree tag tag' (list_type t) (list_type u) w w' l = k t u w.1 w'.1 l
    list_converts-Agree tag tag' (list_type t) e' w w' l = refl
    list_converts-Agree tag tag' e e' w w' l = refl

    pub dict_converts-Agree :
        (tag tag' : TypeTag) (e e' : Extra)
        → Full tag e
        → Full tag' e'
        → size_extra e + size_extra e' < n
        → dict_converts registry f e e' ≡ dict_converts registry g e e'
    dict_converts-Agree tag tag' (dict_type c t) (dict_type d u) w w' l =
        rw (k c d w.1 w'.1 (omega (arith, l)), k t u w.2 w'.2 (omega (arith, l))) refl
    dict_converts-Agree tag tag' (dict_type c t) e' w w' l = refl
    dict_converts-Agree tag tag' e e' w w' l = refl

    each_converts-Agree :
        (ts us : TypePtrs)
        → AreFull registry heap ts
        → AreFull registry heap us
        → size_types ts + size_types us < n
        → each_converts registry f ts us ≡ each_converts registry g ts us
    unfolding each_converts
    each_converts-Agree no_types no_types w w' l = refl
    each_converts-Agree no_types (more_types u us) w w' l = refl
    each_converts-Agree (more_types t ts) no_types w w' l = refl
    each_converts-Agree (more_types t ts) (more_types u us) w w' l =
        let ih = each_converts-Agree ts us w.1 w'.1 (omega (arith, l)) in
        rw (each_converts, k t u w.0 w'.0 (omega (arith, l)), ih) refl

    pub tuple_converts-Agree :
        (tag tag' : TypeTag) (e e' : Extra)
        → Full tag e
        → Full tag' e'
        → size_extra e + size_extra e' < n
        → tuple_converts registry f e e' ≡ tuple_converts registry g e e'
    tuple_converts-Agree tag tag' (tuple_type ts) (tuple_type us) w w' l =
        each_converts-Agree ts us w.1 w'.1 l
    tuple_converts-Agree tag tag' (tuple_type ts) e' w w' l = refl
    tuple_converts-Agree tag tag' e e' w w' l = refl

    all_convert-Agree :
        (ts : TypePtrs) (b : TypePtr)
        → AreFull registry heap ts
        → IsFull registry heap b
        → size_types ts + size_of b < n
        → all_convert registry f ts b ≡ all_convert registry g ts b
    unfolding all_convert
    all_convert-Agree no_types b w wb l = refl
    all_convert-Agree (more_types t ts) b w wb l =
        let ih = all_convert-Agree ts b w.1 wb (omega (arith, l)) in
        rw (all_convert, k t b w.0 wb (omega (arith, l)), ih) refl

    any_converts-Agree :
        (a : TypePtr) (ts : TypePtrs)
        → IsFull registry heap a
        → AreFull registry heap ts
        → size_of a + size_types ts < n
        → any_converts registry f a ts ≡ any_converts registry g a ts
    unfolding any_converts
    any_converts-Agree a no_types wa w l = refl
    any_converts-Agree a (more_types t ts) wa w l =
        let ih = any_converts-Agree a ts wa w.1 (omega (arith, l)) in
        rw (any_converts, k a t wa w.0 (omega (arith, l)), ih) refl

    pub members_from-Agree :
        (tag : TypeTag) (e : Extra) (b : TypePtr)
        → Full tag e
        → IsFull registry heap b
        → size_extra e + size_of b < n
        → members_from registry f e b ≡ members_from registry g e b
    members_from-Agree tag (union_type ts) b w wb l = ap some (all_convert-Agree ts b w.1 wb l)
    members_from-Agree tag e b w wb l = refl

    pub members_to-Agree :
        (a : TypePtr) (tag : TypeTag) (e : Extra)
        → IsFull registry heap a
        → Full tag e
        → size_of a + size_extra e < n
        → members_to registry f a e ≡ members_to registry g a e
    members_to-Agree a tag (union_type ts) wa w l = ap some (any_converts-Agree a ts wa w.1 l)
    members_to-Agree a tag e wa w l = refl

    pub error_converts-Agree :
        (tag tag' : TypeTag) (e e' : Extra)
        → Full tag e
        → Full tag' e'
        → size_extra e + size_extra e' < n
        → error_converts registry f e e' ≡ error_converts registry g e e'
    error_converts-Agree tag tag' (error_union_type t r c) (error_union_type u r' c') w w' l =
        rw (k t u w.1 w'.1 l) refl
    error_converts-Agree tag tag' (error_union_type t r c) e' w w' l = refl
    error_converts-Agree tag tag' e e' w w' l = refl

    pub success_to-Agree :
        (a : TypePtr) (tag : TypeTag) (e : Extra)
        → IsFull registry heap a
        → Full tag e
        → size_of a + size_extra e < n
        → success_to registry f a e ≡ success_to registry g a e
    success_to-Agree a tag (error_union_type t r c) wa w l = ap some (k a t wa w.1 l)
    success_to-Agree a tag e wa w l = refl

    pub function_converts-Agree :
        (tag tag' : TypeTag) (e e' : Extra)
        → Full tag e
        → Full tag' e'
        → size_extra e + size_extra e' < n
        → function_converts registry f e e' ≡ function_converts registry g e e'
    function_converts-Agree tag tag' (function_type ts t) (function_type us u) w w' l =
        rw
          (each_converts-Agree us ts w'.1 w.1 (omega (arith, l)), k t u w.2 w'.2 (omega (arith, l)))
          refl
    function_converts-Agree tag tag' (function_type ts t) e' w w' l = refl
    function_converts-Agree tag tag' e e' w w' l = refl
