-- ===== src/Types/Conversion/Compound.antt =====
-- The conversion tests of src/backend/types.hh on refined types and collections, against what types mean.
use limitly.Prelude.{
  ℕ, Bool, true, ◌&&◌, Option, some, String, string_eq, List, ◌==◌, ◌≡◌, inl, inr, arith,
  Bool-cases,
}
use limitly.Types.Term.{
  TypePtr, type_at, Extra, list_type, dict_type, tuple_type, refined_type, TypePtrs, no_types,
  more_types, TypeTag, tag_list, tag_dict, tag_tuple,
}
use limitly.Types.Shallow.{FrameInfo}
use limitly.Types.Conversion.{
  base_from, base_to, list_converts, dict_converts, tuple_converts, convert_from_refined,
  convert_to_refined, convert_structural, convert_collection, convert_tuple, each_converts,
}
use limitly.Types.Conversion.Meaning.{
  Value, Values, a_list, a_dict, a_tuple, no_values, more_values, EachValue, IsListOf, IsDictOf,
  IsTupleOf, FirstOf, HasType, HaveTypes, IsFull, AreFull, Below, IsSound,
}
use limitly.Types.Conversion.Named.{Full, Has, IsSoundTest, structural-Full}

module _ (registry : List (String × FrameInfo)) (heap : ℕ → Option TypePtr) where
  module _ (can : TypePtr → TypePtr → Bool) (s : IsSound registry heap can) where
    from_refined-Has :
        (tag : TypeTag) (e : Extra) (b : TypePtr)
        → Full registry heap tag e
        → IsFull registry heap b
        → base_from registry can e b ≡ some true
        → (v : Value) → Has registry heap tag e v
        → HasType registry b v
    from_refined-Has tag (refined_type t) b w wb h = s t b w.1 wb (ground (arith, h))
    from_refined-Has tag e b w wb h = absurd (ground (arith, h))

    to_refined-Has :
        (a : TypePtr) (tag : TypeTag) (e : Extra)
        → IsFull registry heap a
        → Full registry heap tag e
        → base_to registry can a e ≡ some true
        → (v : Value) → HasType registry a v
        → Has registry heap tag e v
    to_refined-Has a tag (refined_type t) wa w h = s a t wa w.1 (ground (arith, h))
    to_refined-Has a tag e wa w h = absurd (ground (arith, h))

    EachValue-Below :
        (a b : TypePtr)
        → Below registry heap a b
        → (vs : Values) → EachValue (HasType registry a) vs
        → EachValue (HasType registry b) vs
    EachValue-Below a b k no_values x = tt
    EachValue-Below a b k (more_values v vs) x = (k v x.0, EachValue-Below a b k vs x.1)

    IsListOf-Below :
        (a b : TypePtr)
        → Below registry heap a b
        → (v : Value) → IsListOf (HasType registry a) v
        → IsListOf (HasType registry b) v
    IsListOf-Below a b k (a_list vs) x = EachValue-Below a b k vs x
    IsListOf-Below a b k v x = absurd x

    IsDictOf-Below :
        (a b c d : TypePtr)
        → Below registry heap a b
        → Below registry heap c d
        → (v : Value) → IsDictOf (HasType registry a) (HasType registry c) v
        → IsDictOf (HasType registry b) (HasType registry d) v
    IsDictOf-Below a b c d k l (a_dict ks vs) x =
        (EachValue-Below a b k ks x.0, EachValue-Below c d l vs x.1)
    IsDictOf-Below a b c d k l v x = absurd x

    list-Has :
        (tag tag' : TypeTag) (e e' : Extra)
        → Full registry heap tag e
        → Full registry heap tag' e'
        → tag ≡ tag_list
        → tag' ≡ tag_list
        → list_converts registry can e e' ≡ true
        → (v : Value) → Has registry heap tag e v
        → Has registry heap tag' e' v
    list-Has tag tag' (list_type t) (list_type u) w w' p p' h v x =
        IsListOf-Below t u (s t u w.1 w'.1 h) v x
    list-Has tag tag' (list_type t) e' w w' p p' h v x = absurd (grind (arith, w', p'))
    list-Has tag tag' e e' w w' p p' h v x = absurd (grind (arith, w, p))

    dict-Has :
        (tag tag' : TypeTag) (e e' : Extra)
        → Full registry heap tag e
        → Full registry heap tag' e'
        → tag ≡ tag_dict
        → tag' ≡ tag_dict
        → dict_converts registry can e e' ≡ true
        → (v : Value) → Has registry heap tag e v
        → Has registry heap tag' e' v
    dict-Has tag tag' (dict_type k t) (dict_type l u) w w' p p' h v x =
        IsDictOf-Below k l t u (s k l w.1 w'.1 (ground (arith, h)))
          (s t u w.2 w'.2 (ground (arith, h))) v x
    dict-Has tag tag' (dict_type k t) e' w w' p p' h v x = absurd (grind (arith, w', p'))
    dict-Has tag tag' e e' w w' p p' h v x = absurd (grind (arith, w, p))

    FirstOf-map :
        (P Q : Value → Type 0) (R S : Values → Type 0)
        → ((v : Value) → P v → Q v)
        → ((vs : Values) → R vs → S vs)
        → (vs : Values) → FirstOf P R vs
        → FirstOf Q S vs
    FirstOf-map P Q R S f g no_values x = absurd x
    FirstOf-map P Q R S f g (more_values v vs) x = (f v x.0, g vs x.1)

    each_converts-HaveTypes :
        (ts us : TypePtrs)
        → AreFull registry heap ts
        → AreFull registry heap us
        → each_converts registry can ts us ≡ true
        → (vs : Values) → HaveTypes registry ts vs
        → HaveTypes registry us vs
    unfolding each_converts
    each_converts-HaveTypes no_types no_types w w' h vs x = x
    each_converts-HaveTypes no_types (more_types u us) w w' h vs x = absurd (ground (arith, h))
    each_converts-HaveTypes (more_types t ts) no_types w w' h vs x = absurd (ground (arith, h))
    each_converts-HaveTypes (more_types t ts) (more_types u us) w w' h vs x =
        FirstOf-map (HasType registry t) (HasType registry u) (HaveTypes registry ts)
          (HaveTypes registry us) (s t u w.0 w'.0 (ground (arith, h)))
          (each_converts-HaveTypes ts us w.1 w'.1 (ground (arith, h))) vs x

    IsTupleOf-map :
        (P Q : Values → Type 0)
        → ((vs : Values) → P vs → Q vs)
        → (v : Value) → IsTupleOf P v
        → IsTupleOf Q v
    IsTupleOf-map P Q f (a_tuple vs) x = f vs x
    IsTupleOf-map P Q f v x = absurd x

    tuple-Has :
        (tag tag' : TypeTag) (e e' : Extra)
        → Full registry heap tag e
        → Full registry heap tag' e'
        → tag ≡ tag_tuple
        → tag' ≡ tag_tuple
        → tuple_converts registry can e e' ≡ true
        → (v : Value) → Has registry heap tag e v
        → Has registry heap tag' e' v
    tuple-Has tag tag' (tuple_type ts) (tuple_type us) w w' p p' h v x =
        IsTupleOf-map (HaveTypes registry ts) (HaveTypes registry us)
          (each_converts-HaveTypes ts us w.1 w'.1 h) v x
    tuple-Has tag tag' (tuple_type ts) e' w w' p p' h v x = absurd (grind (arith, w', p'))
    tuple-Has tag tag' e e' w w' p p' h v x = absurd (grind (arith, w, p))

    pub from_refined_sound : IsSoundTest registry heap (convert_from_refined registry can)
    unfolding convert_from_refined
    from_refined_sound (type_at a tag e) b wa wb h =
        from_refined-Has tag e b wa.1 wb (ground (arith, h))

    pub to_refined_sound : IsSoundTest registry heap (convert_to_refined registry can)
    unfolding convert_to_refined
    to_refined_sound a (type_at b tag e) wa wb h =
        to_refined-Has a tag e wa wb.1 (ground (arith, h))

    pub structural_sound : IsSoundTest registry heap (convert_structural registry can)
    unfolding convert_structural
    structural_sound a (type_at b tag e) wa wb h =
        absurd (structural-Full registry heap tag e wb.1 (ground (arith, h)))

    pub collection_sound : IsSoundTest registry heap (convert_collection registry can)
    unfolding convert_collection
    collection_sound (type_at a tag e) (type_at b tag' e') wa wb h =
        elim (Bool-cases (tag == tag_list && tag' == tag_list)) [
          | inl p ↦
              list-Has tag tag' e e' wa.1 wb.1 (ground (arith, p)) (ground (arith, p))
                (ground (arith, p, h))
          | inr p ↦
              let q : (tag == tag_dict && tag' == tag_dict) ≡ true = ground (arith, p, h) in
              dict-Has tag tag' e e' wa.1 wb.1 (ground (arith, q)) (ground (arith, q))
                (ground (arith, p, q, h))
        ]

    pub tuple_sound : IsSoundTest registry heap (convert_tuple registry can)
    unfolding convert_tuple
    tuple_sound (type_at a tag e) (type_at b tag' e') wa wb h =
        tuple-Has tag tag' e e' wa.1 wb.1 (ground (arith, h)) (ground (arith, h))
          (ground (arith, h))
