-- ===== src/Types/Conversion/Meaning.antt =====
-- What the types of src/frontend/value.hh mean: which values they have.
use limitly.Prelude.{
  ℕ, Bool, true, not, ◌&&◌, ◌||◌, Option, some, String, string_eq, List, ◌==◌, if◌then◌else◌,
  contains, ◌≡◌, ◌⊎◌,
}
use limitly.Types.Term.{
  TypePtr, type_at, Extra, no_extra, list_type, dict_type, tuple_type, enum_type, function_type,
  union_type, error_union_type, refined_type, frame_type, trait_type, structural_type, other_extra,
  TypePtrs, no_types, more_types, TypeTag, is_integer_tag, is_float_tag, tag_list, tag_dict,
  tag_tuple, tag_enum, tag_function, tag_any, tag_union, tag_error_union, tag_frame, tag_trait,
  tag_refined, tag_structural,
}
use limitly.Types.Shallow.{FrameInfo, registered_traits}

-- Values, as far as types tell them apart: integers of all widths, and floats of both, are one kind;
-- a function is any function; a plain value is of the type with its tag.
mutual
  pub data Value : Type 0 where
    an_integer : Value
    a_float : Value
    plain : TypeTag → Value
    a_function : Value
    an_enum : String → Value
    a_frame : String → Value
    an_error : String → Value
    a_list : Values → Value
    -- keys and values
    a_dict : Values → Values → Value
    a_tuple : Values → Value

  pub data Values : Type 0 where
    no_values : Values
    more_values : Value → Values → Values

-- The tags of types that have no extra information.
abbrev pub is_plain : TypeTag → Bool
is_plain tag =
    not (tag == tag_list)
    && not (tag == tag_dict)
    && not (tag == tag_tuple)
    && not (tag == tag_enum)
    && not (tag == tag_function)
    && not (tag == tag_union)
    && not (tag == tag_error_union)
    && not (tag == tag_frame)
    && not (tag == tag_trait)
    && not (tag == tag_refined)
    && not (tag == tag_structural)

-- The kind of a plain value.
unfoldable pub plain_value : TypeTag → Value
unfolding is_integer_tag is_float_tag
plain_value tag =
    if is_integer_tag tag then an_integer else if is_float_tag tag then a_float else plain tag

abbrev pub EachValue : (Value → Type 0) → Values → Type 0
EachValue P no_values = Unit
EachValue P (more_values v vs) = P v × EachValue P vs

abbrev pub IsListOf : (Value → Type 0) → Value → Type 0
IsListOf P (a_list vs) = EachValue P vs
IsListOf P v = ⊥

abbrev pub IsDictOf : (Value → Type 0) → (Value → Type 0) → Value → Type 0
IsDictOf P Q (a_dict ks vs) = EachValue P ks × EachValue Q vs
IsDictOf P Q v = ⊥

abbrev pub IsErrorOf : List String → Bool → Value → Type 0
IsErrorOf errors generic (an_error e) = (generic || contains e errors) ≡ true
IsErrorOf errors generic v = ⊥

abbrev pub IsTupleOf : (Values → Type 0) → Value → Type 0
IsTupleOf P (a_tuple vs) = P vs
IsTupleOf P v = ⊥

abbrev pub FirstOf : (Value → Type 0) → (Values → Type 0) → Values → Type 0
FirstOf P Q no_values = ⊥
FirstOf P Q (more_values v vs) = P v × Q vs

abbrev pub IsEmpty : Values → Type 0
IsEmpty no_values = Unit
IsEmpty (more_values v vs) = ⊥

module _ (registry : List (String × FrameInfo)) where
  abbrev pub HasTrait : String → Value → Type 0
  HasTrait trait (a_frame name) = contains trait (registered_traits registry name) ≡ true
  HasTrait trait v = ⊥

  abbrev mutual
    pub HasType : TypePtr → Value → Type 0
    HasType (type_at a tag extra) = HasExtra tag extra

    pub HasExtra : TypeTag → Extra → Value → Type 0
    HasExtra tag no_extra v = ((tag == tag_any) ≡ true) ⊎ (v ≡ plain_value tag)
    HasExtra tag (list_type t) v = IsListOf (HasType t) v
    HasExtra tag (dict_type k t) v = IsDictOf (HasType k) (HasType t) v
    HasExtra tag (tuple_type ts) v = IsTupleOf (HaveTypes ts) v
    HasExtra tag (enum_type name) v = v ≡ an_enum name
    HasExtra tag (function_type ts t) v = v ≡ a_function
    HasExtra tag (union_type ts) v = HasMember ts v
    HasExtra tag (error_union_type t errors generic) v = IsErrorOf errors generic v ⊎ HasType t v
    HasExtra tag (refined_type t) v = HasType t v
    HasExtra tag (frame_type name implements fs) v = v ≡ a_frame name
    HasExtra tag (trait_type name) v = HasTrait name v
    HasExtra tag (structural_type fs) v = ⊥
    HasExtra tag other_extra v = ⊥

    pub HaveTypes : TypePtrs → Values → Type 0
    HaveTypes no_types vs = IsEmpty vs
    HaveTypes (more_types t ts) vs = FirstOf (HasType t) (HaveTypes ts) vs

    pub HasMember : TypePtrs → Value → Type 0
    HasMember no_types v = ⊥
    HasMember (more_types t ts) v = HasType t v ⊎ HasMember ts v

  module _ (heap : ℕ → Option TypePtr) where
    -- Types whose tag and extra fit, which stand in the heap at their addresses, and which have no structural
    -- type in them. The traits that a frame type names are registered for the frame.
    abbrev mutual
      pub IsFull : TypePtr → Type 0
      IsFull (type_at a tag extra) = (heap a ≡ some (type_at a tag extra)) × IsFullExtra tag extra

      pub IsFullExtra : TypeTag → Extra → Type 0
      IsFullExtra tag no_extra = is_plain tag ≡ true
      IsFullExtra tag (list_type t) = (tag ≡ tag_list) × IsFull t
      IsFullExtra tag (dict_type k t) = (tag ≡ tag_dict) × IsFull k × IsFull t
      IsFullExtra tag (tuple_type ts) = (tag ≡ tag_tuple) × AreFull ts
      IsFullExtra tag (enum_type name) = tag ≡ tag_enum
      IsFullExtra tag (function_type ts t) = (tag ≡ tag_function) × AreFull ts × IsFull t
      IsFullExtra tag (union_type ts) = (tag ≡ tag_union) × AreFull ts
      IsFullExtra tag (error_union_type t errors generic) = (tag ≡ tag_error_union) × IsFull t
      IsFullExtra tag (refined_type t) = (tag ≡ tag_refined) × IsFull t
      IsFullExtra tag (frame_type name implements fs) =
          (tag ≡ tag_frame)
          × ((x : String)
              → contains x implements ≡ true
              → contains x (registered_traits registry name) ≡ true)
      IsFullExtra tag (trait_type name) = tag ≡ tag_trait
      IsFullExtra tag (structural_type fs) = ⊥
      IsFullExtra tag other_extra = ⊥

      pub AreFull : TypePtrs → Type 0
      AreFull no_types = Unit
      AreFull (more_types t ts) = IsFull t × AreFull ts

    -- The values of `a` are values of `b`.
    abbrev pub Below : TypePtr → TypePtr → Type 0
    Below a b = (v : Value) → HasType a v → HasType b v

    -- A test that answers yes only where that is so.
    abbrev pub IsSound : (TypePtr → TypePtr → Bool) → Type 0
    IsSound can = (a b : TypePtr) → IsFull a → IsFull b → can a b ≡ true → Below a b
