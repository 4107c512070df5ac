-- ===== src/Types/Shallow.antt =====
-- The tests of `TypeSystem::canConvert` (src/backend/types.hh) that do not look into the parts of types.
-- A test is `none` where the code goes on to the next one.
use limitly.Prelude.{
  Bool, true, false, ◌&&◌, ◌||◌, Option, none, some, String, string_eq, List, [], ◌==◌,
  if◌then◌else◌, lookup, contains,
}
use limitly.Types.Term.{
  TypePtr, Extra, enum_type, frame_type, trait_type, Fields, address, tag_of, extra_of,
  is_integer_tag, is_float_tag, is_decimal_tag, tag_bool, tag_enum, tag_any, tag_frame, tag_trait,
}

-- The parts of `FrameInfo` that conversion reads.
pub record FrameInfo : Type 0 where
  pub fields : Fields
  pub implements : List String

-- `from == to || to->tag == TypeTag::Any`
unfoldable pub convert_same : TypePtr → TypePtr → Option Bool
convert_same a b = if address a == address b || tag_of b == tag_any then some true else none

unfoldable pub convert_decimal : TypePtr → TypePtr → Option Bool
unfolding is_decimal_tag
convert_decimal a b =
    if is_decimal_tag (tag_of a) || is_decimal_tag (tag_of b)
    then some (tag_of a == tag_of b)
    else none

unfoldable pub convert_bool : TypePtr → TypePtr → Option Bool
convert_bool a b = if tag_of a == tag_bool && tag_of b == tag_bool then some true else none

-- The names of the traits of a frame in `frameRegistry`.
unfoldable pub registered_traits : List (String × FrameInfo) → String → List String
unfolding lookup
registered_traits registry name = elim (lookup name registry) [
  | none ↦ []
  | some info ↦ info.implements
]

abbrev pub frame_to_trait : List (String × FrameInfo) → Extra → Extra → Bool
frame_to_trait registry (frame_type name implements fs) (trait_type trait) =
    contains trait implements || contains trait (registered_traits registry name)
frame_to_trait registry a b = false

unfoldable pub convert_frame_to_trait : List (String × FrameInfo) → TypePtr → TypePtr → Option Bool
unfolding registered_traits contains
convert_frame_to_trait registry a b =
    if tag_of a == tag_frame && tag_of b == tag_trait
    then (if frame_to_trait registry (extra_of a) (extra_of b) then some true else none)
    else none

abbrev pub same_frame : Extra → Extra → Bool → Bool
same_frame (frame_type name implements fs) (frame_type name' implements' fs') d =
    string_eq.beq name name'
same_frame a b d = d

unfoldable pub convert_frame : TypePtr → TypePtr → Option Bool
convert_frame a b =
    if tag_of a == tag_frame && tag_of b == tag_frame
    then some (same_frame (extra_of a) (extra_of b) (address a == address b))
    else none

abbrev pub same_enum : Extra → Extra → Bool
same_enum (enum_type name) (enum_type name') = string_eq.beq name name'
same_enum a b = false

unfoldable pub convert_enum : TypePtr → TypePtr → Option Bool
convert_enum a b =
    if tag_of a == tag_enum && tag_of b == tag_enum
    then some (same_enum (extra_of a) (extra_of b))
    else none

unfoldable pub convert_numeric : TypePtr → TypePtr → Option Bool
unfolding is_integer_tag is_float_tag
convert_numeric a b =
    if is_integer_tag (tag_of a) && is_integer_tag (tag_of b)
    then some true
    else if is_float_tag (tag_of a) && is_float_tag (tag_of b)
    then some true
    else none
