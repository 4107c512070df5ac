-- ===== src/Types/Conversion.antt =====
-- `TypeSystem::canConvert` (src/backend/types.hh), less its debug output. Each test of it is a function
-- that is `none` where the code goes on to the next one; what the recursive calls answer is a
-- parameter of the tests.
pub mod Meaning
pub mod Plain
pub mod Named
pub mod Compound
pub mod Unions
pub mod Soundness
pub mod Smaller
pub mod Step
pub mod Fuel
use limitly.Prelude.{
  ℕ, zero, suc, Bool, true, false, ◌&&◌, ◌||◌, Option, none, some, String, string_eq, List, [], ◌∷◌,
  ◌==◌, if◌then◌else◌, lookup, contains,
}
use limitly.Types.Shallow.{
  FrameInfo, convert_same, convert_decimal, convert_bool, registered_traits, frame_to_trait,
  convert_frame_to_trait, same_frame, convert_frame, same_enum, convert_enum, convert_numeric,
}
use limitly.Types.Term.{
  TypePtr, type_at, Extra, no_extra, list_type, dict_type, tuple_type, enum_type, function_type,
  union_type, error_union_type, refined_type, frame_type, trait_type, structural_type, other_extra,
  TypePtrs, no_types, more_types, Fields, no_fields, more_fields, TypeTag, address, tag_of,
  extra_of, is_integer_tag, is_float_tag, is_decimal_tag, tag_bool, tag_list, tag_dict, tag_tuple,
  tag_enum, tag_function, tag_any, tag_union, tag_error_union, tag_frame, tag_trait, tag_refined,
  tag_structural,
}

-- `std::find` for each error type of the source
unfoldable pub errors_included : List String → List String → Bool
unfolding contains
errors_included [] targets = true
errors_included (e ∷ errors) targets = contains e targets && errors_included errors targets

module _ (registry : List (String × FrameInfo)) (can : TypePtr → TypePtr → Bool) where
  abbrev pub base_from : Extra → TypePtr → Option Bool
  base_from (refined_type base) b = some (can base b)
  base_from extra b = none

  abbrev pub base_to : TypePtr → Extra → Option Bool
  base_to a (refined_type base) = some (can a base)
  base_to a extra = none

  unfoldable pub convert_from_refined : TypePtr → TypePtr → Option Bool
  convert_from_refined a b = if tag_of a == tag_refined then base_from (extra_of a) b else none

  unfoldable pub convert_to_refined : TypePtr → TypePtr → Option Bool
  convert_to_refined a b = if tag_of b == tag_refined then base_to a (extra_of b) else none

  -- The search for a field: `none` where no field has the name, else whether it converts.
  unfoldable pub field_converts : Fields → String → TypePtr → Option Bool
  field_converts no_fields name target = none
  field_converts (more_fields f t fields) name target =
      let later = field_converts fields name target in
      if string_eq.beq name f then some (can t target) else later

  unfoldable pub structural_converts : Fields → Fields → Bool
  unfolding field_converts
  structural_converts source no_fields = true
  structural_converts source (more_fields f t fields) =
      elim (field_converts source f t) [ none ↦ false | some ok ↦ ok ]
      && structural_converts source fields

  unfoldable pub frame_converts : String → Fields → Fields → Bool
  unfolding field_converts lookup
  frame_converts name source no_fields = true
  frame_converts name source (more_fields f t fields) =
      elim (field_converts source f t) [
        | some ok ↦ ok
        | none ↦ elim (lookup name registry) [
          | none ↦ false
          | some info ↦ elim (field_converts info.fields f t) [ none ↦ false | some ok ↦ ok ]
        ]
      ]
      && frame_converts name source fields

  abbrev pub struct_to_struct : Extra → Fields → Bool
  struct_to_struct (structural_type fields) targets = structural_converts fields targets
  struct_to_struct extra targets = false

  abbrev pub frame_to_struct : Extra → Fields → Bool
  frame_to_struct (frame_type name implements fs) targets = frame_converts name fs targets
  frame_to_struct extra targets = false

  abbrev pub to_struct : TypePtr → Extra → Option Bool
  to_struct a (structural_type targets) =
      if tag_of a == tag_structural
      then some (struct_to_struct (extra_of a) targets)
      else if tag_of a == tag_frame
      then some (frame_to_struct (extra_of a) targets)
      else none
  to_struct a extra = some false

  unfoldable pub convert_structural : TypePtr → TypePtr → Option Bool
  unfolding structural_converts frame_converts
  convert_structural a b = if tag_of b == tag_structural then to_struct a (extra_of b) else none

  abbrev pub list_converts : Extra → Extra → Bool
  list_converts (list_type t) (list_type t') = can t t'
  list_converts a b = true

  abbrev pub dict_converts : Extra → Extra → Bool
  dict_converts (dict_type k v) (dict_type k' v') = can k k' && can v v'
  dict_converts a b = true

  unfoldable pub convert_collection : TypePtr → TypePtr → Option Bool
  convert_collection a b =
      if tag_of a == tag_list && tag_of b == tag_list
      then some (list_converts (extra_of a) (extra_of b))
      else if tag_of a == tag_dict && tag_of b == tag_dict
      then some (dict_converts (extra_of a) (extra_of b))
      else none

  -- As many types on both sides, each of which converts.
  unfoldable pub each_converts : TypePtrs → TypePtrs → Bool
  each_converts no_types no_types = true
  each_converts no_types (more_types u us) = false
  each_converts (more_types t ts) no_types = false
  each_converts (more_types t ts) (more_types u us) = can t u && each_converts ts us

  abbrev pub tuple_converts : Extra → Extra → Bool
  tuple_converts (tuple_type ts) (tuple_type us) = each_converts ts us
  tuple_converts a b = true

  unfoldable pub convert_tuple : TypePtr → TypePtr → Option Bool
  unfolding each_converts
  convert_tuple a b =
      if tag_of a == tag_tuple && tag_of b == tag_tuple
      then some (tuple_converts (extra_of a) (extra_of b))
      else none

  unfoldable pub all_convert : TypePtrs → TypePtr → Bool
  all_convert no_types b = true
  all_convert (more_types t ts) b = can t b && all_convert ts b

  unfoldable pub any_converts : TypePtr → TypePtrs → Bool
  any_converts a no_types = false
  any_converts a (more_types t ts) = can a t || any_converts a ts

  abbrev pub members_from : Extra → TypePtr → Option Bool
  members_from (union_type ts) b = some (all_convert ts b)
  members_from extra b = none

  abbrev pub members_to : TypePtr → Extra → Option Bool
  members_to a (union_type ts) = some (any_converts a ts)
  members_to a extra = none

  unfoldable pub convert_from_union : TypePtr → TypePtr → Option Bool
  unfolding all_convert
  convert_from_union a b = if tag_of a == tag_union then members_from (extra_of a) b else none

  unfoldable pub convert_to_union : TypePtr → TypePtr → Option Bool
  unfolding any_converts
  convert_to_union a b = if tag_of b == tag_union then members_to a (extra_of b) else none

  abbrev pub error_converts : Extra → Extra → Bool
  error_converts (error_union_type t errors generic) (error_union_type t' errors' generic') =
      can t t' && (generic' || (if generic then generic' else errors_included errors errors'))
  error_converts a b = true

  abbrev pub success_to : TypePtr → Extra → Option Bool
  success_to a (error_union_type t errors generic) = some (can a t)
  success_to a extra = none

  unfoldable pub convert_error_union : TypePtr → TypePtr → Option Bool
  unfolding errors_included
  convert_error_union a b =
      if tag_of a == tag_error_union && tag_of b == tag_error_union
      then some (error_converts (extra_of a) (extra_of b))
      else if tag_of b == tag_error_union
      then success_to a (extra_of b)
      else none

  abbrev pub function_converts : Extra → Extra → Bool
  function_converts (function_type ts r) (function_type us r') = each_converts us ts && can r r'
  function_converts a b = true

  unfoldable pub convert_function : TypePtr → TypePtr → Option Bool
  unfolding each_converts
  convert_function a b =
      if tag_of a == tag_function && tag_of b == tag_function
      then some (function_converts (extra_of a) (extra_of b))
      else none

abbrev pub or_next : Option Bool → Bool → Bool
or_next none rest = rest
or_next (some answer) rest = answer

module _ (registry : List (String × FrameInfo)) where
  -- The tests in their order.
  unfoldable pub convert_step : (TypePtr → TypePtr → Bool) → TypePtr → TypePtr → Bool
  unfolding convert_same convert_decimal convert_bool convert_frame_to_trait convert_frame
      convert_enum convert_from_refined convert_to_refined convert_structural convert_numeric
      convert_collection convert_tuple convert_from_union convert_to_union convert_error_union
      convert_function
  convert_step can a b = or_next (convert_same a b) (
      or_next (convert_decimal a b) (
        or_next (convert_bool a b) (
          or_next (convert_frame_to_trait registry a b) (
            or_next (convert_frame a b) (
              or_next (convert_enum a b) (
                or_next (convert_from_refined registry can a b) (
                  or_next (convert_to_refined registry can a b) (
                    or_next (convert_structural registry can a b) (
                      or_next (convert_numeric a b) (
                        or_next (convert_collection registry can a b) (
                          or_next (convert_tuple registry can a b) (
                            or_next (convert_from_union registry can a b) (
                              or_next (convert_to_union registry can a b) (
                                or_next (convert_error_union registry can a b)
                                  (or_next (convert_function registry can a b) false)))))))))))))))

  -- The recursion is on fuel; without fuel the answer is no.
  unfoldable pub can_convert : ℕ → TypePtr → TypePtr → Bool
  unfolding convert_step
  can_convert zero a b = false
  can_convert (suc fuel) a b = convert_step (can_convert fuel) a b
