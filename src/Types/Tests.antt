-- ===== src/Types/Tests.antt =====
-- Conversions of small types.
use limitly.Prelude.{ℕ, ◌+◌, true, Option, none, some, [], ◌≡◌, refl, arith, ◌==◌, if◌then◌else◌}
use limitly.Types.Term.{
  TypePtr, type_at, no_extra, list_type, union_type, more_types, no_types, tag_int, tag_int8,
  tag_list, tag_union, tag_bool,
}
use limitly.Types.Shallow.{
  convert_same, convert_decimal, convert_bool, convert_frame_to_trait, convert_frame, convert_enum,
  convert_numeric,
}
use limitly.Types.Conversion.{
  can_convert, convert_step, convert_from_refined, convert_to_refined, convert_structural,
  convert_collection, convert_tuple, convert_from_union, convert_to_union, convert_error_union,
  convert_function, all_convert, any_converts,
}
use limitly.Types.Conversion.Meaning.{IsFull, Below}
use limitly.Types.Conversion.Soundness.{can_convert-IsSound}
use limitly.Types.Conversion.Fuel.{can_convert-fuel}

abbrev int8 : TypePtr
int8 = type_at 1 tag_int8 no_extra

abbrev int : TypePtr
int = type_at 2 tag_int no_extra

abbrev bool : TypePtr
bool = type_at 3 tag_bool no_extra

abbrev int_or_bool : TypePtr
int_or_bool = type_at 4 tag_union (union_type (more_types int (more_types bool no_types)))

abbrev int8_list : TypePtr
int8_list = type_at 5 tag_list (list_type int8)

abbrev int_or_bool_list : TypePtr
int_or_bool_list = type_at 6 tag_list (list_type int_or_bool)

abbrev test_heap : ℕ → Option TypePtr
test_heap n =
    if n == 1
    then some int8
    else if n == 2
    then some int
    else if n == 3
    then some bool
    else if n == 4
    then some int_or_bool
    else if n == 5
    then some int8_list
    else if n == 6
    then some int_or_bool_list
    else none

int8_list-IsFull : IsFull [] test_heap int8_list
int8_list-IsFull = (refl, (refl, (refl, refl)))

int_or_bool_list-IsFull : IsFull [] test_heap int_or_bool_list
int_or_bool_list-IsFull = (refl, (refl, (refl, (refl, ((refl, refl), ((refl, refl), tt))))))

-- A list of small integers is a list of integers or Booleans.
lists_convert : can_convert [] 9 int8_list int_or_bool_list ≡ true
unfolding can_convert convert_step convert_same convert_decimal convert_bool convert_frame_to_trait
    convert_frame convert_enum convert_numeric convert_from_refined convert_to_refined
    convert_structural convert_collection convert_tuple convert_from_union convert_to_union
    convert_error_union convert_function all_convert any_converts
lists_convert = refl

can_convert-IsSound_example : Below [] test_heap int8_list int_or_bool_list
can_convert-IsSound_example =
    can_convert-IsSound [] test_heap 9 int8_list int_or_bool_list int8_list-IsFull
      int_or_bool_list-IsFull lists_convert

can_convert-fuel_example :
    can_convert [] (9 + 4) int8_list int_or_bool_list ≡ can_convert [] 9 int8_list int_or_bool_list
can_convert-fuel_example =
    can_convert-fuel [] test_heap 9 4 int8_list int_or_bool_list int8_list-IsFull
      int_or_bool_list-IsFull (omega arith)
