-- ===== src/Types/Term.antt =====
-- The types of src/frontend/value.hh that src/backend/types.hh converts. A `TypePtr` is not null, and
-- is the object it points to, with the address that pointers are compared by. A `TypeTag` is its number.
use limitly.Prelude.{ℕ, Bool, String, List, leb, ◌&&◌, ◌||◌, ◌==◌}

abbrev pub TypeTag : Type 0
TypeTag = ℕ

abbrev pub tag_bool : TypeTag
tag_bool = 1

abbrev pub tag_int : TypeTag
tag_int = 2

abbrev pub tag_int8 : TypeTag
tag_int8 = 3

abbrev pub tag_uint128 : TypeTag
tag_uint128 = 13

abbrev pub tag_float32 : TypeTag
tag_float32 = 14

abbrev pub tag_float64 : TypeTag
tag_float64 = 15

abbrev pub tag_list : TypeTag
tag_list = 17

abbrev pub tag_dict : TypeTag
tag_dict = 18

abbrev pub tag_tuple : TypeTag
tag_tuple = 19

abbrev pub tag_enum : TypeTag
tag_enum = 20

abbrev pub tag_function : TypeTag
tag_function = 21

abbrev pub tag_any : TypeTag
tag_any = 23

abbrev pub tag_union : TypeTag
tag_union = 25

abbrev pub tag_error_union : TypeTag
tag_error_union = 26

abbrev pub tag_frame : TypeTag
tag_frame = 32

abbrev pub tag_trait : TypeTag
tag_trait = 33

abbrev pub tag_refined : TypeTag
tag_refined = 35

abbrev pub tag_structural : TypeTag
tag_structural = 36

abbrev pub tag_decimal2 : TypeTag
tag_decimal2 = 37

abbrev pub tag_decimal6 : TypeTag
tag_decimal6 = 39

-- `Type`: address, tag and extra; and `Type::extra`, the parts that conversion looks at.
mutual
  pub data TypePtr : Type 0 where
    type_at : ℕ → TypeTag → Extra → TypePtr

  pub data Extra : Type 0 where
    no_extra : Extra
    list_type : TypePtr → Extra
    -- key and value
    dict_type : TypePtr → TypePtr → Extra
    tuple_type : TypePtrs → Extra
    enum_type : String → Extra
    -- parameters and result
    function_type : TypePtrs → TypePtr → Extra
    union_type : TypePtrs → Extra
    -- success type, error types, and whether any error may occur
    error_union_type : TypePtr → List String → Bool → Extra
    refined_type : TypePtr → Extra
    -- name, traits, fields
    frame_type : String → List String → Fields → Extra
    trait_type : String → Extra
    structural_type : Fields → Extra
    other_extra : Extra

  pub data TypePtrs : Type 0 where
    no_types : TypePtrs
    more_types : TypePtr → TypePtrs → TypePtrs

  pub data Fields : Type 0 where
    no_fields : Fields
    more_fields : String → TypePtr → Fields → Fields

abbrev pub address : TypePtr → ℕ
address (type_at a tag extra) = a

abbrev pub tag_of : TypePtr → TypeTag
tag_of (type_at a tag extra) = tag

abbrev pub extra_of : TypePtr → Extra
extra_of (type_at a tag extra) = extra

-- `isIntegerType`, `isFloatType`, `isDecimalType`
unfoldable pub is_integer_tag : TypeTag → Bool
is_integer_tag tag = leb tag_int tag && leb tag tag_uint128

unfoldable pub is_float_tag : TypeTag → Bool
is_float_tag tag = tag == tag_float32 || tag == tag_float64

unfoldable pub is_decimal_tag : TypeTag → Bool
is_decimal_tag tag = leb tag_decimal2 tag && leb tag tag_decimal6
