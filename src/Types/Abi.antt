-- ===== src/Types/Abi.antt =====
-- src/lir/lir_types.cpp: the type of the register code for a type of the language. A null pointer is
-- `none`. The numbers of the tags are those of `TypeTag` in src/frontend/value.hh.
use limitly.Prelude.{Option, none, some, String, List, [], ◌∷◌, contains, nat_eq, if◌then◌else◌}
use limitly.Lir.Inst.{AbiType}
use limitly.Types.Term.{TypePtr, TypeTag, tag_of}

unfoldable pub type_to_string : AbiType → String
type_to_string AbiType.i32 = "i32"
type_to_string AbiType.i64 = "i64"
type_to_string AbiType.f64 = "f64"
type_to_string AbiType.bool = "bool"
type_to_string AbiType.ptr = "ptr"
type_to_string AbiType.void = "void"

-- Int8, Int16, Int32, UInt8, UInt16, UInt32
abbrev pub narrow_integers : List TypeTag
narrow_integers = 3 ∷ (4 ∷ (5 ∷ (9 ∷ (10 ∷ (11 ∷ [])))))

-- Int64, Int128, UInt64, UInt128, Decimal2, Decimal4, Decimal6, Int, UInt
abbrev pub wide_integers : List TypeTag
wide_integers = 6 ∷ (7 ∷ (12 ∷ (13 ∷ (37 ∷ (38 ∷ (39 ∷ (2 ∷ (8 ∷ []))))))))

-- Float32, Float64
abbrev pub floats : List TypeTag
floats = 14 ∷ (15 ∷ [])

-- String, List, Dict, Tuple, Function, Closure, Frame
abbrev pub references : List TypeTag
references = 16 ∷ (17 ∷ (18 ∷ (19 ∷ (21 ∷ (22 ∷ (32 ∷ []))))))

-- Union, Sum, Enum, Module, Any, Range, Channel, UserDefined, ErrorUnion
abbrev pub boxed : List TypeTag
boxed = 25 ∷ (24 ∷ (20 ∷ (31 ∷ (23 ∷ (27 ∷ (29 ∷ (28 ∷ (26 ∷ []))))))))

-- The switch on the tag.
unfoldable pub abi_of_tag : TypeTag → AbiType
unfolding contains
abi_of_tag tag =
    if contains tag narrow_integers
    then AbiType.i32
    else if contains tag wide_integers
    then AbiType.i64
    else if contains tag floats
    then AbiType.f64
    else if contains tag (1 ∷ [])
    then AbiType.bool
    else if contains tag references
    then AbiType.ptr
    else if contains tag boxed
    then AbiType.ptr
    else AbiType.void

unfoldable pub language_type_to_abi_type : Option TypePtr → AbiType
unfolding abi_of_tag
language_type_to_abi_type none = AbiType.void
language_type_to_abi_type (some t) = abi_of_tag (tag_of t)
