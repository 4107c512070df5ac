-- ===== src/Runtime/Arithmetic.antt =====
-- src/runtime/runtime_value.c: numbers as words and heap objects, their arithmetic and comparison.
-- The heap is the list of its objects: the k-th stands at address 8 * (k + 1), and a pointer that
-- holds none reads as `other_object`. Doubles are bit patterns; the machine's arithmetic on them is
-- the record `FloatOps`.
pub mod Integers
use limitly.Prelude.{
  String, ℕ, ◌+◌, ◌-◌, ◌*◌, ◌/◌, ◌%◌, ◌^◌, Bool, true, false, not, ◌&&◌, ◌||◌, Option, none, some,
  List, [], ◌∷◌, ◌++◌, length, get_elem?, ◌==◌, ltb, leb, if◌then◌else◌,
}
use limitly.Prelude.Int.{
  ℤ, pos, negsuc, ◌+ℤ◌, ◌-ℤ◌, ◌*ℤ◌, quot, sub_ℕ, leb_ℤ, ltb_ℤ, pos_part, neg_part,
}
use limitly.Runtime.Word.{Word, val_nil, fits_smi_i64, box_int, unbox_int, is_int, is_ptr}

pub data Object : Type 0 where
  -- TYPE_I64, TYPE_U64, TYPE_I128, TYPE_U128 and TYPE_FLOAT
  obj_i64 : ℤ → Object
  obj_u64 : ℕ → Object
  obj_i128 : ℤ → Object
  obj_u128 : ℕ → Object
  obj_float : ℕ → Object
  -- TYPE_BOX of type LM_BOX_INT, LM_BOX_FLOAT
  lm_box_int : ℤ → Object
  lm_box_float : ℕ → Object
  -- LM_BOX_STRING, with its text
  lm_box_string : String → Object
  other_object : Object

abbrev pub Heap : Type 0
Heap = List Object

pub record FloatOps : Type 0 where
  pub add : ℕ → ℕ → ℕ
  pub sub : ℕ → ℕ → ℕ
  pub mul : ℕ → ℕ → ℕ
  pub div : ℕ → ℕ → ℕ
  pub lt : ℕ → ℕ → Bool
  pub eq : ℕ → ℕ → Bool
  pub of_i64 : ℤ → ℕ
  pub to_int : ℕ → ℤ

unfoldable pub alloc : Object → Heap → Word × Heap
alloc o h = (8 * (length h + 1), h ++ (o ∷ []))

unfoldable pub object_at : Heap → Word → Object
object_at h v = elim (get_elem? h (v / 8 - 1)) [ none ↦ other_object | some o ↦ o ]

-- The residue of an integer modulo 2^w, as a conversion to an unsigned type takes it.
unfoldable pub wrap_unsigned : ℕ → ℤ → ℕ
wrap_unsigned w (pos n) = n % 2 ^ w
wrap_unsigned w (negsuc n) = 2 ^ w - 1 - n % 2 ^ w

-- The conversion to a signed type of w + 1 bits.
unfoldable pub wrap_signed : ℕ → ℤ → ℤ
unfolding wrap_unsigned
wrap_signed w z =
    let m = wrap_unsigned (w + 1) z in if ltb m (2 ^ w) then pos m else sub_ℕ m (2 ^ (w + 1))

unfoldable pub in_i64 : ℤ → Bool
in_i64 z = leb_ℤ (negsuc (2 ^ 63 - 1)) z && leb_ℤ z (pos (2 ^ 63 - 1))

unfoldable pub in_i128 : ℤ → Bool
in_i128 z = leb_ℤ (negsuc (2 ^ 127 - 1)) z && leb_ℤ z (pos (2 ^ 127 - 1))

unfoldable pub make_i64 : ℤ → Heap → Word × Heap
make_i64 v h = if fits_smi_i64 v then (box_int v, h) else alloc (obj_i64 v) h

unfoldable pub make_i128 : ℤ → Heap → Word × Heap
make_i128 v h =
    if fits_smi_i64 v
    then (box_int v, h)
    else if in_i64 v
    then alloc (obj_i64 v) h
    else alloc (obj_i128 v) h

unfoldable pub make_float : ℕ → Heap → Word × Heap
make_float d h = alloc (obj_float d) h

unfoldable pub object_is_integer : Object → Bool
object_is_integer (obj_i64 _) = true
object_is_integer (obj_u64 _) = true
object_is_integer (obj_i128 _) = true
object_is_integer (obj_u128 _) = true
object_is_integer (lm_box_int _) = true
object_is_integer _ = false

unfoldable pub object_is_float : Object → Bool
object_is_float (obj_float _) = true
object_is_float (lm_box_float _) = true
object_is_float _ = false

unfoldable pub is_integer : Heap → Word → Bool
unfolding object_is_integer
is_integer h v = if is_int v then true else is_ptr v && object_is_integer (object_at h v)

unfoldable pub is_float : Heap → Word → Bool
unfolding object_is_float
is_float h v = is_ptr v && object_is_float (object_at h v)

unfoldable pub is_numeric : Heap → Word → Bool
is_numeric h v = is_integer h v || is_float h v

abbrev pub is_zero : ℤ → Bool
is_zero z = leb_ℤ z (pos 0) && leb_ℤ (pos 0) z

module _ (f : FloatOps) where
  unfoldable pub object_as_i64 : Object → ℤ
  object_as_i64 (obj_i64 z) = z
  object_as_i64 (obj_u64 n) = wrap_signed 63 (pos n)
  object_as_i64 (obj_i128 z) = wrap_signed 63 z
  object_as_i64 (obj_u128 n) = wrap_signed 63 (pos n)
  object_as_i64 (lm_box_int z) = z
  object_as_i64 (lm_box_float d) = f.to_int d
  object_as_i64 _ = pos 0

  unfoldable pub as_i64 : Heap → Word → ℤ
  as_i64 h v =
      if is_int v then unbox_int v else if is_ptr v then object_as_i64 (object_at h v) else pos 0

  unfoldable pub object_as_i128 : Object → ℤ
  object_as_i128 (obj_i64 z) = z
  object_as_i128 (obj_u64 n) = pos n
  object_as_i128 (obj_i128 z) = z
  object_as_i128 (obj_u128 n) = wrap_signed 127 (pos n)
  object_as_i128 (lm_box_int z) = z
  object_as_i128 (lm_box_float d) = f.to_int d
  object_as_i128 _ = pos 0

  unfoldable pub as_i128 : Heap → Word → ℤ
  as_i128 h v =
      if is_int v then unbox_int v else if is_ptr v then object_as_i128 (object_at h v) else pos 0

  unfoldable pub object_as_float : Heap → Word → Object → ℕ
  object_as_float h v (obj_float d) = d
  object_as_float h v (lm_box_float d) = d
  object_as_float h v (lm_box_int z) = f.of_i64 z
  object_as_float h v _ = if is_integer h v then f.of_i64 (as_i64 h v) else f.of_i64 (pos 0)

  unfoldable pub as_float : Heap → Word → ℕ
  as_float h v =
      if is_ptr v
      then object_as_float h v (object_at h v)
      else if is_integer h v
      then f.of_i64 (as_i64 h v)
      else f.of_i64 (pos 0)

  -- The branch of an operation on numbers that are not both integers.
  unfoldable pub float_arith : (ℕ → ℕ → ℕ) → Word → Word → Heap → Word × Heap
  float_arith op a b h =
      if is_numeric h a && is_numeric h b
      then make_float (op (as_float h a) (as_float h b)) h
      else (val_nil, h)

  -- `__builtin_add_overflow` and its kin: nil where the result is no `__int128`.
  unfoldable pub int_arith : (ℤ → ℤ → ℤ) → Word → Word → Heap → Word × Heap
  int_arith op a b h =
      let r = op (as_i128 h a) (as_i128 h b) in if in_i128 r then make_i128 r h else (val_nil, h)

  unfoldable pub lm_add : Word → Word → Heap → Word × Heap
  lm_add a b h =
      if is_integer h a && is_integer h b then int_arith ◌+ℤ◌ a b h else float_arith f.add a b h

  unfoldable pub lm_sub : Word → Word → Heap → Word × Heap
  lm_sub a b h =
      if is_integer h a && is_integer h b then int_arith ◌-ℤ◌ a b h else float_arith f.sub a b h

  unfoldable pub lm_mul : Word → Word → Heap → Word × Heap
  lm_mul a b h =
      if is_integer h a && is_integer h b then int_arith ◌*ℤ◌ a b h else float_arith f.mul a b h

  unfoldable pub lm_div : Word → Word → Heap → Word × Heap
  lm_div a b h =
      if is_integer h a && is_integer h b
      then if is_zero (as_i128 h b)
        then (val_nil, h)
        else make_i128 (quot (as_i128 h a) (as_i128 h b)) h
      else if is_numeric h a && is_numeric h b
      then if f.eq (as_float h b) (f.of_i64 (pos 0))
        then (val_nil, h)
        else make_float (f.div (as_float h a) (as_float h b)) h
      else (val_nil, h)

  unfoldable pub numeric_compare : Heap → Word → Word → ℤ
  numeric_compare h a b =
      if a == b
      then pos 0
      else if is_numeric h a && is_numeric h b
      then if is_float h a || is_float h b
        then if f.lt (as_float h a) (as_float h b)
          then negsuc 0
          else if f.lt (as_float h b) (as_float h a)
          then pos 1
          else pos 0
        else if ltb_ℤ (as_i128 h a) (as_i128 h b)
        then negsuc 0
        else if ltb_ℤ (as_i128 h b) (as_i128 h a)
        then pos 1
        else pos 0
      else if ltb a b
      then negsuc 0
      else pos 1
