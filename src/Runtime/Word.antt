-- ===== src/Runtime/Word.antt =====
-- src/runtime/runtime_value_base.h: a value is a 64-bit word with a tag in its three low bits.
pub mod Laws
use limitly.Prelude.{
  ℕ, ◌+◌, ◌-◌, ◌*◌, ◌/◌, ◌%◌, ◌^◌, Bool, not, ◌&&◌, ◌||◌, ◌==◌, ltb, leb, if◌then◌else◌,
}
use limitly.Prelude.Int.{ℤ, pos, negsuc, sub_ℕ, leb_ℤ}

-- `LmValue`
abbrev pub Word : Type 0
Word = ℕ

abbrev pub val_nil : Word
val_nil = 2

abbrev pub val_false : Word
val_false = 10

abbrev pub val_true : Word
val_true = 18

abbrev pub max_smi : ℤ
max_smi = pos (2 ^ 60 - 1)

abbrev pub min_smi : ℤ
min_smi = negsuc (2 ^ 60 - 1)

unfoldable pub fits_smi_i64 : ℤ → Bool
fits_smi_i64 v = leb_ℤ min_smi v && leb_ℤ v max_smi

-- `((LmValue)(i) << 3) | TAG_INT`; the shift leaves the low bits 0.
unfoldable pub box_int : ℤ → Word
box_int (pos n) = 8 * n % 2 ^ 64 + 1
box_int (negsuc n) = (2 ^ 64 - 8 * (n + 1) % 2 ^ 64) % 2 ^ 64 + 1

-- `(int64_t)(v) >> 3`, an arithmetic shift.
unfoldable pub unbox_int : Word → ℤ
unbox_int v = if ltb v (2 ^ 63) then pos (v / 8) else sub_ℕ (v / 8) (2 ^ 61)

unfoldable pub is_int : Word → Bool
is_int v = v % 8 == 1

unfoldable pub is_ptr : Word → Bool
is_ptr v = v % 8 == 0 && not (v == 0)

unfoldable pub is_nil : Word → Bool
is_nil v = v == val_nil

unfoldable pub is_bool : Word → Bool
is_bool v = v == val_false || v == val_true

unfoldable pub unbox_bool : Word → Bool
unbox_bool v = v == val_true
