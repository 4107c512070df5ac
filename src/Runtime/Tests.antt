-- ===== src/Runtime/Tests.antt =====
-- The runtime's words and numbers (src/runtime) at concrete values.
use limitly.Prelude.{◌+◌, ◌-◌, ◌*◌, ◌/◌, ◌^◌, ◌<◌, ◌≡◌, ◌≢◌, refl, ◌⊎◌, true, [], ◌∷◌, ltb, ◌==◌}
use limitly.Prelude.Int.{pos, negsuc, pos_part, ◌+ℤ◌, ◌-ℤ◌, ◌*ℤ◌, quot}
use limitly.Runtime.Word.{fits_smi_i64, box_int, unbox_int, is_int, is_ptr, val_nil}
use limitly.Runtime.Word.Laws.{unbox-box}
use limitly.Runtime.Arithmetic.{
  obj_i64, Heap, FloatOps, in_i128, in_i64, is_integer, object_is_integer, as_i128, object_as_i128,
  lm_add, lm_sub, lm_mul, lm_div, object_at, int_arith, make_i128, alloc,
}
use limitly.Runtime.Arithmetic.Integers.{IsExactOr, Denotes, int_ops-IsExactOr, lm_div_lem}

abbrev bits : FloatOps
bits = record {
  add = λ a b. a + b;
  sub = λ a b. a - b;
  mul = λ a b. a * b;
  div = λ a b. a / b;
  lt = ltb;
  eq = λ a b. a == b;
  of_i64 = pos_part;
  to_int = pos;
}

abbrev big_heap : Heap
big_heap = obj_i64 (pos (2 ^ 62)) ∷ []

-- 2^62 from the heap plus the small integer -3 is 2^62 - 3, on the heap.
sum_run :
    (lm_add bits 8 (box_int (negsuc 2)) big_heap)
    ≡ (16, obj_i64 (pos (2 ^ 62)) ∷ obj_i64 (pos (2 ^ 62 - 3)) ∷ [])
unfolding lm_add is_integer object_is_integer object_at is_int is_ptr int_arith as_i128
    object_as_i128 in_i128 in_i64 make_i128 fits_smi_i64 box_int unbox_int alloc ◌+ℤ◌
sum_run = refl

unbox-box_example :
    (unbox_int (box_int (negsuc 41)) ≡ negsuc 41)
    × (is_int (box_int (negsuc 41)) ≡ true)
    × (box_int (negsuc 41) < 2 ^ 64)
unfolding fits_smi_i64
unbox-box_example = unbox-box (negsuc 41) refl

int_ops-IsExactOr_example :
    IsExactOr bits
      (as_i128 bits big_heap 8 +ℤ as_i128 bits big_heap 57)
      big_heap
      (lm_add bits 8 57 big_heap)
    × IsExactOr bits
        (as_i128 bits big_heap 8 -ℤ as_i128 bits big_heap 57)
        big_heap
        (lm_sub bits 8 57 big_heap)
    × IsExactOr bits
        (as_i128 bits big_heap 8 *ℤ as_i128 bits big_heap 57)
        big_heap
        (lm_mul bits 8 57 big_heap)
unfolding is_integer object_is_integer object_at is_int is_ptr
int_ops-IsExactOr_example = int_ops-IsExactOr bits 8 57 big_heap refl refl

lm_div_lem_example :
    ((as_i128 bits big_heap 57 ≡ pos 0) × (lm_div bits 8 57 big_heap ≡ (val_nil, big_heap)))
    ⊎ ((as_i128 bits big_heap 57 ≢ pos 0)
        × Denotes bits
            (quot (as_i128 bits big_heap 8) (as_i128 bits big_heap 57))
            (lm_div bits 8 57 big_heap))
unfolding is_integer object_is_integer object_at is_int is_ptr as_i128 object_as_i128 unbox_int
    in_i128 quot
lm_div_lem_example = lm_div_lem bits 8 57 big_heap refl refl refl
