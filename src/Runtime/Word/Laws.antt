-- ===== src/Runtime/Word/Laws.antt =====
-- Boxing and unboxing of small integers (src/runtime/runtime_value_base.h).
use limitly.Prelude.{◌≡◌, ◌<◌, ◌+◌, ◌^◌, ◌-◌, ◌*◌, ℕ, true, arith}
use limitly.Prelude.Int.{ℤ, pos, negsuc}
use limitly.Runtime.Word.{Word, fits_smi_i64, box_int, unbox_int, is_int}

box_pos : (n : ℕ) → n < 2 ^ 60 → box_int (pos n) ≡ 8 * n + 1
unfolding box_int
box_pos n h = omega arith

box_neg : (n : ℕ) → n < 2 ^ 60 → box_int (negsuc n) ≡ 2 ^ 64 - 8 * (n + 1) + 1
unfolding box_int
box_neg n h = omega arith

unbox_pos : (v n : ℕ) → n < 2 ^ 60 → v ≡ 8 * n + 1 → unbox_int v ≡ pos n
unfolding unbox_int
unbox_pos v n h e = ground arith

unbox_neg : (v n : ℕ) → n < 2 ^ 60 → v ≡ 2 ^ 64 - 8 * (n + 1) + 1 → unbox_int v ≡ negsuc n
unfolding unbox_int
unbox_neg v n h e = ground arith

-- Unboxing gives back every integer that fits, and the boxed word has the integer tag and is below
-- 2^64.
pub unbox-box :
    (z : ℤ)
    → fits_smi_i64 z ≡ true
    → (unbox_int (box_int z) ≡ z) × (is_int (box_int z) ≡ true) × (box_int z < 2 ^ 64)
unfolding fits_smi_i64 is_int
unbox-box (pos n) h =
    let b : n < 2 ^ 60 = ground arith in
    let e = box_pos n b in (unbox_pos _ n b e, ground (arith, e), omega (arith, e))
unbox-box (negsuc n) h =
    let b : n < 2 ^ 60 = ground arith in
    let e = box_neg n b in (unbox_neg _ n b e, ground (arith, e), omega (arith, e))

-- Every word with the integer tag is the box of the integer that it unboxes to, and that integer
-- fits.
pub box-unbox :
    (v : Word)
    → v < 2 ^ 64
    → is_int v ≡ true
    → (box_int (unbox_int v) ≡ v) × (fits_smi_i64 (unbox_int v) ≡ true)
unfolding fits_smi_i64 is_int unbox_int box_int
box-unbox v h t = ground arith
