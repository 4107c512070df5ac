-- ===== src/Containers/Dict/IntKeys.antt =====
-- The hash and the comparison of integer keys (`lm_hash_int` and `lm_cmp_int` of
-- src/runtime/runtime_dict.c): what a table with them takes for the same key.
use limitly.Prelude.{ℕ, ◌*◌, ◌%◌, ◌^◌, Bool, ◌&&◌, ◌≡◌, if◌then◌else◌, arith}
use limitly.Prelude.Int.{ℤ, pos, negsuc, leb_ℤ, ltb_ℤ}
use limitly.Runtime.Word.{Word}
use limitly.Runtime.Arithmetic.{Heap, FloatOps, wrap_unsigned, as_i64, as_i128, is_zero}
use limitly.Containers.Dict.Laws.{IsKeyEquality}

module _ (f : FloatOps) (h : Heap) where
  -- `(uint64_t)(k * 2654435761ULL)`
  unfoldable pub lm_hash_int : Word → ℕ
  lm_hash_int key = wrap_unsigned 64 (as_i64 f h key) * 2654435761 % 2 ^ 64

  -- `(i1 > i2) - (i1 < i2)`
  unfoldable pub lm_cmp_int : Word → Word → ℤ
  lm_cmp_int k1 k2 =
      let i1 = as_i128 f h k1 in
      let i2 = as_i128 f h k2 in
      if ltb_ℤ i2 i1 then pos 1 else if ltb_ℤ i1 i2 then negsuc 0 else pos 0

  -- `cmp_fn(…) == 0`
  abbrev pub cmp_int_eq : Word → Word → Bool
  cmp_int_eq k1 k2 = is_zero (lm_cmp_int k1 k2)

  cmp_int-zero :
      (j k : Word)
      → cmp_int_eq j k
        ≡ (leb_ℤ (as_i128 f h j) (as_i128 f h k) && leb_ℤ (as_i128 f h k) (as_i128 f h j))
  unfolding lm_cmp_int
  cmp_int-zero j k = ground arith

  -- Whatever the heap holds, it is an equivalence.
  pub int_keys-IsKeyEquality : IsKeyEquality lm_hash_int cmp_int_eq
  int_keys-IsKeyEquality = record {
    refl_eq = λ k. ground (arith, cmp_int-zero k k);
    sym_eq = λ j k. ground (arith, cmp_int-zero j k, cmp_int-zero k j);
    trans_eq =
        λ i j k x y. ground (arith, x, y, cmp_int-zero i j, cmp_int-zero j k, cmp_int-zero i k);
  }
