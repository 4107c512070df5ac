-- ===== src/Containers/Tuple.antt =====
-- src/runtime/runtime_tuple.c: tuples, which can be set, resized and iterated over. `malloc` and
-- `realloc` are the C library's, so they are parameters. A tuple and an iterator are not null.
-- `none` is an access outside of the block (of `lm_tuple_new`: also the null pointer).
pub mod Cells
pub mod Lookups
pub mod Iteration
use limitly.Prelude.{
  ℕ, zero, suc, ◌+◌, ◌-◌, ◌*◌, ◌%◌, ◌^◌, Bool, Option, none, some, List, [], ◌∷◌, get_elem?, ltb,
  leb, ◌==◌, if◌then◌else◌,
}
use limitly.Runtime.Word.{Word, val_nil}
use limitly.Containers.Block.{write, fill_nil}

-- `LmTuple`, less its header
pub record LmTuple : Type 0 where
  pub elements : List Word
  pub size : ℕ
  pub capacity : ℕ

-- The block of `elements` with other words.
abbrev pub with_elements : LmTuple → Option (List Word) → Option LmTuple
with_elements tuple none = none
with_elements tuple (some p) = some (record tuple { elements = p })

unfoldable pub lm_tuple_new : (ℕ → Option (List Word)) → ℕ → Option LmTuple
unfolding fill_nil
lm_tuple_new malloc size = elim (malloc (8 * size % 2 ^ 64)) [
  | none ↦ none
  | some p ↦
      with_elements (record { elements = p; size = size; capacity = size }) (fill_nil p 0 size)
]

-- `for (i = 0; i < size; i++) tuple->elements[i] = values[i]`, from `i` on
unfoldable pub copy_values : List Word → ℕ → List Word → Option (List Word)
unfolding write
copy_values p i [] = some p
copy_values p i (v ∷ values) = elim (write p i v) [
  | none ↦ none
  | some p' ↦ copy_values p' (suc i) values
]

-- `values` has `size` words.
unfoldable pub lm_tuple_new_with_values : (ℕ → Option (List Word)) → ℕ → List Word → Option LmTuple
unfolding lm_tuple_new copy_values
lm_tuple_new_with_values malloc size values = elim (lm_tuple_new malloc size) [
  | none ↦ none
  | some tuple ↦ with_elements (record tuple { size = size }) (copy_values tuple.elements 0 values)
]

unfoldable pub lm_tuple_set : LmTuple → ℕ → Word → Option LmTuple
unfolding write
lm_tuple_set tuple index value =
    if leb tuple.capacity index
    then some tuple
    else with_elements
        (if leb tuple.size index then record tuple { size = (index + 1) % 2 ^ 64 } else tuple)
        (write tuple.elements index value)

unfoldable pub lm_tuple_get : LmTuple → ℕ → Option Word
lm_tuple_get tuple index =
    if leb tuple.size index then some val_nil else get_elem? tuple.elements index

unfoldable pub lm_tuple_size : LmTuple → ℕ
lm_tuple_size tuple = tuple.size

unfoldable pub lm_tuple_capacity : LmTuple → ℕ
lm_tuple_capacity tuple = tuple.capacity

-- The growth that `lm_tuple_resize` starts with.
unfoldable pub grow : (List Word → ℕ → Option (List Word)) → LmTuple → ℕ → Option LmTuple
unfolding fill_nil
grow realloc tuple new_size = elim (realloc tuple.elements (8 * new_size % 2 ^ 64)) [
  | none ↦ some tuple
  | some new_elements ↦
      with_elements (record tuple { capacity = new_size })
        (fill_nil new_elements tuple.capacity (new_size - tuple.capacity))
]

abbrev pub shrink : Option LmTuple → ℕ → Option LmTuple
shrink none new_size = none
shrink (some tuple) new_size =
    some (if ltb new_size tuple.size then record tuple { size = new_size } else tuple)

unfoldable pub lm_tuple_resize : (List Word → ℕ → Option (List Word)) → LmTuple → ℕ → Option LmTuple
unfolding grow
lm_tuple_resize realloc tuple new_size =
    shrink (if ltb tuple.capacity new_size then grow realloc tuple new_size else some tuple)
      new_size

-- `tuple->elements[tuple->size++] = value`
unfoldable pub put_last : LmTuple → Word → Option LmTuple
unfolding write
put_last tuple value =
    with_elements (record tuple { size = (tuple.size + 1) % 2 ^ 64 })
      (write tuple.elements tuple.size value)

unfoldable pub lm_tuple_append :
    (List Word → ℕ → Option (List Word)) → LmTuple → Word → Option LmTuple
unfolding put_last lm_tuple_resize
lm_tuple_append realloc tuple value =
    if leb tuple.capacity tuple.size
    then elim (lm_tuple_resize realloc tuple
        (if tuple.capacity == 0 then 8 else tuple.capacity * 2 % 2 ^ 64)) [
          | none ↦ none
          | some t ↦ put_last t value
        ]
    else put_last tuple value

unfoldable pub lm_tuple_clear : LmTuple → Option LmTuple
unfolding fill_nil
lm_tuple_clear tuple =
    with_elements (record tuple { size = 0 }) (fill_nil tuple.elements 0 tuple.size)

-- `LmTupleIterator`
pub record LmTupleIterator : Type 0 where
  pub tuple : LmTuple
  pub current_index : ℕ

unfoldable pub lm_tuple_iterator_new : LmTuple → LmTupleIterator
lm_tuple_iterator_new tuple = record { tuple = tuple; current_index = 0 }

unfoldable pub lm_tuple_iterator_next : LmTupleIterator → Option Word × LmTupleIterator
lm_tuple_iterator_next iterator =
    if leb iterator.tuple.size iterator.current_index then (some val_nil, iterator) else (
      get_elem? iterator.tuple.elements iterator.current_index,
      record iterator { current_index = (iterator.current_index + 1) % 2 ^ 64 },
    )

unfoldable pub lm_tuple_iterator_has_next : LmTupleIterator → Bool
lm_tuple_iterator_has_next iterator = ltb iterator.current_index iterator.tuple.size
