-- ===== src/Containers/Vector.antt =====
-- src/runtime/runtime_list.c: lists that grow by doubling. `malloc` and `realloc` are the C
-- library's, so they are parameters. A list is not null. `none` is an access outside of the block
-- (a result of `lm_list_new` that is `none` is the null pointer).
pub mod Calls
pub mod Refinement
use limitly.Prelude.{
  ℕ, ◌+◌, ◌*◌, ◌%◌, ◌^◌, Bool, Option, none, some, List, get_elem?, leb, if◌then◌else◌,
}
use limitly.Runtime.Word.{Word, val_nil}
use limitly.Containers.Block.{write}

-- `LmList`, less its header; `cells` is the block of `data`.
pub record LmList : Type 0 where
  pub cells : List Word
  pub size : ℕ
  pub capacity : ℕ

unfoldable pub lm_list_new : (ℕ → Option (List Word)) → Option LmList
lm_list_new malloc = elim (malloc (8 * 8)) [
  | none ↦ none
  | some cells ↦ some (record { cells = cells; size = 0; capacity = 8 })
]

-- `list->data[list->size++] = element`
unfoldable pub store_element : LmList → Word → Option LmList
unfolding write
store_element list element = elim (write list.cells list.size element) [
  | none ↦ none
  | some cells ↦ some (record list { cells = cells; size = (list.size + 1) % 2 ^ 64 })
]

unfoldable pub lm_list_append : (List Word → ℕ → Option (List Word)) → LmList → Word → Option LmList
unfolding store_element
lm_list_append realloc list element =
    if leb list.capacity list.size
    then (let capacity = list.capacity * 2 % 2 ^ 64 in
        elim (realloc list.cells (8 * capacity % 2 ^ 64)) [
          | none ↦ some (record list { capacity = capacity })
          | some new_data ↦
              store_element (record list { cells = new_data; capacity = capacity }) element
        ])
    else store_element list element

unfoldable pub lm_list_get : LmList → ℕ → Option Word
lm_list_get list index = if leb list.size index then some val_nil else get_elem? list.cells index

unfoldable pub lm_list_set : LmList → ℕ → Word → Option LmList
unfolding write
lm_list_set list index element =
    if leb list.size index then some list else elim (write list.cells index element) [
      | none ↦ none
      | some cells ↦ some (record list { cells = cells })
    ]

unfoldable pub lm_list_len : LmList → ℕ
lm_list_len list = list.size
