-- ===== src/Memory/State.antt =====
-- src/frontend/memory_checker.{hh,cpp}: the state of the memory checker and its reports.
-- Errors go to the global `Debugger`; here they are appended to `reports`. A set is a list that is
-- asked for membership, and the counters (`int`) do not wrap.
use Prim.Native.String.{◌++◌ as str_append}
use text.Mathlib.Text.{◌==◌ as str_eq}
use limitly.Prelude.{
  ℕ, ◌+◌, Bool, not, ◌&&◌, String, List, [], ◌∷◌, ◌++◌, ltb, contains, string_eq, if◌then◌else◌,
}

-- The arguments of a call of `Debugger::error` at stage MEMORY.
pub record Report : Type 0 where
  pub message : String
  pub line : ℕ
  pub source : String
  pub file_path : String
  pub hint : String

pub record Checker : Type 0 where
  pub variable_regions : List (String × ℕ)
  pub moved_variables : List String
  pub initialized_variables : List String
  pub variable_generations : List (String × ℕ)
  pub current_source : String
  pub current_file_path : String
  pub reports : List Report
  pub current_region_id : ℕ
  pub current_generation : ℕ

unfoldable pub mark_variable_initialized : String → Checker → Checker
mark_variable_initialized x s = record s { initialized_variables = x ∷ s.initialized_variables }

unfoldable pub mark_variable_moved : String → Checker → Checker
mark_variable_moved x s = record s { moved_variables = x ∷ s.moved_variables }

unfoldable pub is_variable_initialized : String → Checker → Bool
is_variable_initialized x s = contains x s.initialized_variables

unfoldable pub is_variable_moved : String → Checker → Bool
is_variable_moved x s = contains x s.moved_variables

unfoldable pub enter_memory_region : Checker → Checker
enter_memory_region s = record s {
  current_region_id = s.current_region_id + 1;
  current_generation = s.current_generation + 1;
}

unfoldable pub exit_memory_region : Checker → Checker
exit_memory_region s = record s { current_generation = s.current_generation + 1 }

-- The hint that `add_memory_error` chooses by the type of the error.
pub memory_hint : String → String
memory_hint t =
    if str_eq t "Use-after-move"
    then "Memory Model: Linear types can only be used once. After a move, the original variable becomes invalid. Type Checking: Use references (&var) for borrowing instead of moving, or clone the value if copying is needed."
    else if str_eq t "Use-after-free"
    then "Memory Model: Accessing freed memory is undefined behavior. Type Checking: Linear types and region-based allocation prevent use-after-free at compile-time."
    else if str_eq t "Use-before-init"
    then "Memory Model: Variables must be initialized before use. Type Checking: The compiler tracks initialization state to prevent undefined behavior."
    else if str_eq t "Double move"
    then "Memory Model: Linear types have single ownership - they can only be moved once. Type Checking: The compiler tracks ownership to prevent double moves."
    else if str_eq t "Memory leak"
    then "Memory Model: All allocated memory must be freed before going out of scope. Type Checking: Use linear types with automatic cleanup or explicit drop operations."
    else "Memory Model: Use linear types and region-based allocation for memory safety. Type Checking: Compile-time analysis prevents memory safety violations."

-- `Debugger::error` with the source where a line and a source are known.
unfoldable pub debugger_error : String → ℕ → String → Checker → Checker
debugger_error message line hint s =
    let located = ltb 0 line && not (str_eq s.current_source "") in
    record s {
      reports =
          s.reports
          ++ (record {
            message = message;
            line = line;
            source = if located then s.current_source else "";
            file_path = if located then s.current_file_path else "";
            hint = hint;
          }
              ∷ []);
    }

unfoldable pub add_error : String → ℕ → Checker → Checker
unfolding debugger_error
add_error message line s = debugger_error message line "" s

unfoldable pub add_memory_error : String → String → ℕ → Checker → Checker
unfolding debugger_error
add_memory_error error_type description line s =
    debugger_error (str_append error_type (str_append ": " description)) line
      (memory_hint error_type) s

abbrev pub variable_message : String → String → String
variable_message x rest = str_append "Variable '" (str_append x rest)

unfoldable pub use_after_move : String → ℕ → Checker → Checker
use_after_move x line s =
    add_memory_error "Use-after-move" (variable_message x "' used after being moved") line s

unfoldable pub use_before_init : String → ℕ → Checker → Checker
use_before_init x line s =
    add_memory_error "Use-before-init" (variable_message x "' used before initialization") line s
