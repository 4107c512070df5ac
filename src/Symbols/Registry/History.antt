-- ===== src/Symbols/Registry/History.antt =====
-- The registry of src/lir/function_registry.cpp against the history of the calls made on it.
use limitly.Prelude.{
  true, false, Option, none, some, String, string_eq, List, [], ◌∷◌, ◌≡◌, refl, if◌then◌else◌,
  lookup, lookup-insert, contains, arith,
}
use limitly.Symbols.Registry.{
  FunctionRegistry, register_function, get_function, has_function, get_function_names, clear,
}

module _ (F : Type 0) where
  -- The calls that change the registry; a null function is `none`.
  pub data Call : Type 0 where
    register_call : String → Option F → Call
    clear_call : Call

  -- A call that throws leaves the registry as it was.
  unfoldable pub perform : Call → FunctionRegistry F → FunctionRegistry F
  unfolding register_function clear
  perform (register_call x f) r = elim (register_function x f r) [ none ↦ r | some s ↦ s ]
  perform clear_call r = clear r

  -- The latest call comes first.
  unfoldable pub perform_all : List Call → FunctionRegistry F
  unfolding perform
  perform_all [] = []
  perform_all (c ∷ cs) = perform c (perform_all cs)

  -- The function that was last registered under a name since the registry was last cleared.
  unfoldable pub last_registered : String → List Call → Option F
  last_registered x [] = none
  last_registered x (register_call y none ∷ cs) = last_registered x cs
  last_registered x (register_call y (some f) ∷ cs) =
      if string_eq.beq y x then some f else last_registered x cs
  last_registered x (clear_call ∷ cs) = none

contains-names :
    (F : Type 0) (x : String) (r : FunctionRegistry F)
    → contains x (get_function_names r) ≡ has_function x r
unfolding get_function_names has_function contains lookup
contains-names F x [] = refl
contains-names F x (p ∷ r) = ground (arith, contains-names F x r)

get_function-last :
    (F : Type 0) (x : String) (cs : List (Call F))
    → get_function x (perform_all F cs) ≡ last_registered F x cs
unfolding get_function perform_all last_registered perform register_function clear lookup
get_function-last F x [] = refl
get_function-last F x (register_call y none ∷ cs) = get_function-last F x cs
get_function-last F x (register_call y (some f) ∷ cs) =
    ground (arith, lookup-insert y x f (perform_all F cs), get_function-last F x cs)
get_function-last F x (clear_call ∷ cs) = refl

-- After any calls, a name gives the function that was last registered under it since the last clear,
-- and it is listed and reported as present exactly when it gives one.
pub perform_all-last_registered :
    (F : Type 0) (x : String) (cs : List (Call F))
    → (let r = perform_all F cs in
        (get_function x r ≡ last_registered F x cs)
        × (has_function x r ≡ elim (last_registered F x cs) [ none ↦ false | some _ ↦ true ])
        × (contains x (get_function_names r) ≡ has_function x r))
perform_all-last_registered F x cs =
    let g = get_function-last F x cs in
    (
      g,
      (unfold has_function get_function in ground (arith, g)),
      contains-names F x (perform_all F cs),
    )
