-- ===== src/Environment/Tests.antt =====
-- An assignment through the parents of an environment.
use limitly.Prelude.{ℕ, none, some, List, [], ◌∷◌}
use limitly.Environment.{Environment, environment_new, define, get, assign}
use limitly.Environment.Assign.{Assigned, assign-Assigned}

-- An environment with `x`, and one that it encloses.
abbrev two_scopes : List (Environment ℕ)
two_scopes = define (environment_new none) "x" 1 ∷ (environment_new (some 0) ∷ [])

assign-Assigned_example :
    Assigned "x" 7 two_scopes
      (assign 3 two_scopes "x" 7 1)
      (get 3 two_scopes "x" 1)
      (λ t. get 3 t "x" 1)
assign-Assigned_example = assign-Assigned "x" 7 3 two_scopes 1
