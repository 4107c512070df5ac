-- ===== src/Lir/Optimizer/Unreachable.antt =====
-- `Optimizer::remove_unreachable_code` (src/lir/optimizer.cpp): a traversal from instruction 0 marks
-- what control can reach; the rest is dropped and the jump targets are renumbered. The traversal has
-- one unit of fuel for each instruction.
pub mod Marks
pub mod Reach
pub mod Compact
pub mod Simulation
use limitly.Prelude.{
  ℕ, zero, suc, ◌+◌, Bool, true, false, not, ◌&&◌, ◌||◌, Option, none, some, List, [], ◌∷◌, ◌++◌,
  length, get_elem?, is_empty, ltb, if◌then◌else◌,
}
use limitly.Lir.Inst.{
  Inst, Flow, flow, flow_jump, flow_jump_if, flow_jump_if_false, flow_return, flow_next, is_jump,
}

-- `reachable[i]`
unfoldable pub is_marked : List Bool → ℕ → Bool
is_marked [] i = false
is_marked (b ∷ m) zero = b
is_marked (b ∷ m) (suc i) = is_marked m i

-- `reachable[i] = true`
unfoldable pub mark : List Bool → ℕ → List Bool
mark [] i = []
mark (b ∷ m) zero = true ∷ m
mark (b ∷ m) (suc i) = b ∷ mark m i

unfoldable pub unmarked : ℕ → List Bool
unmarked zero = []
unmarked (suc n) = false ∷ unmarked n

-- `reachable` and `worklist`
pub record Traversal : Type 0 where
  pub reachable : List Bool
  pub worklist : List ℕ

unfoldable pub push_if_valid : ℕ → ℕ → Traversal → Traversal
push_if_valid n i t =
    if ltb i n && not (is_marked t.reachable i)
    then record { reachable = mark t.reachable i; worklist = t.worklist ++ (i ∷ []) }
    else t

-- `if (i + 1 < n) push_if_valid(i + 1)`
unfoldable pub push_next : ℕ → ℕ → Traversal → Traversal
push_next n i t = if ltb (i + 1) n then push_if_valid n (i + 1) t else t

-- The switch of the traversal, at instruction `i` of `n`.
unfoldable pub push_successors : Flow → ℕ → ℕ → ℕ → Traversal → Traversal
unfolding push_next push_if_valid
push_successors flow_jump imm n i t = push_if_valid n imm t
push_successors flow_jump_if imm n i t = push_next n i (push_if_valid n imm t)
push_successors flow_jump_if_false imm n i t = push_next n i (push_if_valid n imm t)
push_successors flow_return imm n i t = t
push_successors flow_next imm n i t = push_next n i t

unfoldable pub visit : List Inst → ℕ → Traversal → Traversal
unfolding push_successors flow
visit is i t = elim (get_elem? is i) [
  | none ↦ t
  | some inst ↦ push_successors (flow inst.op) inst.imm (length is) i t
]

unfoldable pub traverse : ℕ → List Inst → Traversal → Traversal
unfolding visit
traverse zero is t = t
traverse (suc fuel) is t = elim t.worklist [
  | [] ↦ t
  | i ∷ rest ↦ traverse fuel is (visit is i (record { reachable = t.reachable; worklist = rest }))
]

unfoldable pub mark_reachable : List Inst → List Bool
unfolding traverse push_if_valid unmarked
mark_reachable is =
    let n = length is in
    (traverse n is (push_if_valid n 0 (record { reachable = unmarked n; worklist = [] }))).reachable

-- The instructions that are marked.
unfoldable pub compact : List Bool → List Inst → List Inst
compact [] is = []
compact (b ∷ m) [] = []
compact (b ∷ m) (inst ∷ is) = if b then inst ∷ compact m is else compact m is

-- The table of new indices; none stands for (size_t)-1.
unfoldable pub remap_from : ℕ → List Bool → List (Option ℕ)
remap_from next [] = []
remap_from next (true ∷ m) = some next ∷ remap_from (suc next) m
remap_from next (false ∷ m) = none ∷ remap_from next m

unfoldable pub new_target : List (Option ℕ) → ℕ → ℕ
new_target remap old = elim (get_elem? remap old) [
  | none ↦ old
  | some o ↦ elim o [ none ↦ old | some new ↦ new ]
]

unfoldable pub retarget : List (Option ℕ) → Inst → Inst
unfolding new_target flow is_jump
retarget remap inst =
    if is_jump (flow inst.op) then record inst { imm = new_target remap inst.imm } else inst

unfoldable pub retarget_all : List (Option ℕ) → List Inst → List Inst
unfolding retarget
retarget_all remap [] = []
retarget_all remap (inst ∷ is) = retarget remap inst ∷ retarget_all remap is

unfoldable pub all_marked : List Bool → Bool
all_marked [] = true
all_marked (b ∷ m) = b && all_marked m

unfoldable pub remove_unreachable_code : List Inst → Bool × List Inst
unfolding mark_reachable compact remap_from retarget_all all_marked
remove_unreachable_code is =
    let m = mark_reachable is in
    if is_empty is || all_marked m
    then (false, is)
    else (true, retarget_all (remap_from 0 m) (compact m is))
