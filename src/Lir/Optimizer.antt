-- ===== src/Lir/Optimizer.antt =====
-- src/lir/optimizer.cpp: the passes of the optimizer over a function's list of instructions.
pub mod Unreachable
pub mod DeadCode
pub mod Peephole
pub mod Folding
pub mod Passes
