-- ===== src/Lir.antt =====
-- The intermediate representation and its optimizer: src/lir/lir.hh and src/lir/optimizer.cpp.
pub mod Inst
pub mod Semantics
pub mod Optimizer
mod Tests
