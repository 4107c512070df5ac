-- ===== src/Memory.antt =====
-- The memory-safety phase that follows type checking: src/frontend/memory_checker.{hh,cpp}.
pub mod Ast
pub mod State
pub mod Checker
mod Tests
