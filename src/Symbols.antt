-- ===== src/Symbols.antt =====
-- The tables of names: src/backend/symbol_table.{hh,cpp} and src/lir/function_registry.{hh,cpp}.
pub mod Table
pub mod Registry
mod Tests
