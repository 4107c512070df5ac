-- ===== src/Runtime.antt =====
-- The runtime's tagged values: src/runtime/runtime_value_base.h and src/runtime/runtime_value.c.
pub mod Word
pub mod Arithmetic
mod Tests
