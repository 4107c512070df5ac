-- ===== src/Containers.antt =====
-- The containers of the C runtime (src/runtime): hash tables, growing lists and tuples.
pub mod Block
pub mod Dict
pub mod Vector
pub mod Tuple
mod Tests
