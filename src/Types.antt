-- ===== src/Types.antt =====
-- The type system of the front end (src/backend/types.hh).
pub mod Term
pub mod Shallow
pub mod Conversion
pub mod Abi
mod Tests
