-- ===== src/Vm.antt =====
-- The virtual machine: src/backend/vm.
pub mod Machine
mod Tests
