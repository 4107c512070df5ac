-- ===== src/Modules.antt =====
-- The module manager of the front end (src/frontend/module_manager.cpp).
pub mod Manager
mod Tests
