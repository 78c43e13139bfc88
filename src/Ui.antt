-- ===== src/Ui.antt =====
-- The user interface: ui/input.hpp and ui/input.cpp.
pub mod Input
