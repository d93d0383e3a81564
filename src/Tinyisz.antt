-- ===== src/Tinyisz.antt =====
-- tinyisz: the example compositor's window list and its master/stack layout.
pub mod Windows
pub mod Layout
pub mod Bindings
mod Tests
