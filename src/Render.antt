-- ===== src/Render.antt =====
-- src/render and src/buffer: surfaces, their buffers, the outputs that they are shown on, and the
-- plane slots that they hold.
pub mod Slots
pub mod Buffers
pub mod Surfaces
pub mod Commit
mod Tests
