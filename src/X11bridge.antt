-- ===== src/X11bridge.antt =====
-- x11bridge: the bridge that serves X11 clients; of it, the atom table
-- and the messages.
pub mod Names
pub mod Atoms
pub mod Proto
mod Tests
