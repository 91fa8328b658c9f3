-- ===== src/Makedevs.antt =====
-- package/makedevs/makedevs.c: the tool that fills the target's file system from a device table.
pub mod System
pub mod Lines
pub mod Directory
pub mod Entry
pub mod Table
mod Tests
