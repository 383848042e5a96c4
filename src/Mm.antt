-- ===== src/Mm.antt =====
-- kernel/core/mm: the memory of the kernel on bare metal.
pub mod Arena
pub mod Frames
mod Tests
