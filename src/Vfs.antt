-- ===== src/Vfs.antt =====
-- kernel/core/vfs: who may write where, and the log of the paths that were used.
pub mod Policy
pub mod Chain
pub mod PathLog
pub mod Provider
pub mod Events
pub mod Command
pub mod Manager
pub mod MemoryVfs
pub mod HostVfs
pub mod Jail
mod Tests
mod ManagerTests
