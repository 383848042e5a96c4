-- ===== src/Sys.antt =====
-- kernel/core/sys: the table that gives the resources of the kernel their handles, and the system
-- calls on top of it.
pub mod Vrt
pub mod Syscall
mod Tests
