-- ===== src/Vm.antt =====
-- VM/devices: the embedded x86 machine. Guest memory, the vCPU with its address translation, the
-- decoder, the executor and the host's keyboard queue, each in a module of its own.
pub mod Mem
pub mod Cpu
pub mod Decode
pub mod Exec
pub mod Step
pub mod Host
pub mod Io
pub mod Sched
mod Tests
mod DeviceTests
mod SchedTests
