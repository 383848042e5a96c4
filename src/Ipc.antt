-- ===== src/Ipc.antt =====
-- kernel/core/sys/ipc.c: pipes of bytes and queues of messages, both on a ring in a heap block. The
-- locks are held over a whole operation, so that an operation is one step. Memory that `malloc`
-- hands out is the parameter of the constructors. `Build` says which of the two builds is meant.
pub mod Pipe
pub mod Msgq
mod Tests
use bailey_forbes_flinstone.Base.{ℕ, Bool, true, false}

-- `__KERNEL__` defined or not.
pub data Build : Type 0 where
  kernel hosted : Build

-- What a call ends with: -1, a wait for the other side, or a result.
pub data Outcome (A : Type 0) : Type 0 where
  failed : Outcome A
  waits : Outcome A
  done : A → Outcome A

abbrev pub refuses : Build → Bool → Bool
refuses kernel closing = false
refuses hosted closing = closing
