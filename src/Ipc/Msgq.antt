-- ===== src/Ipc/Msgq.antt =====
-- The message queues of kernel/core/sys/ipc.c. `q` and `msg` are not NULL.
pub mod Slots
pub mod Spec
pub mod Ring
pub mod Trace
use bailey_forbes_flinstone.Base.{
  ℕ, zero, suc, ◌+◌, ◌-◌, ◌*◌, ◌%◌, ◌^◌, Bool, true, false, Option, none, some, List, [], ◌∷◌, ltb,
  leb, ◌==◌, if◌then◌else◌, length, replicate, min,
}
use bailey_forbes_flinstone.Vm.Mem.{read_bytes, write_bytes}
use bailey_forbes_flinstone.Ipc.{Build, kernel, hosted, Outcome, failed, waits, done, refuses}

-- `struct msgq`, without its lock and its condition variables. The kernel build has neither
-- `closing` nor `waiters`, and its operations do not look at them.
pub record Msgq : Type 0 where
  pub buf : ℕ → ℕ
  pub max_messages : ℕ
  pub message_size : ℕ
  pub head : ℕ
  pub tail : ℕ
  pub len : ℕ
  pub closing : Bool
  pub waiters : ℕ

-- The bytes of the block that a queue of these sizes asks of `malloc`, a product in `size_t`.
unfoldable pub block_size : ℕ → ℕ → ℕ
block_size max_messages message_size = max_messages * message_size % 2 ^ 64

-- `none` is NULL; `block` is what `malloc` returns for `block_size` bytes. The attributes and
-- condition variables of the hosted build are taken to initialise.
unfoldable pub create : Option (ℕ → ℕ) → ℕ → ℕ → Option Msgq
create none max_messages message_size = none
create (some buf) max_messages message_size =
    if max_messages == 0
    then none
    else if message_size == 0
    then none
    else some (record {
      buf = buf;
      max_messages = max_messages;
      message_size = message_size;
      head = 0;
      tail = 0;
      len = 0;
      closing = false;
      waiters = 0;
    })

-- `slot` is cleared and the message is copied to it.
unfoldable pub store : Msgq → List ℕ → Msgq
store q msg =
    let slot = q.tail * q.message_size in
    record q {
      buf = write_bytes (write_bytes q.buf slot (replicate q.message_size 0)) slot msg;
      tail = (q.tail + 1) % q.max_messages;
      len = q.len + 1;
    }

-- `msgq_send`; `false` is -1.
unfoldable pub send : Build → Msgq → List ℕ → Bool × Msgq
unfolding store
send build q msg =
    if length msg == 0
    then (false, q)
    else if ltb q.message_size (length msg)
    then (false, q)
    else if refuses build q.closing
    then (false, q)
    else if leb q.max_messages q.len
    then (false, q)
    else (true, store q msg)

-- What `msgq_receive` does with an empty queue: in the hosted build it waits while the queue is open.
unfoldable pub on_empty : Build → Msgq → ℕ → Outcome (List ℕ) × Msgq
on_empty kernel q timeout = (failed, q)
on_empty hosted q timeout =
    if timeout == 0
    then (failed, q)
    else if q.closing
    then (failed, q)
    else (waits, record q { waiters = q.waiters + 1 })

unfoldable pub skip : Msgq → Msgq
skip q = record q { head = (q.head + 1) % q.max_messages; len = q.len - 1 }

-- `msgq_receive` behind the test of `closing`: the bytes copied to `msg`, or what the empty queue
-- does.
unfoldable pub receive_locked : Build → Msgq → ℕ → ℕ → Outcome (List ℕ) × Msgq
unfolding skip on_empty
receive_locked build q size timeout =
    if q.len == 0
    then on_empty build q timeout
    else (done (read_bytes q.buf (q.head * q.message_size) (min size q.message_size)), skip q)

unfoldable pub receive : Build → Msgq → ℕ → ℕ → Outcome (List ℕ) × Msgq
unfolding receive_locked
receive build q size timeout =
    if size == 0
    then (failed, q)
    else if refuses build q.closing
    then (failed, q)
    else receive_locked build q size timeout

-- A receiver that waits is woken, or its wait ended with an error or at the deadline.
unfoldable pub resume_receive : Build → Msgq → ℕ → Bool → Outcome (List ℕ) × Msgq
unfolding receive_locked
resume_receive build q size true = (failed, record q { waiters = q.waiters - 1 })
resume_receive build q size false =
    receive_locked build (record q { waiters = q.waiters - 1 }) size 1

-- The loop of `msgq_destroy` each time that it looks: `none` is a queue that is freed.
unfoldable pub finish_destroy : Msgq → Option Msgq
finish_destroy q = if q.waiters == 0 then none else some q

-- `msgq_destroy` up to its wait.
unfoldable pub begin_destroy : Build → Msgq → Option Msgq
unfolding finish_destroy
begin_destroy kernel q = none
begin_destroy hosted q = finish_destroy (record q { closing = true })
