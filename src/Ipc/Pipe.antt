-- ===== src/Ipc/Pipe.antt =====
-- The pipes of kernel/core/sys/ipc.c. `p` and `buf` are not NULL.
pub mod Fifo
pub mod Spec
pub mod Trace
use bailey_forbes_flinstone.Base.{
  ℕ, zero, suc, ◌+◌, ◌-◌, ◌%◌, Bool, true, false, Option, none, some, List, [], ◌∷◌, ltb, ◌==◌,
  if◌then◌else◌, update, length,
}
use bailey_forbes_flinstone.Ipc.{Build, kernel, hosted, Outcome, failed, waits, done, refuses}

-- `struct pipe`, without its lock and its condition variables; `size` is `cap`. The kernel build has
-- neither `closing` nor `waiters`, and its operations do not look at them.
pub record Pipe : Type 0 where
  pub buf : ℕ → ℕ
  pub size : ℕ
  pub head : ℕ
  pub tail : ℕ
  pub len : ℕ
  pub closing : Bool
  pub waiters : ℕ

-- `none` is NULL; `block` is what `malloc(size)` returns.
unfoldable pub create : Option (ℕ → ℕ) → ℕ → Option Pipe
create none size = none
create (some buf) size =
    if size == 0
    then none
    else some (record {
      buf = buf;
      size = size;
      head = 0;
      tail = 0;
      len = 0;
      closing = false;
      waiters = 0;
    })

-- One round of the loop of `pipe_write`, and one of the loop of `pipe_read`.
unfoldable pub put : Pipe → ℕ → Pipe
put p b = record p { buf = update p.buf p.tail b; tail = (p.tail + 1) % p.size; len = p.len + 1 }

unfoldable pub skip : Pipe → Pipe
skip p = record p { head = (p.head + 1) % p.size; len = p.len - 1 }

unfoldable pub write_loop : Pipe → List ℕ → ℕ × Pipe
unfolding put
write_loop p [] = (0, p)
write_loop p (b ∷ bs) =
    let (n, p') = write_loop (put p b) bs in if ltb p.len p.size then (n + 1, p') else (0, p)

unfoldable pub read_loop : Pipe → ℕ → List ℕ × Pipe
unfolding skip
read_loop p zero = ([], p)
read_loop p (suc n) =
    let (bs, p') = read_loop (skip p) n in if ltb 0 p.len then (p.buf p.head ∷ bs, p') else ([], p)

-- `pipe_write`: the number of bytes written.
unfoldable pub write : Build → Pipe → List ℕ → Outcome ℕ × Pipe
unfolding write_loop
write build p bs =
    let (n, p') = write_loop p bs in
    if length bs == 0
    then (failed, p)
    else if refuses build p.closing
    then (failed, p)
    else (done n, p')

-- What `pipe_read` does with an empty pipe: in the hosted build it waits while the pipe is open.
unfoldable pub on_empty : Build → Pipe → Outcome (List ℕ) × Pipe
on_empty kernel p = (failed, p)
on_empty hosted p = if p.closing then (failed, p) else (waits, record p { waiters = p.waiters + 1 })

-- `pipe_read` with the lock held, up to a wait.
unfoldable pub read_locked : Build → Pipe → ℕ → Outcome (List ℕ) × Pipe
unfolding read_loop on_empty
read_locked build p count =
    let (bs, p') = read_loop p count in if p.len == 0 then on_empty build p else (done bs, p')

unfoldable pub read : Build → Pipe → ℕ → Outcome (List ℕ) × Pipe
unfolding read_locked
read build p count = if count == 0 then (failed, p) else read_locked build p count

-- A reader that waits for `count` bytes is woken.
unfoldable pub resume_read : Build → Pipe → ℕ → Outcome (List ℕ) × Pipe
unfolding read_locked
resume_read build p count = read_locked build (record p { waiters = p.waiters - 1 }) count

-- The loop of `pipe_destroy` each time that it looks: `none` is a pipe that is freed.
unfoldable pub finish_destroy : Pipe → Option Pipe
finish_destroy p = if p.waiters == 0 then none else some p

-- `pipe_destroy` up to its wait.
unfoldable pub begin_destroy : Build → Pipe → Option Pipe
unfolding finish_destroy
begin_destroy kernel p = none
begin_destroy hosted p = finish_destroy (record p { closing = true })
