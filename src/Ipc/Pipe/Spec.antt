-- ===== src/Ipc/Pipe/Spec.antt =====
-- What the operations on the pipes of kernel/core/sys/ipc.c promise, and runs of both.
use bailey_forbes_flinstone.Base.{
  ℕ, ◌+◌, ◌-◌, Bool, true, Option, none, some, List, [], ◌∷◌, ◌++◌, ◌==◌, if◌then◌else◌, length,
  take, drop, min,
}
use bailey_forbes_flinstone.Ipc.{Build, kernel, hosted, Outcome, failed, waits, done, refuses}
use bailey_forbes_flinstone.Ipc.Pipe.{Pipe, write, read, resume_read, finish_destroy, begin_destroy}
use bailey_forbes_flinstone.Ipc.Pipe.Fifo.{contents}

-- What a pipe promises: a list of at most `size` bytes, of which a write appends what fits and a
-- read takes what is there, from the front; and how many readers wait for bytes.
pub record Spec : Type 0 where
  pub size : ℕ
  pub bytes : List ℕ
  pub closing : Bool
  pub waiters : ℕ

abbrev pub abstract_of : Pipe → Spec
abstract_of p = record {
  size = p.size;
  bytes = contents p;
  closing = p.closing;
  waiters = p.waiters;
}

abbrev pub abstract_of_live : Option Pipe → Option Spec
abstract_of_live none = none
abstract_of_live (some p) = some (abstract_of p)

-- The calls, and the two wake-ups: of a reader that waits for a number of bytes, and of the caller
-- of `pipe_destroy` that waits for the readers.
pub data Op : Type 0 where
  write_bytes : List ℕ → Op
  read_bytes : ℕ → Op
  wake_reader : ℕ → Op
  destroy : Op
  wake_destroyer : Op

-- `nobody` answers a wake-up when no one waits, and `undefined` what is done to a freed pipe.
pub data Reply : Type 0 where
  wrote : Outcome ℕ → Reply
  got : Outcome (List ℕ) → Reply
  draining freed nobody undefined : Reply

abbrev pub left : {S : Type 0} → Option S → Reply × Option S
left none = (freed, none)
left (some s) = (draining, some s)

module _ (build : Build) where
  abbrev pub spec_write : Spec → List ℕ → Outcome ℕ × Spec
  spec_write s bs =
      let room = s.size - length s.bytes in
      if length bs == 0
      then (failed, s)
      else if refuses build s.closing
      then (failed, s)
      else (done (min (length bs) room), record s { bytes = s.bytes ++ take room bs })

  abbrev pub spec_on_empty : Build → Spec → Outcome (List ℕ) × Spec
  spec_on_empty kernel s = (failed, s)
  spec_on_empty hosted s =
      if s.closing then (failed, s) else (waits, record s { waiters = s.waiters + 1 })

  abbrev pub spec_take : Spec → ℕ → Outcome (List ℕ) × Spec
  spec_take s n =
      if length s.bytes == 0
      then spec_on_empty build s
      else (done (take n s.bytes), record s { bytes = drop n s.bytes })

  -- A freed pipe is `none`; the kernel frees at once, the hosted build when no reader waits.
  abbrev pub spec_finish : Spec → Option Spec
  spec_finish s = if s.waiters == 0 then none else some s

  abbrev pub spec_destroy : Build → Spec → Option Spec
  spec_destroy kernel s = none
  spec_destroy hosted s = spec_finish (record s { closing = true })

  abbrev pub perform : Op → Pipe → Reply × Option Pipe
  perform (write_bytes bs) p = let (r, p') = write build p bs in (wrote r, some p')
  perform (read_bytes n) p = let (r, p') = read build p n in (got r, some p')
  perform (wake_reader n) p =
      let (r, p') = resume_read build p n in
      if p.waiters == 0 then (nobody, some p) else (got r, some p')
  perform destroy p = left (begin_destroy build p)
  perform wake_destroyer p = if p.closing then left (finish_destroy p) else (nobody, some p)

  abbrev pub spec_perform : Op → Spec → Reply × Option Spec
  spec_perform (write_bytes bs) s = let (r, s') = spec_write s bs in (wrote r, some s')
  spec_perform (read_bytes n) s =
      let (r, s') = spec_take s n in if n == 0 then (got failed, some s) else (got r, some s')
  spec_perform (wake_reader n) s =
      let (r, s') = spec_take (record s { waiters = s.waiters - 1 }) n in
      if s.waiters == 0 then (nobody, some s) else (got r, some s')
  spec_perform destroy s = left (spec_destroy build s)
  spec_perform wake_destroyer s = if s.closing then left (spec_finish s) else (nobody, some s)

  -- The replies to a sequence of calls and wake-ups.
  abbrev pub run : Option Pipe → List Op → List Reply
  run o [] = []
  run none (op ∷ ops) = undefined ∷ run none ops
  run (some p) (op ∷ ops) = let (r, o) = perform op p in r ∷ run o ops

  abbrev pub spec_run : Option Spec → List Op → List Reply
  spec_run o [] = []
  spec_run none (op ∷ ops) = undefined ∷ spec_run none ops
  spec_run (some s) (op ∷ ops) = let (r, o) = spec_perform op s in r ∷ spec_run o ops
