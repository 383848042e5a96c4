-- ===== src/Sys/Syscall.antt =====
-- kernel/core/sys/syscall.c: the dispatch of the system calls. Pipes and message queues stand in
-- stores by the number of their address. The memory of the caller is a function of the address, and
-- standard input and output and what the allocations return are parameters.
pub mod Closed
use bailey_forbes_flinstone.Base.{
  ℕ, Bool, true, false, Option, none, some, List, [], ◌∷◌, ◌==◌, if◌then◌else◌, length, update,
}
use bailey_forbes_flinstone.Vm.Mem.{read_bytes, write_bytes}
use bailey_forbes_flinstone.Ipc.{Build, Outcome, failed, waits, done}
use bailey_forbes_flinstone.Ipc.Pipe
use bailey_forbes_flinstone.Ipc.Pipe.{Pipe}
use bailey_forbes_flinstone.Ipc.Msgq
use bailey_forbes_flinstone.Ipc.Msgq.{Msgq}
use bailey_forbes_flinstone.Sys.Vrt
use bailey_forbes_flinstone.Sys.Vrt.{Vrt, Kind, file, dir, block, buffer, pipe, msgq, Entry}

-- `fl_syscall_no_t`; `other` is every number that it does not have.
pub data Call : Type 0 where
  sys_write sys_read pipe_create pipe_read pipe_write : Call
  msgq_create msgq_send msgq_recv close other : Call

pub record Kernel : Type 0 where
  pub vrt : Vrt
  pub pipes : ℕ → Pipe
  pub msgqs : ℕ → Msgq

-- `write` and `read` of the C library on the standard streams, with `none` for an error, and the
-- address and the block that an object of the next call gets, with `none` for NULL.
pub record Outside : Type 0 where
  pub put : List ℕ → Option ℕ
  pub fetch : ℕ → Option (List ℕ)
  pub address : ℕ
  pub fresh : Option (ℕ → ℕ)

abbrev pub Result : Type 0
Result = Outcome ℕ × Kernel × (ℕ → ℕ)

abbrev pub is_pipe : Kind → Bool
is_pipe pipe = true
is_pipe _ = false

abbrev pub is_msgq : Kind → Bool
is_msgq msgq = true
is_msgq _ = false

-- The address of the resource of a handle, if there is one and it is of the wanted kind.
unfoldable pub lookup : Vrt → ℕ → (Kind → Bool) → Option ℕ
unfolding Vrt.get
lookup v h wanted = elim (Vrt.get v h) [
  | none ↦ none
  | some entry ↦ if wanted entry.kind then some entry.resource else none
]

-- The handle of a new object, or its refusal, after which the object is destroyed.
unfoldable pub enter : Kernel → (ℕ → ℕ) → Kernel → Option ℕ × Vrt → Result
enter k mem made (none, v) = (failed, k, mem)
enter k mem made (some h, v) = (done h, record made { vrt = v }, mem)

module _ (build : Build) (outside : Outside) (k : Kernel) (mem : ℕ → ℕ) where
  abbrev refused : Result
  refused = (failed, k, mem)

  unfoldable pub create_pipe : ℕ → Result
  unfolding enter Pipe.create Vrt.alloc
  create_pipe size = elim (Pipe.create outside.fresh size) [
    | none ↦ refused
    | some p ↦
        enter k mem (record k { pipes = update k.pipes outside.address p })
          (Vrt.alloc k.vrt pipe outside.address (some (112 ∷ 105 ∷ 112 ∷ 101 ∷ [])) size)
  ]

  unfoldable pub create_msgq : ℕ → ℕ → Result
  unfolding enter Msgq.create Vrt.alloc
  create_msgq max_messages size = elim (Msgq.create outside.fresh max_messages size) [
    | none ↦ refused
    | some q ↦
        enter k mem (record k { msgqs = update k.msgqs outside.address q })
          (Vrt.alloc k.vrt msgq outside.address (some (109 ∷ 115 ∷ 103 ∷ 113 ∷ [])) size)
  ]

  -- The bytes that a call hands out go to the caller's memory at `at`; `full` is the result where
  -- the call returns their number.
  unfoldable pub deliver : Outcome (List ℕ) → ℕ → (List ℕ → ℕ) → Kernel → Result
  unfolding write_bytes
  deliver failed at value k' = (failed, k', mem)
  deliver waits at value k' = (waits, k', mem)
  deliver (done bs) at value k' = (done (value bs), k', write_bytes mem at bs)

  unfoldable pub on_pipe_read : ℕ → ℕ → ℕ → Result
  unfolding deliver Pipe.read
  on_pipe_read a at count =
      let (r, p) = Pipe.read build (k.pipes a) count in
      if at == 0 then refused else deliver r at length (record k { pipes = update k.pipes a p })

  unfoldable pub on_pipe_write : ℕ → ℕ → ℕ → Result
  unfolding Pipe.write read_bytes
  on_pipe_write a at count =
      let (r, p) = Pipe.write build (k.pipes a) (read_bytes mem at count) in
      if at == 0 then refused else (r, record k { pipes = update k.pipes a p }, mem)

  unfoldable pub on_msgq_send : ℕ → ℕ → ℕ → Result
  unfolding Msgq.send read_bytes
  on_msgq_send a at count =
      let (ok, q) = Msgq.send build (k.msgqs a) (read_bytes mem at count) in
      if at == 0
      then refused
      else (if ok then done 0 else failed, record k { msgqs = update k.msgqs a q }, mem)

  unfoldable pub on_msgq_recv : ℕ → ℕ → ℕ → ℕ → Result
  unfolding deliver Msgq.receive
  on_msgq_recv a at size timeout =
      let (r, q) = Msgq.receive build (k.msgqs a) size timeout in
      if at == 0 then refused else deliver r at (λ bs. 0) (record k { msgqs = update k.msgqs a q })

  unfoldable pub with_resource : Option ℕ → (ℕ → Result) → Result
  with_resource none f = refused
  with_resource (some a) f = f a

  -- What `fl_syscall_dispatch` does when the object of the handle is destroyed.
  unfoldable pub release : ℕ → Result
  unfolding Vrt.free
  release h = (done 0, record k { vrt = Vrt.free k.vrt h }, mem)

  -- The object of a handle is destroyed, in the hosted build once no one waits for it. A freed object
  -- stays in its store, where nothing looks at it: its handle is freed.
  unfoldable pub destroy_entry : ℕ → Kind → ℕ → Result
  unfolding Pipe.begin_destroy Msgq.begin_destroy release
  destroy_entry h pipe a = elim (Pipe.begin_destroy build (k.pipes a)) [
    | none ↦ release h
    | some p ↦ (waits, record k { pipes = update k.pipes a p }, mem)
  ]
  destroy_entry h msgq a = elim (Msgq.begin_destroy build (k.msgqs a)) [
    | none ↦ release h
    | some q ↦ (waits, record k { msgqs = update k.msgqs a q }, mem)
  ]
  destroy_entry h _ a = refused

  -- A call that waits in `pipe_destroy` or `msgq_destroy` looks again.
  unfoldable pub resume_close : ℕ → Kind → ℕ → Result
  unfolding Pipe.finish_destroy Msgq.finish_destroy release
  resume_close h pipe a = elim (Pipe.finish_destroy (k.pipes a)) [
    | none ↦ release h
    | some p ↦ (waits, k, mem)
  ]
  resume_close h msgq a = elim (Msgq.finish_destroy (k.msgqs a)) [
    | none ↦ release h
    | some q ↦ (waits, k, mem)
  ]
  resume_close h _ a = refused

  unfoldable pub on_close : ℕ → Result
  unfolding destroy_entry Vrt.get
  on_close h = elim (Vrt.get k.vrt h) [
    | none ↦ refused
    | some entry ↦ destroy_entry h entry.kind entry.resource
  ]

  -- `fl_syscall_dispatch`; `failed` is -1, and `waits` a call that blocks.
  unfoldable pub dispatch : Call → ℕ → ℕ → ℕ → ℕ → Result
  unfolding with_resource lookup create_pipe create_msgq on_pipe_read on_pipe_write on_msgq_send
      on_msgq_recv on_close read_bytes write_bytes
  dispatch sys_write a0 a1 a2 a3 =
      if a0 == 0 then refused else (elim (outside.put (read_bytes mem a0 a1)) [
        | none ↦ refused
        | some n ↦ (done n, k, mem)
      ])
  dispatch sys_read a0 a1 a2 a3 = if a0 == 0 then refused else (elim (outside.fetch a1) [
    | none ↦ refused
    | some bs ↦ (done (length bs), k, write_bytes mem a0 bs)
  ])
  dispatch pipe_create a0 a1 a2 a3 = create_pipe a0
  dispatch pipe_read a0 a1 a2 a3 = with_resource (lookup k.vrt a0 is_pipe) λ a. on_pipe_read a a1 a2
  dispatch pipe_write a0 a1 a2 a3 =
      with_resource (lookup k.vrt a0 is_pipe) λ a. on_pipe_write a a1 a2
  dispatch msgq_create a0 a1 a2 a3 = create_msgq a0 a1
  dispatch msgq_send a0 a1 a2 a3 = with_resource (lookup k.vrt a0 is_msgq) λ a. on_msgq_send a a1 a2
  dispatch msgq_recv a0 a1 a2 a3 =
      with_resource (lookup k.vrt a0 is_msgq) λ a. on_msgq_recv a a1 a2 a3
  dispatch close a0 a1 a2 a3 = on_close a0
  dispatch other a0 a1 a2 a3 = refused
