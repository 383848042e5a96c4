-- ===== src/Vm/Sched.antt =====
-- The scheduler loops of VM/devices/vm.c, `vm_run` without a window and `vm_run_cycles`, as a client of
-- the priority queue. What the tasks do to the machine, the host and the ports is the interface
-- `Tasks` with a state `W`; a task is the number of its function.
pub mod Rounds
pub mod Cycles
pub mod Loop
pub mod Ends
pub mod Board
use bailey_forbes_flinstone.Base.{
  ℕ, zero, suc, ◌+◌, ◌%◌, Bool, true, false, ◌&&◌, not, Option, none, some, ◌==◌, ltb,
  if◌then◌else◌, u32,
}
use bailey_forbes_flinstone.PriorityQueue
use bailey_forbes_flinstone.PriorityQueue.{
  Queue, Task, num_priorities, push, pop_from_layer, is_empty,
}

-- PQ_PRIO_CPU, PQ_PRIO_DISPLAY, PQ_PRIO_TIMER and PQ_PRIO_CHECKPOINT
abbrev pub prio_cpu : ℕ
prio_cpu = 0

abbrev pub prio_display : ℕ
prio_display = 1

abbrev pub prio_timer : ℕ
prio_timer = 2

abbrev pub prio_checkpoint : ℕ
prio_checkpoint = 3

-- VM_CHECKPOINT_INTERVAL
abbrev pub checkpoint_interval : ℕ
checkpoint_interval = 500

-- `vm_cpu_task_fn`, `vm_display_task_fn`, `vm_timer_task_fn` and `vm_checkpoint_task_fn`
abbrev pub cpu_fn : ℕ
cpu_fn = 1

abbrev pub display_fn : ℕ
display_fn = 2

abbrev pub timer_fn : ℕ
timer_fn = 3

abbrev pub checkpoint_fn : ℕ
checkpoint_fn = 4

pub record Tasks (W : Type 0) : Type 0 where
  pub is_halted : W → Bool
  pub reset_requested : W → Bool
  pub clear_reset : W → W
  pub reset_host : W → W
  pub set_host : Bool → W → W
  pub run_cpu : W → W
  pub refresh_display : W → W
  pub advance_tick : W → W
  pub save_checkpoint : W → W

-- `s_run_cycles`, `s_vm_pq` and all else.
pub record Run (W : Type 0) : Type 0 where
  pub world : W
  pub pq : Queue
  pub cycles : ℕ

module _ {W : Type 0} (t : Tasks W) where
  -- `task.fn(task.arg)`
  unfoldable pub call : ℕ → W → W
  call fn w =
      if fn == cpu_fn
      then t.run_cpu w
      else if fn == display_fn
      then t.refresh_display w
      else if fn == timer_fn
      then t.advance_tick w
      else if fn == checkpoint_fn
      then t.save_checkpoint w
      else w

  -- What follows a CPU task, with the count of cycles after it.
  unfoldable pub reschedule : Queue → ℕ → Queue
  unfolding push
  reschedule q cycles =
      let q₁ = (push q prio_display display_fn 0).1 in
      let q₂ = (push q₁ prio_cpu cpu_fn 0).1 in
      let q₃ = (push q₂ prio_timer timer_fn 0).1 in
      if cycles % checkpoint_interval == 0 then (push q₃ prio_checkpoint checkpoint_fn 0).1 else q₃

  -- The body of the loop over the layers, for a task that was popped.
  unfoldable pub perform : Run W → Task → Queue → Run W
  unfolding call reschedule
  perform r task q =
      let w = if task.fn == 0 then r.world else call task.fn r.world in
      let cycles = u32 (r.cycles + 1) in
      if task.fn == cpu_fn && not (t.is_halted w)
      then record { world = w; pq = reschedule q cycles; cycles = cycles }
      else record { world = w; pq = q; cycles = r.cycles }

  unfoldable pub run_layer : Run W → ℕ → Run W
  unfolding perform pop_from_layer
  run_layer r layer = elim (pop_from_layer r.pq layer) [
    | none ↦ r
    | some (task, q) ↦ perform r task q
  ]

  -- `n` layers from `layer` on.
  unfoldable pub run_layers : ℕ → ℕ → Run W → Run W
  unfolding run_layer
  run_layers zero layer r = r
  run_layers (suc n) layer r = run_layers n (layer + 1) (run_layer r layer)

  unfoldable pub cpu_queue : Queue
  unfolding push PriorityQueue.init
  cpu_queue = (push PriorityQueue.init prio_cpu cpu_fn 0).1

  unfoldable pub restart : Run W → Run W
  unfolding cpu_queue
  restart r = record r { world = t.reset_host (t.clear_reset r.world); pq = cpu_queue }

  -- The condition of the loop; the limit is `none` in `vm_run`.
  unfoldable pub keeps_going : Option ℕ → Run W → Bool
  keeps_going none r = not (t.is_halted r.world)
  keeps_going (some max_cycles) r = not (t.is_halted r.world) && ltb r.cycles max_cycles

  -- The loop; `none` means that the fuel, a number of passes, ran out.
  unfoldable pub run_from : Option ℕ → ℕ → Run W → Option (Run W)
  unfolding keeps_going
  run_from limit zero r = if keeps_going limit r then none else some r
  run_from limit (suc fuel) r =
      let after_reset = run_from limit fuel (restart r) in
      let after_round = run_from limit fuel (run_layers num_priorities 0 r) in
      if not (keeps_going limit r)
      then some r
      else if t.reset_requested r.world
      then after_reset
      else if is_empty r.pq
      then some r
      else after_round

  unfoldable pub start : W → Run W
  unfolding cpu_queue
  start w = record { world = t.set_host true w; pq = cpu_queue; cycles = 0 }

  unfoldable pub finish : Option (Run W) → Option (Run W)
  finish none = none
  finish (some r) = some (record r { world = t.set_host false r.world })

  unfoldable pub run : ℕ → W → Option (Run W)
  unfolding run_from start finish
  run fuel w = finish (run_from none fuel (start w))

  unfoldable pub run_cycles : ℕ → ℕ → W → Option (Run W)
  unfolding run_from start finish
  run_cycles fuel max_cycles w = finish (run_from (some max_cycles) fuel (start w))
