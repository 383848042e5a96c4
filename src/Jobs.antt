-- ===== src/Jobs.antt =====
-- kernel/core/sched/threadpool.c: the jobs of the thread pool. A job is the number of its address, 0 for
-- NULL, and what is done with the pool's lock held is one step. Waiting on a condition and the threads
-- are of the C library; what a command does acts on a state `W`.
use bailey_forbes_flinstone.Base.{
  ℕ, ◌-◌, Bool, true, false, ◌&&◌, ◌||◌, not, none, some, List, ◌==◌, leb, if◌then◌else◌, update,
}
use bailey_forbes_flinstone.PriorityQueue.{
  Queue, max_items, num_priorities, minus_one, is_negative, push, pop_from_layer, set_quantum,
  is_empty, count,
}

-- PRIORITY_IMMEDIATE and PRIORITY_BACKGROUND
abbrev pub immediate : ℕ
immediate = 0

abbrev pub background : ℕ
background = 2

-- `job_node`
pub record Job : Type 0 where
  pub command : List ℕ
  pub done : Bool
  pub priority : ℕ
  pub pq_handle : ℕ

-- `g_pool` and the jobs
pub record Pool : Type 0 where
  pub pq : Queue
  pub jobs : ℕ → Job
  pub shutting_down : Bool

-- The address of `run_job_task`.
abbrev pub run_job_fn : ℕ
run_job_fn = 1

unfoldable pub create_job : Pool → ℕ → List ℕ → Pool
create_job p job line = record p {
  jobs =
      update p.jobs job
        (record { command = line; done = false; priority = immediate; pq_handle = 0 });
}

-- The job that is queued has the handle -1 until the push succeeds.
unfoldable pub queue_job_priority : Pool → ℕ → ℕ → Pool
unfolding push set_quantum count
queue_job_priority p job priority =
    let marked =
      update p.jobs job (record (p.jobs job) { priority = priority; pq_handle = minus_one }) in
    let (h, q) = push p.pq priority run_job_fn job in
    let held = update marked job (record (marked job) { pq_handle = h }) in
    if leb max_items (count p.pq)
    then record p { jobs = marked }
    else if is_negative h
    then record p { jobs = marked; pq = q }
    else record p { jobs = held; pq = if priority == background then set_quantum q h 100 else q }

unfoldable pub queue_job : Pool → ℕ → Pool
unfolding queue_job_priority
queue_job p job = queue_job_priority p job immediate

-- kernel/core/sched/task_manager.c: the priority that a command is submitted with.
unfoldable pub submit_priority : ℕ → ℕ
submit_priority priority =
    if is_negative priority
    then 0
    else if leb num_priorities priority
    then num_priorities - 1
    else priority

-- A submitted command is a job in the pool.
unfoldable pub submit : Pool → ℕ → ℕ → List ℕ → Pool
unfolding submit_priority create_job queue_job_priority
submit p job priority command =
    queue_job_priority (create_job p job command) job (submit_priority priority)

-- Whether the worker goes on to its scan, and does not end or wait for a job.
unfoldable pub worker_may_scan : Pool → Bool
unfolding is_empty
worker_may_scan p = not p.shutting_down && not (is_empty p.pq)

module _ {W : Type 0} (execute_command_str : List ℕ → W → W) where
  unfoldable pub run_job_task : Pool → ℕ → W → Pool × W
  run_job_task p job w = (
    record p { jobs = update p.jobs job (record (p.jobs job) { done = true }) },
    execute_command_str (p.jobs job).command w,
  )

  -- One layer of the scan of a worker.
  unfoldable pub scan_layer : Pool → ℕ → W → Pool × W
  unfolding pop_from_layer run_job_task
  scan_layer p layer w = elim (pop_from_layer p.pq layer) [
    | none ↦ (p, w)
    | some (task, q) ↦
        let p' = record p { pq = q } in
        if task.fn == 0 || task.arg == 0 then (p', w) else run_job_task p' task.arg w
  ]
