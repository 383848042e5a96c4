-- ===== src/Vm/Sched/Loop.antt =====
-- The loops of the scheduler against the same loops without a queue.
use bailey_forbes_flinstone.Base.{
  ℕ, zero, suc, ◌≡◌, ◌⊎◌, ◌∙◌, refl, sym, ap, inl, inr, Bool, true, false, ◌&&◌, not, Option, none,
  some, [], ltb, if◌then◌else◌, Bool-cases,
}
use mathlib.Core.Bool.{false≢true}
use bailey_forbes_flinstone.PriorityQueue.{num_priorities, is_empty}
use bailey_forbes_flinstone.Vm.Sched.{
  Tasks, Run, run_layers, restart, keeps_going, run_from, start, finish, run, run_cycles, cpu_fn,
}
use bailey_forbes_flinstone.Vm.Sched.Rounds.{Shape, not_empty}
use bailey_forbes_flinstone.Vm.Sched.Cycles.{cpu_alone, cpu_queue-Shape, cycle, round-Rounded}

module _ {W : Type 0} (t : Tasks W) where
  -- The condition of the loop on the count of cycles and the rest.
  abbrev pub goes_on : Option ℕ → ℕ × W → Bool
  goes_on none (cycles, w) = not (t.is_halted w)
  goes_on (some max_cycles) (cycles, w) = not (t.is_halted w) && ltb cycles max_cycles

  -- The loop of cycles and resets; `none` means that the fuel ran out.
  unfoldable pub cycles_from : Option ℕ → ℕ → ℕ × W → Option (ℕ × W)
  cycles_from limit zero s = if goes_on limit s then none else some s
  cycles_from limit (suc fuel) s =
      let after_reset = cycles_from limit fuel (s.0, t.reset_host (t.clear_reset s.1)) in
      let after_cycle = cycles_from limit fuel (cycle t s) in
      if not (goes_on limit s)
      then some s
      else if t.reset_requested s.1
      then after_reset
      else after_cycle

  abbrev pub view : Option (Run W) → Option (ℕ × W)
  view none = none
  view (some r) = some (r.cycles, r.world)

  keeps_going-eq :
      (limit : Option ℕ) (r : Run W) → keeps_going t limit r ≡ goes_on limit (r.cycles, r.world)
  unfolding keeps_going
  keeps_going-eq none r = refl
  keeps_going-eq (some n) r = refl

  -- The queue is that of a round's start, or the CPU has halted.
  abbrev Between : Run W → Type 0
  Between r = Shape r.pq cpu_alone ⊎ (t.is_halted r.world ≡ true)

  stops : (limit : Option ℕ) (s : ℕ × W) → t.is_halted s.1 ≡ true → goes_on limit s ≡ false
  stops none (c, w) h = rw h refl
  stops (some n) (c, w) h = rw h refl

  run_from-cycles_from :
      (limit : Option ℕ) (fuel : ℕ) (r : Run W)
      → Between r
      → view (run_from t limit fuel r) ≡ cycles_from limit fuel (r.cycles, r.world)
  unfolding run_from cycles_from restart
  run_from-cycles_from limit zero r b = elim (Bool-cases (goes_on limit (r.cycles, r.world))) [
    | inl e ↦ rw (keeps_going-eq limit r, e) refl
    | inr e ↦ rw (keeps_going-eq limit r, e) refl
  ]
  run_from-cycles_from limit (suc fuel) r b =
      elim (Bool-cases (goes_on limit (r.cycles, r.world))) [
        | inr e ↦ rw (keeps_going-eq limit r, e) refl
        | inl e ↦ elim (Bool-cases (t.reset_requested r.world)) [
          | inl f ↦
              rw (keeps_going-eq limit r, e, f)
                (run_from-cycles_from limit fuel (restart t r) (inl (cpu_queue-Shape t)))
          | inr f ↦
              rw (keeps_going-eq limit r, e, f)
                (after_round (λ r' b'. run_from-cycles_from limit fuel r' b') e b)
        ]
      ]
    where
      after_round :
          ((r' : Run W)
            → Between r'
            → view (run_from t limit fuel r') ≡ cycles_from limit fuel (r'.cycles, r'.world))
          → goes_on limit (r.cycles, r.world) ≡ true
          → Between r
          → view (
              if is_empty r.pq
              then some r
              else run_from t limit fuel (run_layers t num_priorities 0 r))
            ≡ cycles_from limit fuel (cycle t (r.cycles, r.world))
      after_round rest e (inr halted) =
          absurd (false≢true (sym (stops limit (r.cycles, r.world) halted) ∙ e))
      after_round rest e (inl s) =
          let (same, between) = round-Rounded t r s in
          rw (not_empty cpu_fn [] refl s)
            (rest (run_layers t num_priorities 0 r) between ∙ ap (cycles_from limit fuel) same)

  abbrev pub finished : Option (ℕ × W) → Option (ℕ × W)
  finished none = none
  finished (some (c, w)) = some (c, t.set_host false w)

  view-finish : (o : Option (Run W)) → view (finish t o) ≡ finished (view o)
  unfolding finish
  view-finish none = refl
  view-finish (some r) = refl

  -- `vm_run` and `vm_run_cycles` do what the same loops do that have no queue: with the CPU not
  -- halted, and below the limit, they reset if that is asked for, and otherwise run one cycle of the
  -- CPU and, unless that halts it, the display, the timer and at every 500th cycle the checkpoint, in
  -- this order, for every fuel.
  pub run_cycles-cycles_from :
      (fuel max_cycles : ℕ) (w : W)
      → (view (run_cycles t fuel max_cycles w)
          ≡ finished (cycles_from (some max_cycles) fuel (0, t.set_host true w)))
        × (view (run t fuel w) ≡ finished (cycles_from none fuel (0, t.set_host true w)))
  run_cycles-cycles_from fuel max_cycles w =
      ((unfold run_cycles in of_limit (some max_cycles)), unfold run in of_limit none)
    where
      of_limit :
          (limit : Option ℕ)
          → view (finish t (run_from t limit fuel (start t w)))
            ≡ finished (cycles_from limit fuel (0, t.set_host true w))
      of_limit limit =
          view-finish (run_from t limit fuel (start t w))
          ∙ ap finished (
              unfold start in run_from-cycles_from limit fuel (start t w) (inl (cpu_queue-Shape t)))
