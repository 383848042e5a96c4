-- ===== src/Vm/Sched/Cycles.antt =====
-- The loops of the scheduler without their queue.
use bailey_forbes_flinstone.Base.{
  ℕ, zero, suc, ◌+◌, ◌%◌, ◌≡◌, ◌<◌, ◌⊎◌, ◌∙◌, refl, sym, ap, subst, arith, inl, inr, true, false,
  Option, none, some, List, [], ◌∷◌, ◌==◌, if◌then◌else◌, update, Bool-cases, u32,
}
use bailey_forbes_flinstone.PriorityQueue.{
  Queue, Task, num_priorities, push, pop_from_layer, is_empty,
}
use bailey_forbes_flinstone.PriorityQueue
use bailey_forbes_flinstone.PriorityQueue.Spec
use bailey_forbes_flinstone.PriorityQueue.Traces.{init-Models}
use bailey_forbes_flinstone.Vm.Sched.{
  Tasks, Run, call, reschedule, perform, run_layer, run_layers, cpu_queue, cpu_fn, display_fn,
  timer_fn, checkpoint_fn, checkpoint_interval, prio_display, prio_cpu, prio_timer, prio_checkpoint,
}
use bailey_forbes_flinstone.Vm.Sched.Rounds.{Shape, Shape-same, pop_empty, pop_first, push-Shape}

-- A queue with the CPU task alone.
abbrev pub cpu_alone : ℕ → List ℕ
cpu_alone zero = cpu_fn ∷ []
cpu_alone (suc l) = []

abbrev pub no_tasks : ℕ → List ℕ
no_tasks l = []

Shape-alone :
    {q : Queue} {f : ℕ → List ℕ}
    → f 0 ≡ cpu_fn ∷ []
    → f 1 ≡ []
    → f 2 ≡ []
    → f 3 ≡ []
    → Shape q f
    → Shape q cpu_alone
Shape-alone {f = f} a b c d s = Shape-same same s
  where
    same : (l : ℕ) → l < num_priorities → f l ≡ cpu_alone l
    same zero h = a
    same (suc zero) h = b
    same (suc (suc zero)) h = c
    same (suc (suc (suc zero))) h = d
    same (suc (suc (suc (suc l)))) h = absurd (omega arith)

init-Shape : Shape PriorityQueue.init no_tasks
init-Shape = record { st = Spec.empty; models = init-Models; tasks = λ l h. refl }

pub cpu_queue-Shape : {W : Type 0} (t : Tasks W) → Shape (cpu_queue t) cpu_alone
cpu_queue-Shape t =
    unfold cpu_queue in
    Shape-alone refl refl refl refl
      (push-Shape prio_cpu cpu_fn (omega arith) (omega arith) init-Shape)

module _ {W : Type 0} (t : Tasks W) where
  -- One cycle: the CPU, and if it has not halted the display, the timer and at every 500th cycle the
  -- checkpoint, in this order.
  abbrev pub cycle : ℕ × W → ℕ × W
  cycle (cycles, w) =
      let w₁ = t.run_cpu w in
      let w₂ = t.advance_tick (t.refresh_display w₁) in
      let next = u32 (cycles + 1) in
      if t.is_halted w₁
      then (cycles, w₁)
      else (next, if next % checkpoint_interval == 0 then t.save_checkpoint w₂ else w₂)

  layer_empty :
      (r : Run W) (f : ℕ → List ℕ) (l : ℕ)
      → l < num_priorities
      → f l ≡ []
      → Shape r.pq f
      → run_layer t r l ≡ r
  layer_empty r f l h e s =
      unfold run_layer in
      ap
        (λ (o : Option (Task × Queue)). elim o as (λ _. Run W) [
          | none ↦ r
          | some (task, q) ↦ perform t r task q
        ])
        (pop_empty l h e s)

  -- The task of a layer that has one.
  layer_pops :
      (r : Run W) (f : ℕ → List ℕ) (l fn : ℕ) (rest : List ℕ)
      → l < num_priorities
      → f l ≡ fn ∷ rest
      → Shape r.pq f
      → (task : Task) × (q : Queue) × (run_layer t r l ≡ perform t r task q)
        × (task.fn ≡ fn)
        × Shape q (update f l rest)
  layer_pops r f l fn rest h e s =
      let (task, q, popped, at, left) = pop_first l fn rest h e s in
      (
        task,
        q,
        (unfold run_layer in
            ap
              (λ (o : Option (Task × Queue)). elim o as (λ _. Run W) [
                | none ↦ r
                | some (task, q) ↦ perform t r task q
              ])
              popped),
        at,
        left,
      )

  -- A layer whose task is not the CPU's.
  layer_other :
      (r : Run W) (f : ℕ → List ℕ) (l fn : ℕ)
      → l < num_priorities
      → f l ≡ fn ∷ []
      → (fn == 0) ≡ false
      → (fn == cpu_fn) ≡ false
      → Shape r.pq f
      → (q : Queue) × (run_layer t r l
          ≡ record { world = call t fn r.world; pq = q; cycles = r.cycles })
        × Shape q (update f l [])
  layer_other r f l fn h e real other s =
      let (task, q, ran, at, left) = layer_pops r f l fn [] h e s in
      (q, ran ∙ (unfold perform in rw (at, real, other) refl), left)

  -- What the layer of the CPU leaves.
  after_cpu : Run W → Queue → Run W
  after_cpu r q =
      if t.is_halted (t.run_cpu r.world)
      then record { world = t.run_cpu r.world; pq = q; cycles = r.cycles }
      else record {
        world = t.run_cpu r.world;
        pq = reschedule t q (u32 (r.cycles + 1));
        cycles = u32 (r.cycles + 1);
      }

  layer_cpu :
      (r : Run W)
      → Shape r.pq cpu_alone
      → (q : Queue) × (run_layer t r 0 ≡ after_cpu r q) × Shape q (update cpu_alone 0 [])
  unfolding after_cpu
  layer_cpu r s =
      let (task, q, ran, at, left) = layer_pops r cpu_alone 0 cpu_fn [] (omega arith) refl s in
      (q, ran ∙ performed task q at, left)
    where
      performed : (task : Task) (q : Queue) → task.fn ≡ cpu_fn → perform t r task q ≡ after_cpu r q
      performed task q at = elim (Bool-cases (t.is_halted (t.run_cpu r.world))) [
        | inl e ↦ unfold perform in unfold call in rw (at, e) refl
        | inr e ↦ unfold perform in unfold call in rw (at, e) refl
      ]

  layers-chain :
      (r a b c d : Run W)
      → run_layer t r 0 ≡ a
      → run_layer t a 1 ≡ b
      → run_layer t b 2 ≡ c
      → run_layer t c 3 ≡ d
      → run_layers t num_priorities 0 r ≡ d
  layers-chain r a b c d ea eb ec ed =
      unfold run_layers in
      ap (λ x. run_layer t (run_layer t (run_layer t x 1) 2) 3) ea
      ∙ ap (λ x. run_layer t (run_layer t x 2) 3) eb
      ∙ ap (λ x. run_layer t x 3) ec
      ∙ ed

  -- A round is a cycle, and leaves the task of the CPU alone in the queue, or a halted CPU.
  abbrev pub Rounded : Run W → Run W → Type 0
  Rounded r r' =
      ((r'.cycles, r'.world) ≡ cycle (r.cycles, r.world))
      × (Shape r'.pq cpu_alone ⊎ (t.is_halted r'.world ≡ true))

  module _ (r : Run W) (s : Shape r.pq cpu_alone) where
    halted_round :
        t.is_halted (t.run_cpu r.world) ≡ true → Rounded r (run_layers t num_priorities 0 r)
    unfolding after_cpu
    halted_round h =
        let (q, ran, left) = layer_cpu r s in
        let stopped : Run W = record { world = t.run_cpu r.world; pq = q; cycles = r.cycles } in
        let first : run_layer t r 0 ≡ stopped = ran ∙ (rw h refl) in
        let idle = λ (l : ℕ). layer_empty stopped (update cpu_alone 0 []) l in
        let all =
          layers-chain r stopped stopped stopped stopped first (idle 1 (omega arith) refl left)
            (idle 2 (omega arith) refl left) (idle 3 (omega arith) refl left) in
        subst (Rounded r) (sym all) ((rw h refl), inr h)

    -- The three other layers, where the last one has the checkpoint or nothing.
    other_layers :
        (q : Queue) (f : ℕ → List ℕ)
        → f 0 ≡ cpu_fn ∷ []
        → f 1 ≡ display_fn ∷ []
        → f 2 ≡ timer_fn ∷ []
        → Shape q f
        → (w : W) (n : ℕ)
        → (q' : Queue) × (run_layer t (run_layer t (record { world = w; pq = q; cycles = n }) 1) 2
            ≡ record { world = t.advance_tick (t.refresh_display w); pq = q'; cycles = n })
          × Shape q' (update (update f 1 []) 2 [])
    other_layers q f a b c left w n =
        let start : Run W = record { world = w; pq = q; cycles = n } in
        let (q₁, one, s₁) = layer_other start f 1 display_fn (omega arith) b refl refl left in
        let shown : Run W = record { world = call t display_fn w; pq = q₁; cycles = n } in
        let (q₂, two, s₂) =
          layer_other shown (update f 1 []) 2 timer_fn (omega arith) c refl refl s₁ in
        (q₂, ap (λ x. run_layer t x 2) one ∙ two ∙ (unfold call in refl), s₂)

    two_and_three :
        {a c d : Run W}
        → run_layer t r 0 ≡ a
        → run_layer t (run_layer t a 1) 2 ≡ c
        → run_layer t c 3 ≡ d
        → run_layers t num_priorities 0 r ≡ d
    two_and_three {a} {c} {d} ea eb ed = layers-chain r a (run_layer t a 1) c d ea refl eb ed

    module _ (q : Queue) (left : Shape q (update cpu_alone 0 [])) where
      abbrev f₁ : ℕ → List ℕ
      f₁ = update (update cpu_alone 0 []) 1 (display_fn ∷ [])

      abbrev f₂ : ℕ → List ℕ
      f₂ = update f₁ 0 (cpu_fn ∷ [])

      abbrev f₃ : ℕ → List ℕ
      f₃ = update f₂ 2 (timer_fn ∷ [])

      abbrev q₃ : Queue
      q₃ =
          (push (push (push q prio_display display_fn 0).1 prio_cpu cpu_fn 0).1 prio_timer timer_fn
            0).1

      q₃-Shape : Shape q₃ f₃
      q₃-Shape = push-Shape {f = f₂} prio_timer timer_fn (omega arith) (omega arith) (
          push-Shape {f = f₁} prio_cpu cpu_fn (omega arith) (omega arith) (
            push-Shape {f = update cpu_alone 0 []} prio_display display_fn (omega arith)
              (omega arith) left))

      abbrev next : ℕ
      next = u32 (r.cycles + 1)

      abbrev w₁ : W
      w₁ = t.run_cpu r.world

      abbrev w₂ : W
      w₂ = t.advance_tick (t.refresh_display w₁)

      plain_layers :
          run_layer t r 0 ≡ record { world = w₁; pq = q₃; cycles = next }
          → (q' : Queue) × (run_layers t num_priorities 0 r
              ≡ record { world = w₂; pq = q'; cycles = next })
            × Shape q' cpu_alone
      plain_layers first =
          let (q', both, s') = other_layers q₃ f₃ refl refl refl q₃-Shape w₁ next in
          let end : Run W = record { world = w₂; pq = q'; cycles = next } in
          let idle = layer_empty end (update (update f₃ 1 []) 2 []) 3 (omega arith) refl s' in
          (q', two_and_three first both idle, Shape-alone refl refl refl refl s')

      checkpoint_layers :
          run_layer t r 0
            ≡ record { world = w₁; pq = (push q₃ prio_checkpoint checkpoint_fn 0).1; cycles = next }
          → (q' : Queue) × (run_layers t num_priorities 0 r
              ≡ record { world = t.save_checkpoint w₂; pq = q'; cycles = next })
            × Shape q' cpu_alone
      checkpoint_layers first =
          let f₄ = update f₃ 3 (checkpoint_fn ∷ []) in
          let s₄ =
            push-Shape {f = f₃} prio_checkpoint checkpoint_fn (omega arith) (omega arith)
              q₃-Shape in
          let (q', both, s') =
            other_layers (push q₃ prio_checkpoint checkpoint_fn 0).1 f₄ refl refl refl s₄ w₁ next in
          let shown : Run W = record { world = w₂; pq = q'; cycles = next } in
          let (q'', saved, s'') =
            layer_other shown (update (update f₄ 1 []) 2 []) 3 checkpoint_fn (omega arith) refl refl
              refl s' in
          (
            q'',
            two_and_three first both (saved ∙ (unfold call in refl)),
            Shape-alone refl refl refl refl s'',
          )

    running_round :
        t.is_halted (t.run_cpu r.world) ≡ false → Rounded r (run_layers t num_priorities 0 r)
    unfolding after_cpu
    running_round h =
        let (q, ran, left) = layer_cpu r s in
        elim (Bool-cases (u32 (r.cycles + 1) % checkpoint_interval == 0)) [
          | inl e ↦
              let (q', all, alone) =
                checkpoint_layers q left (ran ∙ (unfold reschedule in rw (h, e) refl)) in
              subst (Rounded r) (sym all) ((rw (h, e) refl), inl alone)
          | inr e ↦
              let (q', all, alone) =
                plain_layers q left (ran ∙ (unfold reschedule in rw (h, e) refl)) in
              subst (Rounded r) (sym all) ((rw (h, e) refl), inl alone)
        ]

    pub round-Rounded : Rounded r (run_layers t num_priorities 0 r)
    round-Rounded = elim (Bool-cases (t.is_halted (t.run_cpu r.world))) [
      | inl h ↦ halted_round h
      | inr h ↦ running_round h
    ]
