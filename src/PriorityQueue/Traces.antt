-- ===== src/PriorityQueue/Traces.antt =====
-- Every sequence of pushes and pops against `Spec`.
use bailey_forbes_flinstone.Base.{
  ℕ, ◌+◌, ◌-◌, ◌≡◌, ◌<◌, ap, ap₂, refl, true, false, not, ◌||◌, inl, inr, Option, none, some, List,
  [], ◌∷◌, ◌++◌, arith, ◌==◌, update, Bool-cases, u32,
}
use bailey_forbes_flinstone.PriorityQueue.{
  Queue, Task, push, pop, pop_from_layer, minus_one, make_handle, out_of_layers, max_items,
  num_priorities, init,
}
use bailey_forbes_flinstone.PriorityQueue.Push.{push-fields}
use bailey_forbes_flinstone.PriorityQueue.Init.{init-Holds, no_layers, init-seq}
use bailey_forbes_flinstone.PriorityQueue.Pop.{Agree, pop-Agree, pop_from_layer-Agree}
use bailey_forbes_flinstone.PriorityQueue.Refine.{Models, full-eq, push-refused, push-Models, slot}
use bailey_forbes_flinstone.PriorityQueue.Spec
use bailey_forbes_flinstone.PriorityQueue.Spec.{State, Op, Reply, put, get, get_from, taken, popped}

-- A handle is never -1: its low half is a slot.
handle-ne-minus_one : (g s : ℕ) → s < max_items → (make_handle g s == minus_one) ≡ false
unfolding make_handle
handle-ne-minus_one g s h = ground arith

push-fits :
    (q : Queue) (st : State) (m : Models q st) (priority fn arg : ℕ)
    → (out_of_layers priority || q.free_top == 0) ≡ false
    → (priority < num_priorities) × (q.size < max_items)
push-fits q st m priority fn arg h = ground (arith, m.holds.room)

module _ (q : Queue) (st : State) (m : Models q st) (priority fn arg : ℕ) where
  -- `pq_push` returns -1 exactly when `Spec` refuses, and leaves the tasks that `Spec` leaves.
  pub push_refines :
      let (h, q') = push q priority fn arg in
      let (b, st') = Spec.push st priority fn arg in (not (h == minus_one) ≡ b) × Models q' st'
  push_refines = elim (Bool-cases (out_of_layers priority || q.free_top == 0)) [
    | inl refused ↦ let (a, b) = push-refused q st m priority fn arg refused in rw (a, b) (refl, m)
    | inr fits ↦
        let (hp, room) = push-fits q st m priority fn arg fits in
        let (i, j, k, n, handle, task, rest) = push-fields q m.ls m.holds priority fn arg hp room in
        let inside = m.holds.free.inside (q.free_top - 1) (omega (arith, m.holds.room)) in
        rw
          (
            accepted fits,
            handle,
            handle-ne-minus_one q.next_gen (slot q st m priority fn arg hp room) inside,
          )
          (refl, push-Models q st m priority fn arg hp room)
  ]
    where
      accepted :
          (out_of_layers priority || q.free_top == 0) ≡ false
          → Spec.push st priority fn arg ≡ (
            true,
            record {
              layers = update st.layers priority (
                  st.layers priority
                  ++ (record {
                    fn = fn;
                    arg = arg;
                    priority = priority;
                    seq = st.next_seq;
                    quantum = 0;
                    runtime = 0;
                  }
                      ∷ []));
              next_seq = u32 (st.next_seq + 1);
            },
          )
      accepted h = unfold Spec.push in ground (arith, full-eq q st m)

-- The same calls on the queue of the kernel.
unfoldable pub run : Queue → List Op → List Reply
run q [] = []
run q (put p fn arg ∷ ops) =
    let (h, q') = push q p fn arg in taken (not (h == minus_one)) ∷ run q' ops
run q (get ∷ ops) = elim (pop q) [
  | none ↦ popped none ∷ run q ops
  | some (task, q') ↦ popped (some task) ∷ run q' ops
]
run q (get_from l ∷ ops) = elim (pop_from_layer q l) [
  | none ↦ popped none ∷ run q ops
  | some (task, q') ↦ popped (some task) ∷ run q' ops
]

after-pop :
    (q : Queue) (st : State)
    → Models q st
    → (ops : List Op) → ((q' : Queue) (st' : State) → Models q' st' → run q' ops ≡ Spec.run st' ops)
    → (o : Option (Task × Queue)) (o' : Option (Task × State)) → Agree o o'
    → ◌≡◌ {A = List Reply}
        (elim o [
          | none ↦ popped none ∷ run q ops
          | some (task, q') ↦ popped (some task) ∷ run q' ops
        ])
        (elim o' [
          | none ↦ popped none ∷ Spec.run st ops
          | some (task, st') ↦ popped (some task) ∷ Spec.run st' ops
        ])
after-pop q st m ops rec none none a = ap (λ rs. popped none ∷ rs) (rec q st m)
after-pop q st m ops rec none (some r) a = absurd a
after-pop q st m ops rec (some r) none a = absurd a
after-pop q st m ops rec (some (t, q')) (some (t', st')) (e, m') =
    ap₂ (λ x rs. popped (some x) ∷ rs) e (rec q' st' m')

pub run_refines :
    (q : Queue) (st : State) → Models q st → (ops : List Op) → run q ops ≡ Spec.run st ops
unfolding run Spec.run
run_refines q st m [] = refl
run_refines q st m (put p fn arg ∷ ops) =
    let (e, m') = push_refines q st m p fn arg in
    ap₂ (λ b rs. taken b ∷ rs) e (run_refines (push q p fn arg).1 (Spec.push st p fn arg).1 m' ops)
run_refines q st m (get ∷ ops) =
    after-pop q st m ops (λ q' st' m'. run_refines q' st' m' ops) (pop q) (Spec.pop st)
      (pop-Agree q st m)
run_refines q st m (get_from l ∷ ops) =
    after-pop q st m ops (λ q' st' m'. run_refines q' st' m' ops) (pop_from_layer q l)
      (Spec.pop_from_layer st l) (pop_from_layer-Agree q st m l)

pub init-Models : Models init Spec.empty
init-Models = record { ls = no_layers; holds = init-Holds; tasks = λ l h. refl; seq = init-seq }

-- From `pq_init` on, every sequence of `pq_push`, `pq_pop` and `pq_pop_from_layer` calls is
-- answered as by plain lists of tasks, one for each priority: a push is refused only for a bad
-- priority or at PQ_MAX_ITEMS tasks, and a pop gives the oldest task of the most urgent layer.
pub run-init : (ops : List Op) → run init ops ≡ Spec.run Spec.empty ops
run-init ops = run_refines init Spec.empty init-Models ops
