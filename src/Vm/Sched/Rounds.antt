-- ===== src/Vm/Sched/Rounds.antt =====
-- What stands in the queue of the scheduler.
use bailey_forbes_flinstone.Base.{
  ℕ, suc, ◌+◌, ◌≡◌, ◌<◌, ◌∙◌, refl, sym, ap, subst, arith, inl, inr, Bool, true, false, Option,
  none, some, List, [], ◌∷◌, ◌++◌, map, map-append, length, ◌==◌, leb, update, Bool-cases, u32,
}
use mathlib.Core.List.{nil≢cons, cons≢nil, head-eq_of_cons-eq, tail-eq_of_cons-eq}
use bailey_forbes_flinstone.PriorityQueue.{
  Queue, Task, num_priorities, max_items, out_of_layers, push, pop_from_layer, is_empty,
}
use bailey_forbes_flinstone.PriorityQueue.Refine.{Models, count-eq}
use bailey_forbes_flinstone.PriorityQueue.Pop.{Agree, pop_from_layer-Agree}
use bailey_forbes_flinstone.PriorityQueue.Traces.{push_refines}
use bailey_forbes_flinstone.PriorityQueue.Spec
use bailey_forbes_flinstone.PriorityQueue.Spec.{State}

-- The functions of the tasks of a layer, oldest first.
abbrev pub functions : List Task → List ℕ
functions ts = map (λ task. task.fn) ts

-- The queue holds tasks with these functions in its layers.
pub record Shape (q : Queue) (fns : ℕ → List ℕ) : Type 0 where
  pub st : State
  pub models : Models q st
  pub tasks : (l : ℕ) → l < num_priorities → functions (st.layers l) ≡ fns l

pub Shape-same :
    {q : Queue} {f g : ℕ → List ℕ}
    → ((l : ℕ) → l < num_priorities → f l ≡ g l)
    → Shape q f
    → Shape q g
Shape-same e s = record { st = s.st; models = s.models; tasks = λ l h. s.tasks l h ∙ e l h }

in_layers : (l : ℕ) → l < num_priorities → out_of_layers l ≡ false
in_layers l h = ground arith

-- The first task of a layer with these functions, and the others.
First : List Task → List ℕ → Type 0
First ts [] = ts ≡ []
First ts (fn ∷ rest) =
    (task : Task) × (more : List Task) × (ts ≡ task ∷ more)
    × (task.fn ≡ fn)
    × (functions more ≡ rest)

split_functions : (ts : List Task) (fns : List ℕ) → functions ts ≡ fns → First ts fns
unfolding First
split_functions [] [] e = refl
split_functions [] (fn ∷ rest) e = absurd (nil≢cons e)
split_functions (t ∷ ts) [] e = absurd (cons≢nil e)
split_functions (t ∷ ts) (fn ∷ rest) e = (t, ts, refl, head-eq_of_cons-eq e, tail-eq_of_cons-eq e)

-- The specification's pop of a layer with these tasks.
abbrev popped_of : State → ℕ → List Task → Option (Task × State)
popped_of st l [] = none
popped_of st l (task ∷ rest) = some (task, record st { layers = update st.layers l rest })

pop_from_layer-eq :
    (st : State) (l : ℕ) (ts : List Task)
    → l < num_priorities
    → st.layers l ≡ ts
    → Spec.pop_from_layer st l ≡ popped_of st l ts
pop_from_layer-eq st l ts h e = of_layer ∙ by_tasks ∙ ap (popped_of st l) e
  where
    of_layer : Spec.pop_from_layer st l ≡ Spec.pop_layer st l
    of_layer = unfold Spec.pop_from_layer in rw (in_layers l h) refl

    same :
        (us : List Task)
        → ◌≡◌ {A = Option (Task × State)}
            (elim us [
              | [] ↦ none
              | task ∷ rest ↦ some (task, record st { layers = update st.layers l rest })
            ])
            (popped_of st l us)
    same [] = refl
    same (task ∷ rest) = refl

    by_tasks : Spec.pop_layer st l ≡ popped_of st l (st.layers l)
    by_tasks = unfold Spec.pop_layer in same (st.layers l)

none-Agree : (o : Option (Task × Queue)) → Agree o none → o ≡ none
none-Agree none a = refl
none-Agree (some r) a = absurd a

-- A pop of a layer without tasks.
pub pop_empty :
    {q : Queue} {f : ℕ → List ℕ} (l : ℕ)
    → l < num_priorities
    → f l ≡ []
    → Shape q f
    → pop_from_layer q l ≡ none
pop_empty {q} {f} l h e s =
    none-Agree (pop_from_layer q l) (subst (Agree (pop_from_layer q l)) refused agree)
  where
    agree : Agree (pop_from_layer q l) (Spec.pop_from_layer s.st l)
    agree = pop_from_layer-Agree q s.st s.models l

    no_task : s.st.layers l ≡ []
    no_task = unfold First in split_functions (s.st.layers l) [] (s.tasks l h ∙ e)

    refused : Spec.pop_from_layer s.st l ≡ none
    refused = pop_from_layer-eq s.st l [] h no_task

some-Agree :
    (o : Option (Task × Queue)) (task : Task) (st : State)
    → Agree o (some (task, st))
    → (q : Queue) × (o ≡ some (task, q)) × Models q st
some-Agree none task st a = absurd a
some-Agree (some (t, q)) task st (e, m) = (q, ap (λ x. some (x, q)) e, m)

-- A pop of a layer with tasks.
pub pop_first :
    {q : Queue} {f : ℕ → List ℕ} (l fn : ℕ) (rest : List ℕ)
    → l < num_priorities
    → f l ≡ fn ∷ rest
    → Shape q f
    → (task : Task) × (q' : Queue) × (pop_from_layer q l ≡ some (task, q'))
      × (task.fn ≡ fn)
      × Shape q' (update f l rest)
unfolding First
pop_first {q} {f} l fn rest h e s =
    let (task, more, split, at, left) = found in
    let agree =
      subst (Agree (pop_from_layer q l)) (pop_from_layer-eq s.st l (task ∷ more) h split)
        (pop_from_layer-Agree q s.st s.models l) in
    let (q', popped, m) = some-Agree (pop_from_layer q l) task _ agree in
    (
      task,
      q',
      popped,
      at,
      record {
        st = record s.st { layers = update s.st.layers l more };
        models = m;
        tasks = λ k hk. elim (Bool-cases (l == k)) [
          | inl same ↦ rw same left
          | inr other ↦ rw other (s.tasks k hk)
        ];
      },
    )
  where
    found : First (s.st.layers l) (fn ∷ rest)
    found = split_functions (s.st.layers l) (fn ∷ rest) (s.tasks l h ∙ e)

length-functions : (ts : List Task) → length (functions ts) ≡ length ts
length-functions [] = refl
length-functions (t ∷ ts) = ap suc (length-functions ts)

pub push-Shape :
    {q : Queue} {f : ℕ → List ℕ} (l fn : ℕ)
    → l < num_priorities
    → length (f 0) + length (f 1) + length (f 2) + length (f 3) < max_items
    → Shape q f
    → Shape (push q l fn 0).1 (update f l (f l ++ (fn ∷ [])))
push-Shape {q} {f} l fn h room s = record {
  st = (Spec.push s.st l fn 0).1;
  models = (push_refines q s.st s.models l fn 0).1;
  tasks = λ k hk. ap (λ (x : Bool × State). functions (x.1.layers k)) taken ∙ pushed_tasks k hk;
}
  where
    task : Task
    task = record { fn = fn; arg = 0; priority = l; seq = s.st.next_seq; quantum = 0; runtime = 0 }

    pushed : State
    pushed = record {
      layers = update s.st.layers l (s.st.layers l ++ (task ∷ []));
      next_seq = u32 (s.st.next_seq + 1);
    }

    lengths : (k : ℕ) → k < num_priorities → length (s.st.layers k) ≡ length (f k)
    lengths k hk = sym (length-functions (s.st.layers k)) ∙ ap length (s.tasks k hk)

    taken : Spec.push s.st l fn 0 ≡ (true, pushed)
    taken =
        let fits : leb max_items (Spec.count s.st) ≡ false = ground (
          arith,
          room,
          lengths 0 (omega arith),
          lengths 1 (omega arith),
          lengths 2 (omega arith),
          lengths 3 (omega arith),
        ) in
        unfold Spec.push in rw (in_layers l h, fits) refl

    pushed_tasks :
        (k : ℕ) → k < num_priorities → functions (pushed.layers k) ≡ update f l (f l ++ (fn ∷ [])) k
    pushed_tasks k hk = elim (Bool-cases (l == k)) [
      | inl same ↦ rw same (
          map-append (λ (x : Task). x.fn) (s.st.layers l) (task ∷ [])
          ∙ ap (λ xs. xs ++ (fn ∷ [])) (s.tasks l h))
      | inr other ↦ rw other (s.tasks k hk)
    ]

-- A queue with a task is not empty.
pub not_empty :
    {q : Queue} {f : ℕ → List ℕ} (fn : ℕ) (rest : List ℕ)
    → f 0 ≡ fn ∷ rest
    → Shape q f
    → is_empty q ≡ false
not_empty {q} fn rest e s =
    let n : 0 < q.size = omega (
      arith,
      count-eq q s.st s.models,
      length-functions (s.st.layers 0),
      ap length (s.tasks 0 (omega arith) ∙ e),
    ) in
    unfold is_empty in ground arith
