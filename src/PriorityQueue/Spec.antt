-- ===== src/PriorityQueue/Spec.antt =====
-- What a scheduler asks of the queue: for each priority a list of tasks, oldest first, and room for
-- PQ_MAX_ITEMS tasks in all. It knows nothing of slots, links, free stack or bitmap.
use bailey_forbes_flinstone.Base.{
  ℕ, zero, suc, ◌+◌, Bool, true, false, ◌||◌, Option, none, some, List, [], ◌∷◌, ◌++◌, length, leb,
  update, if◌then◌else◌, u32,
}
use bailey_forbes_flinstone.PriorityQueue.{Task, out_of_layers, max_items, num_priorities}

pub record State : Type 0 where
  pub layers : ℕ → List Task
  pub next_seq : ℕ

abbrev pub count : State → ℕ
count st = length (st.layers 0) + length (st.layers 1) + length (st.layers 2) + length (st.layers 3)

-- The new task joins the end of its layer; a bad priority or a full queue changes nothing.
unfoldable pub push : State → ℕ → ℕ → ℕ → Bool × State
push st priority fn arg =
    if out_of_layers priority || leb max_items (count st)
    then (false, st)
    else let task : Task = record {
      fn = fn;
      arg = arg;
      priority = priority;
      seq = st.next_seq;
      quantum = 0;
      runtime = 0;
    } in
      (
        true,
        record {
          layers = update st.layers priority (st.layers priority ++ (task ∷ []));
          next_seq = u32 (st.next_seq + 1);
        },
      )

-- The oldest task of a layer.
unfoldable pub pop_layer : State → ℕ → Option (Task × State)
pop_layer st l = elim (st.layers l) [
  | [] ↦ none
  | task ∷ rest ↦ some (task, record st { layers = update st.layers l rest })
]

-- The oldest task of the first layer that has one, among `n` layers from `l` on.
unfoldable pub pop_scan : ℕ → ℕ → State → Option (Task × State)
pop_scan zero l st = none
pop_scan (suc n) l st =
    let later = pop_scan n (l + 1) st in elim (pop_layer st l) [ none ↦ later | some r ↦ some r ]

unfoldable pub pop : State → Option (Task × State)
unfolding pop_scan pop_layer
pop st = pop_scan num_priorities 0 st

unfoldable pub pop_from_layer : State → ℕ → Option (Task × State)
unfolding pop_layer
pop_from_layer st l = if out_of_layers l then none else pop_layer st l

-- A scheduler's calls, and what it sees of each: whether a push was taken, or the task popped.
pub data Op : Type 0 where
  put : ℕ → ℕ → ℕ → Op
  get : Op
  get_from : ℕ → Op

pub data Reply : Type 0 where
  taken : Bool → Reply
  popped : Option Task → Reply

abbrev pub empty : State
empty = record { layers = λ l. []; next_seq = 0 }

unfoldable pub run : State → List Op → List Reply
run st [] = []
run st (put p fn arg ∷ ops) = let (b, st') = push st p fn arg in taken b ∷ run st' ops
run st (get ∷ ops) = elim (pop st) [
  | none ↦ popped none ∷ run st ops
  | some (task, st') ↦ popped (some task) ∷ run st' ops
]
run st (get_from l ∷ ops) = elim (pop_from_layer st l) [
  | none ↦ popped none ∷ run st ops
  | some (task, st') ↦ popped (some task) ∷ run st' ops
]
