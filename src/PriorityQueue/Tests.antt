-- ===== src/PriorityQueue/Tests.antt =====
-- The queue on concrete calls, and the theorems at inputs that meet their hypotheses.
use bailey_forbes_flinstone.Base.{
  ℕ, ◌-◌, ◌^◌, ◌≡◌, ◌<◌, refl, true, false, not, ◌&&◌, none, some, List, [], ◌∷◌, arith, ltb, ◌==◌,
  if◌then◌else◌, update, length,
}
use bailey_forbes_flinstone.PriorityQueue.{
  ctz, has_bit, set_bit, clear_bit, release, free_slot, unlink_slot, append_to_layer,
  pop_layer_head, make_handle, Queue, Task, init, push, pop, pop_from_layer, remove,
  update_priority, set_quantum, handle_slot, handle_valid, out_of_layers, max_items, count_layer,
  has_layer, count, is_empty,
}
use bailey_forbes_flinstone.PriorityQueue.Inv.{Layers, Holds, is_nil, total}
use bailey_forbes_flinstone.PriorityQueue.Init.{no_layers, init-Holds}
use bailey_forbes_flinstone.PriorityQueue.Push.{push-Holds}
use bailey_forbes_flinstone.PriorityQueue.Update.{
  Removed, Moved, remove_lem, update_priority_lem, set_quantum_lem,
}
use bailey_forbes_flinstone.PriorityQueue.Handle.{Refused, handle_valid-push, handle_valid-remove}
use bailey_forbes_flinstone.PriorityQueue.Count.{counts}
use bailey_forbes_flinstone.PriorityQueue.Spec
use bailey_forbes_flinstone.PriorityQueue.Spec.{Op, put, get, get_from, taken, popped}
use bailey_forbes_flinstone.PriorityQueue.Traces.{run, run-init}

abbrev script : List Op
script = put 3 11 1 ∷ put 0 12 2 ∷ put 9 13 3 ∷ put 3 14 4 ∷ get ∷ get_from 3 ∷ get ∷ get ∷ []

abbrev task_of : ℕ → ℕ → ℕ → ℕ → Task
task_of f a p n = record { fn = f; arg = a; priority = p; seq = n; quantum = 0; runtime = 0 }

run-script :
    run init script
    ≡ taken true
      ∷ taken true
      ∷ taken false
      ∷ taken true
      ∷ popped (some (task_of 12 2 0 1))
      ∷ popped (some (task_of 11 1 3 0))
      ∷ popped (some (task_of 14 4 3 2))
      ∷ popped none
      ∷ []
unfolding run init push pop pop_from_layer pop_layer_head release free_slot unlink_slot
    append_to_layer ctz has_bit set_bit clear_bit make_handle
run-script = refl

run-init_example : run init script ≡ Spec.run Spec.empty script
run-init_example = run-init script

-- One task with priority 1, in the slot of the handle 127.
abbrev one : Queue
one = (push init 1 5 9).1

abbrev one_layers : Layers
one_layers = update no_layers 1 (init.free_stack (init.free_top - 1) ∷ [])

init-room : init.size < max_items
unfolding init
init-room = omega arith

one-Holds : Holds one one_layers
one-Holds = push-Holds init no_layers init-Holds 1 5 9 (omega arith) init-room

one-valid : handle_valid one 127 ≡ true
unfolding init push append_to_layer handle_valid set_bit
one-valid = refl

remove_lem_example :
    if handle_valid one 127
    then Removed one one_layers 127 (remove one 127)
    else (remove one 127 ≡ (false, one))
remove_lem_example = remove_lem one one_layers 127 one-Holds

update_priority_lem_example :
    if not (out_of_layers 2) && handle_valid one 127
    then Moved one one_layers 127 2 (update_priority one 127 2)
    else (update_priority one 127 2 ≡ (false, one))
update_priority_lem_example = update_priority_lem one one_layers 127 2 one-Holds

set_quantum_lem_example :
    Holds (set_quantum one 127 10) one_layers
    × ((y : ℕ)
        → (set_quantum one 127 10).slots y ≡ (
            if handle_valid one 127 && handle_slot 127 == y
            then record (one.slots y) { quantum = 10 }
            else one.slots y))
set_quantum_lem_example = set_quantum_lem one one_layers 127 10 one-Holds

-- The queue after 2 ^ 15 pushes, as far as the next handle goes.
abbrev late : Queue
late = record init { next_gen = 2 ^ 15 }

late-Holds : Holds late no_layers
late-Holds = record {
  linked = record {
    layer = λ l h. record {
      links = (init-Holds.linked.layer l h).links;
      distinct = tt;
      owned = (init-Holds.linked.layer l h).owned;
    };
    mask_small = init-Holds.linked.mask_small;
    mask_bit = init-Holds.linked.mask_bit;
  };
  sized = init-Holds.sized;
  room = init-Holds.room;
  free = record {
    inside = init-Holds.free.inside;
    apart = init-Holds.free.apart;
    unused = init-Holds.free.unused;
  };
  live = init-Holds.live;
}

handle_valid-push_example :
    let (h, q') = push late 1 5 9 in handle_valid q' h ≡ ltb (2 ^ 15) (2 ^ 15)
handle_valid-push_example =
    handle_valid-push late no_layers late-Holds 1 5 9 (omega arith) init-room (omega arith)
      (omega arith)

handle_valid-remove_example :
    (handle_valid (remove one 127).1 127 ≡ false) × Refused (remove one 127).1 127
handle_valid-remove_example = handle_valid-remove one 127 one-valid

counts_example :
    (count_layer 128 one 1 ≡ some (length (one_layers 1)))
    × (has_layer one 1 ≡ not (is_nil (one_layers 1)))
    × (count one ≡ total one_layers)
    × (is_empty one ≡ (total one_layers == 0))
counts_example = counts one one_layers 128 1 one-Holds (omega arith) (omega arith)
