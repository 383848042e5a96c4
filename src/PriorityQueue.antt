-- ===== src/PriorityQueue.antt =====
-- kernel/core/sched/priority_queue.c with kernel/include/priority_queue.h.
-- A C array is the function of its indices; a link of type `int` is `none` for -1. `pq` and `out`
-- are not NULL. An `int` argument is its 32-bit pattern, so that it is negative from 2 ^ 31 on.
pub mod Segment
pub mod Mask
pub mod Inv
pub mod Relink
pub mod Unlink
pub mod Append
pub mod Push
pub mod Release
pub mod Update
pub mod Init
pub mod Spec
pub mod Refine
pub mod Pop
pub mod Traces
pub mod Handle
pub mod Count
mod Tests
use bailey_forbes_flinstone.Base.{
  ℕ, zero, suc, ◌+◌, ◌-◌, ◌*◌, ◌/◌, ◌%◌, ◌^◌, bit_and, bit_or, Bool, true, false, not, ◌&&◌, ◌||◌,
  Option, none, some, ltb, leb, ◌==◌, if◌then◌else◌, update, u16, u32,
}

-- PQ_NUM_PRIORITIES
abbrev pub num_priorities : ℕ
num_priorities = 4

-- PQ_MAX_ITEMS
abbrev pub max_items : ℕ
max_items = 128

abbrev pub Link : Type 0
Link = Option ℕ

-- `pq_task_t`; a function pointer is a number, 0 for NULL.
pub record Task : Type 0 where
  pub fn : ℕ
  pub arg : ℕ
  pub priority : ℕ
  pub seq : ℕ
  pub quantum : ℕ
  pub runtime : ℕ

abbrev pub zero_task : Task
zero_task = record { fn = 0; arg = 0; priority = 0; seq = 0; quantum = 0; runtime = 0 }

-- `priority_queue_t`
pub record Queue : Type 0 where
  pub slots : ℕ → Task
  pub layer_head : ℕ → Link
  pub layer_tail : ℕ → Link
  pub slot_next : ℕ → Link
  pub slot_prev : ℕ → Link
  pub free_stack : ℕ → ℕ
  pub free_top : ℕ
  pub nonempty_mask : ℕ
  pub gen : ℕ → ℕ
  pub next_gen : ℕ
  pub size : ℕ
  pub next_seq : ℕ

abbrev pub is_negative : ℕ → Bool
is_negative n = leb (2 ^ 31) n

-- the test of a layer argument, `layer < 0 || layer >= PQ_NUM_PRIORITIES`
abbrev pub out_of_layers : ℕ → Bool
out_of_layers layer = is_negative layer || leb num_priorities layer

-- PQ_HANDLE_SLOT, PQ_HANDLE_GEN and PQ_MAKE_HANDLE. The fields do not overlap, so `|` is `+`.
unfoldable pub handle_slot : ℕ → ℕ
handle_slot h = h % 2 ^ 8

unfoldable pub handle_gen : ℕ → ℕ
handle_gen h = u16 (h / 2 ^ 16)

unfoldable pub make_handle : ℕ → ℕ → ℕ
make_handle g slot = u32 (g * 2 ^ 16) + slot % 2 ^ 8

unfoldable pub handle_valid : Queue → ℕ → Bool
unfolding handle_slot handle_gen
handle_valid q h =
    if is_negative h
    then false
    else if leb max_items (handle_slot h)
    then false
    else if (q.slots (handle_slot h)).fn == 0
    then false
    else q.gen (handle_slot h) == handle_gen h

-- `mask |= 1ULL << layer` and `mask &= ~(1ULL << layer)`
unfoldable pub set_bit : ℕ → ℕ → ℕ
set_bit mask layer = bit_or mask (2 ^ layer)

unfoldable pub clear_bit : ℕ → ℕ → ℕ
clear_bit mask layer = bit_and mask (2 ^ 64 - 1 - 2 ^ layer)

-- `(mask & (1ULL << layer)) != 0`
unfoldable pub has_bit : ℕ → ℕ → Bool
has_bit mask layer = not (bit_and mask (2 ^ layer) == 0)

-- `__builtin_ctzll`, with the bits left to look at
unfoldable pub ctz : ℕ → ℕ → ℕ
ctz zero m = 0
ctz (suc bits) m = let rest = ctz bits (m / 2) in if m % 2 == 1 then 0 else suc rest

unfoldable pub set_layer_nonempty : Queue → ℕ → Bool → Queue
set_layer_nonempty q layer nonempty =
    if nonempty
    then record q { nonempty_mask = set_bit q.nonempty_mask layer }
    else record q { nonempty_mask = clear_bit q.nonempty_mask layer }

-- `if (p >= 0) slot_next[p] = n; else layer_head[layer] = n;`
unfoldable pub link_next : Queue → ℕ → Link → Link → Queue
link_next q layer none n = record q { layer_head = update q.layer_head layer n }
link_next q layer (some p) n = record q { slot_next = update q.slot_next p n }

-- `if (n >= 0) slot_prev[n] = p; else layer_tail[layer] = p;`
unfoldable pub link_prev : Queue → ℕ → Link → Link → Queue
link_prev q layer none p = record q { layer_tail = update q.layer_tail layer p }
link_prev q layer (some n) p = record q { slot_prev = update q.slot_prev n p }

abbrev pub is_none : Link → Bool
is_none none = true
is_none (some i) = false

unfoldable pub unlink_slot : Queue → ℕ → Queue
unfolding link_next link_prev set_layer_nonempty
unlink_slot q slot =
    let p = q.slot_prev slot in
    let n = q.slot_next slot in
    let layer = (q.slots slot).priority in
    let q' = link_prev (link_next q layer p n) layer n p in
    if is_none (q'.layer_head layer) then set_layer_nonempty q' layer false else q'

unfoldable pub append_to_layer : Queue → ℕ → ℕ → Queue
unfolding link_next set_layer_nonempty
append_to_layer q slot layer =
    let q₁ = record q {
      slots = update q.slots slot (record (q.slots slot) { priority = layer });
    } in
    let t = q₁.layer_tail layer in
    let q₂ = record q₁ {
      slot_prev = update q₁.slot_prev slot t;
      slot_next = update q₁.slot_next slot none;
    } in
    let q₃ = link_next q₂ layer t (some slot) in
    let q₄ = record q₃ { layer_tail = update q₃.layer_tail layer (some slot) } in
    set_layer_nonempty q₄ layer true

unfoldable pub free_slot : Queue → ℕ → Queue
free_slot q slot = record q {
  slots = update q.slots slot zero_task;
  free_stack = update q.free_stack q.free_top slot;
  free_top = q.free_top + 1;
}

-- `for (i = 0; i < n; i++) free_stack[i] = i;`
unfoldable pub fill_free_stack : ℕ → (ℕ → ℕ) → ℕ → ℕ
fill_free_stack zero f = f
fill_free_stack (suc n) f = update (fill_free_stack n f) n n

-- `for (i = 0; i < n; i++) links[i] = -1;`
unfoldable pub clear_links : ℕ → (ℕ → Link) → ℕ → Link
clear_links zero f = f
clear_links (suc n) f = update (clear_links n f) n none

-- A link that is zeroed names slot 0.
abbrev pub zeroed : Queue
zeroed = record {
  slots = λ i. zero_task;
  layer_head = λ i. some 0;
  layer_tail = λ i. some 0;
  slot_next = λ i. some 0;
  slot_prev = λ i. some 0;
  free_stack = λ i. 0;
  free_top = 0;
  nonempty_mask = 0;
  gen = λ i. 0;
  next_gen = 0;
  size = 0;
  next_seq = 0;
}

unfoldable pub init : Queue
unfolding fill_free_stack clear_links
init = record zeroed {
  free_top = max_items;
  free_stack = fill_free_stack max_items (λ i. 0);
  layer_head = clear_links num_priorities (λ i. some 0);
  layer_tail = clear_links num_priorities (λ i. some 0);
  nonempty_mask = 0;
}

-- What `pq_push` does to the queue once the guards hold; `slot` is what it takes off the stack.
unfoldable pub fill_slot : Queue → ℕ → ℕ → ℕ → Queue
fill_slot q slot fn arg = record q {
  free_top = q.free_top - 1;
  slots =
      update q.slots slot
        (record (q.slots slot) { fn = fn; arg = arg; seq = q.next_seq; quantum = 0; runtime = 0 });
  next_seq = u32 (q.next_seq + 1);
  gen = update q.gen slot q.next_gen;
  next_gen = u16 (q.next_gen + 1);
}

abbrev pub minus_one : ℕ
minus_one = 2 ^ 32 - 1

unfoldable pub push : Queue → ℕ → ℕ → ℕ → ℕ × Queue
unfolding fill_slot
push q priority fn arg =
    if out_of_layers priority || q.free_top == 0
    then (minus_one, q)
    else let slot = q.free_stack (q.free_top - 1) in
      let q₁ = append_to_layer (fill_slot q slot fn arg) slot priority in
      (make_handle (q₁.gen slot) slot, record q₁ { size = q₁.size + 1 })

-- The common end of `pop_layer_head` and `pq_remove`. `size--` runs only while a slot is linked.
unfoldable pub release : Queue → ℕ → Queue
release q slot = let q' = free_slot (unlink_slot q slot) slot in record q' { size = q'.size - 1 }

-- `none` is the -1, after which `*pq` and `*out` are as before.
unfoldable pub pop_layer_head : Queue → ℕ → Option (Task × Queue)
pop_layer_head q layer = elim (q.layer_head layer) [
  | none ↦ none
  | some slot ↦ some (q.slots slot, release q slot)
]

unfoldable pub pop : Queue → Option (Task × Queue)
pop q =
    if q.size == 0
    then none
    else if q.nonempty_mask == 0
    then none
    else pop_layer_head q (ctz 64 q.nonempty_mask)

unfoldable pub has_layer : Queue → ℕ → Bool
has_layer q layer = if out_of_layers layer then false else has_bit q.nonempty_mask layer

unfoldable pub pop_from_layer : Queue → ℕ → Option (Task × Queue)
pop_from_layer q layer =
    if out_of_layers layer
    then none
    else if has_bit q.nonempty_mask layer
    then pop_layer_head q layer
    else none

-- `true` is the return value 0, `false` is -1.
unfoldable pub update_priority : Queue → ℕ → ℕ → Bool × Queue
update_priority q h new_priority =
    let slot = handle_slot h in
    if out_of_layers new_priority
    then (false, q)
    else if not (handle_valid q h)
    then (false, q)
    else if (q.slots slot).priority == new_priority
    then (true, q)
    else (true, append_to_layer (unlink_slot q slot) slot new_priority)

unfoldable pub remove : Queue → ℕ → Bool × Queue
remove q h = if not (handle_valid q h) then (false, q) else (true, release q (handle_slot h))

unfoldable pub set_quantum : Queue → ℕ → ℕ → Queue
set_quantum q h quantum =
    let slot = handle_slot h in
    if not (handle_valid q h)
    then q
    else record q { slots = update q.slots slot (record (q.slots slot) { quantum = quantum }) }

unfoldable pub is_empty : Queue → Bool
is_empty q = q.size == 0

unfoldable pub count : Queue → ℕ
count q = q.size

-- The loop of `pq_count_layer` at link `s`; `none` means that the fuel ran out.
unfoldable pub count_from : ℕ → (ℕ → Link) → Link → ℕ → Option ℕ
count_from fuel next none n = some n
count_from zero next (some i) n = none
count_from (suc fuel) next (some i) n = count_from fuel next (next i) (n + 1)

unfoldable pub count_layer : ℕ → Queue → ℕ → Option ℕ
count_layer fuel q layer =
    if out_of_layers layer then some 0 else count_from fuel q.slot_next (q.layer_head layer) 0
