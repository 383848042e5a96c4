-- ===== src/PriorityQueue/Handle.antt =====
-- Handles: which ones `handle_valid` accepts.
use bailey_forbes_flinstone.Base.{
  ℕ, refl, inl, inr, Bool-cases, ◌^◌, ◌≡◌, ◌≢◌, ◌<◌, ◌∙◌, Bool, true, false, arith, ltb, leb, ◌==◌,
  if◌then◌else◌,
}
use bailey_forbes_flinstone.PriorityQueue.{
  Queue, push, make_handle, handle_slot, handle_gen, handle_valid, is_negative, remove,
  update_priority, set_quantum, out_of_layers, max_items, num_priorities,
}
use bailey_forbes_flinstone.PriorityQueue.Inv.{Layers, Holds}
use bailey_forbes_flinstone.PriorityQueue.Push.{taken, push-fields, push-gen, taken-lt}
use bailey_forbes_flinstone.PriorityQueue.Release.{release-rest}

-- A handle gives back the slot and the generation that it was made of, and is negative exactly
-- when the generation has its top bit set.
make_handle_parts :
    (g s : ℕ)
    → g < 2 ^ 16
    → s < max_items
    → (handle_slot (make_handle g s) ≡ s)
      × (handle_gen (make_handle g s) ≡ g)
      × (is_negative (make_handle g s) ≡ leb (2 ^ 15) g)
unfolding make_handle handle_slot handle_gen
make_handle_parts g s hg hs = (omega arith, omega arith, ground arith)

handle_valid-eq :
    (q : Queue) (h s g : ℕ) (n : Bool)
    → handle_slot h ≡ s
    → handle_gen h ≡ g
    → is_negative h ≡ n
    → s < max_items
    → handle_valid q h ≡ (if n then false else if (q.slots s).fn == 0 then false else q.gen s == g)
unfolding handle_valid
handle_valid-eq q h s g n es eg en hs = ground arith

-- The handle that `pq_push` returns for a function that is not NULL is valid exactly while the
-- generation counter is below 2 ^ 15; from there on the handle is negative, and refused.
pub handle_valid-push :
    (q : Queue) (ls : Layers) (v : Holds q ls) (priority fn arg : ℕ)
    → priority < num_priorities
    → q.size < max_items
    → fn ≢ 0
    → q.next_gen < 2 ^ 16
    → let (h, q') = push q priority fn arg in handle_valid q' h ≡ ltb q.next_gen (2 ^ 15)
handle_valid-push q ls v priority fn arg hp room nz hg =
    let s = taken q ls v priority fn arg hp room in
    let (stack, top, sized, seq, handle, task, others) =
      push-fields q ls v priority fn arg hp room in
    let hs = taken-lt q ls v priority fn arg hp room in
    let (a, b, c) = make_handle_parts q.next_gen s hg hs in
    rw handle (
      handle_valid-eq (push q priority fn arg).1 (make_handle q.next_gen s) s q.next_gen
        (leb (2 ^ 15) q.next_gen) a b c hs
      ∙ rw (task, push-gen q ls v priority fn arg hp room) (ground arith))

-- The calls that take a handle refuse it and change nothing.
abbrev pub Refused : Queue → ℕ → Type 0
Refused q h =
    (remove q h ≡ (false, q))
    × ((priority : ℕ) → update_priority q h priority ≡ (false, q))
    × ((quantum : ℕ) → set_quantum q h quantum ≡ q)

stale-Refused : (q : Queue) (h : ℕ) → handle_valid q h ≡ false → Refused q h
stale-Refused q h stale = (
  (unfold remove in rw stale refl),
  (λ priority. elim (Bool-cases (out_of_layers priority)) [
    | inl e ↦ unfold update_priority in rw e refl
    | inr e ↦ unfold update_priority in rw (e, stale) refl
  ]),
  (λ quantum. unfold set_quantum in rw stale refl),
)

-- In the queue that `pq_remove` of a valid handle leaves, the handle is not valid, and `pq_remove`,
-- `pq_update` with any priority and `pq_set_quantum` refuse it and change nothing.
pub handle_valid-remove :
    (q : Queue) (h : ℕ)
    → handle_valid q h ≡ true
    → (handle_valid (remove q h).1 h ≡ false) × Refused (remove q h).1 h
handle_valid-remove q h valid = (stale, stale-Refused (remove q h).1 h stale)
  where
    stale : handle_valid (remove q h).1 h ≡ false
    stale =
        let slots = (release-rest q (handle_slot h)).0 in
        unfold remove in unfold handle_valid in ground (arith)
