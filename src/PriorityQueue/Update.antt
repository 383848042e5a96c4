-- ===== src/PriorityQueue/Update.antt =====
-- `pq_remove`, `pq_update` and `pq_set_quantum` through a valid handle.
use bailey_forbes_flinstone.Base.{
  ℕ, ◌≡◌, ◌≢◌, ◌<◌, ◌∙◌, ap, subst, refl, Bool, true, false, not, ◌&&◌, inl, inr, List, [], ◌∷◌,
  ◌++◌, arith, ◌==◌, update, if◌then◌else◌, mem, mem-split, length-append, mem-append, Bool-cases,
  ==→eq, ==_self,
}
use bailey_forbes_flinstone.PriorityQueue.{
  Queue, Task, handle_slot, handle_valid, remove, update_priority, set_quantum, release,
  unlink_slot, append_to_layer, out_of_layers, max_items, num_priorities,
}
use bailey_forbes_flinstone.PriorityQueue.Inv.{Layers, Holds, total-update}
use bailey_forbes_flinstone.PriorityQueue.Unlink.{unlink_slot-IsLinked, unlink_slot-rest}
use bailey_forbes_flinstone.PriorityQueue.Append.{append_to_layer-IsLinked, append_to_layer-rest}
use bailey_forbes_flinstone.PriorityQueue.Release.{
  release-Holds, gone, kept, off-stack, unused-after, sized-after,
}

-- A valid handle names a slot of the layer of its priority.
pub handle_valid-live :
    (q : Queue) (ls : Layers) (h : ℕ)
    → Holds q ls
    → handle_valid q h ≡ true
    → let s = handle_slot h in
      let l = (q.slots s).priority in (s < max_items) × (l < num_priorities) × (mem s (ls l) ≡ true)
unfolding handle_valid
handle_valid-live q ls h v valid = ground (arith, v.live (handle_slot h))

-- The slot of the handle has left its layer.
abbrev pub Removed : Queue → Layers → ℕ → Bool × Queue → Type 0
Removed q ls h (ok, q') =
    let s = handle_slot h in
    let l = (q.slots s).priority in
    (ok ≡ true)
    × ((us : List ℕ) × (vs : List ℕ) × (ls l ≡ us ++ (s ∷ vs)) × Holds q' (update ls l (us ++ vs)))

-- On a well-formed queue `pq_remove` with a stale handle returns -1 and changes nothing; with a
-- valid one it returns 0, takes the handle's slot, wherever it stands, out of the list of its
-- layer, keeps the order of the others and leaves a well-formed queue.
pub remove_lem :
    (q : Queue) (ls : Layers) (h : ℕ)
    → Holds q ls
    → if handle_valid q h then Removed q ls h (remove q h) else (remove q h ≡ (false, q))
remove_lem q ls h v = elim (Bool-cases (handle_valid q h)) [
  | inl ok ↦
      let (small, low, inside) = handle_valid-live q ls h v ok in
      let s = handle_slot h in
      let l = (q.slots s).priority in
      let (us, vs, at_s) = mem-split s (ls l) inside in
      let e : remove q h ≡ (true, release q s) = unfold remove in rw ok refl in
      rw (ok, e) (refl, (us, vs, at_s, release-Holds q ls l s us vs v low at_s))
  | inr stale ↦
      let e : remove q h ≡ (false, q) = unfold remove in rw stale refl in rw (stale, e) refl
]

-- Moving the slot `s` of layer `l` to the end of layer `p`.
module _ (q : Queue) (ls : Layers) (l s p : ℕ) (us vs : List ℕ) (v : Holds q ls)
    (hl : l < num_priorities) (hp : p < num_priorities) (hs : s < max_items)
    (at_s : ls l ≡ us ++ (s ∷ vs)) where
  abbrev mid : Layers
  mid = update ls l (us ++ vs)

  abbrev pub layers_moved : Layers
  layers_moved = update mid p (mid p ++ (s ∷ []))

  abbrev pub moved : Queue
  moved = append_to_layer (unlink_slot q s) s p

  rest :
      (moved.slots ≡ update q.slots s (record (q.slots s) { priority = p }))
      × (moved.free_stack ≡ q.free_stack)
      × (moved.free_top ≡ q.free_top)
      × (moved.size ≡ q.size)
  rest =
      let (a, b, c, d, e, f, g) = unlink_slot-rest q s in
      let (a', b', c', d', e', f', g') = append_to_layer-rest (unlink_slot q s) s p in
      (
        a' ∙ ap (λ (w : ℕ → Task). update w s (record (w s) { priority = p })) a,
        b' ∙ b,
        c' ∙ c,
        f' ∙ f,
      )

  unused_moved :
      (i k : ℕ)
      → i < q.free_top
      → k < num_priorities
      → mem (q.free_stack i) (layers_moved k) ≡ false
  unused_moved i k h hk = elim (Bool-cases (p == k)) [
    | inl e ↦ rw e (
        ground (
          arith,
          mem-append (q.free_stack i) (mid p) (s ∷ []),
          unused-after q ls l s us vs v hl at_s i p h hp,
          off-stack q ls l s us vs v hl at_s i h,
        ))
    | inr ne ↦ rw ne (unused-after q ls l s us vs v hl at_s i k h hk)
  ]

  stays_in : (y k : ℕ) → mem y (mid k) ≡ true → mem y (layers_moved k) ≡ true
  stays_in y k h = elim (Bool-cases (p == k)) [
    | inl e ↦
        let h' = rw (← ==→eq p k e) at h in rw e (mem-append y (mid p) (s ∷ []) ∙ ground arith)
    | inr ne ↦ rw ne h
  ]

  live_moved :
      (y : ℕ)
      → y < max_items
      → (update q.slots s (record (q.slots s) { priority = p }) y).fn ≢ 0
      → let k = (update q.slots s (record (q.slots s) { priority = p }) y).priority in
        (k < num_priorities) × (mem y (layers_moved k) ≡ true)
  live_moved y h = elim (Bool-cases (s == y)) [
    | inl e ↦
        rw (e, ← ==→eq s y e) (λ f. (hp, rw ==_self (mem-append s (mid p) (s ∷ []) ∙ ground arith)))
    | inr ne ↦ rw ne (λ f.
        let (a, b) = v.live y h f in
        (
          a,
          stays_in y (q.slots y).priority
              (kept q ls l s us vs v hl at_s y ne (q.slots y).priority b),
        ))
  ]

  pub move-Holds : Holds moved layers_moved
  move-Holds =
      let (slots, stack, top, size) = rest in
      record {
        linked =
            append_to_layer-IsLinked (unlink_slot q s) mid p s
              (unlink_slot-IsLinked q ls l s us vs v.linked hl at_s) hp hs
              (gone q ls l s us vs v hl at_s);
        sized = omega (
          arith,
          size,
          v.sized,
          sized-after q ls l s us vs v hl at_s,
          total-update mid p (mid p ++ (s ∷ [])) hp,
          length-append (mid p) (s ∷ []),
        );
        room = omega (arith, v.room);
        free = record {
          inside = λ i h. rw stack (v.free.inside i (omega (arith, top)));
          apart = λ i j h k. rw stack (v.free.apart i j h (omega (arith, top)));
          unused = λ i k h hk. rw stack (unused_moved i k (omega (arith, top)) hk);
        };
        live = rw slots live_moved;
      }

-- The slot of the handle is the last of layer `p`, unless that was its layer.
abbrev pub Moved : Queue → Layers → ℕ → ℕ → Bool × Queue → Type 0
Moved q ls h p (ok, q') =
    let s = handle_slot h in
    let l = (q.slots s).priority in
    (ok ≡ true)
    × (if l == p
        then (q' ≡ q)
        else ((us : List ℕ) × (vs : List ℕ) × (ls l ≡ us ++ (s ∷ vs))
            × Holds q' (update (update ls l (us ++ vs)) p (ls p ++ (s ∷ [])))))

-- On a well-formed queue `pq_update` with a stale handle or a bad priority returns -1 and changes
-- nothing. Otherwise it returns 0: where the slot has the priority already nothing changes, and
-- else the slot leaves its layer and becomes the last of the new one, the others keep their order,
-- and the queue is well-formed.
pub update_priority_lem :
    (q : Queue) (ls : Layers) (h p : ℕ)
    → Holds q ls
    → if not (out_of_layers p) && handle_valid q h
      then Moved q ls h p (update_priority q h p)
      else (update_priority q h p ≡ (false, q))
update_priority_lem q ls h p v = elim (Bool-cases (out_of_layers p)) [
  | inl bad ↦
      let e : update_priority q h p ≡ (false, q) = unfold update_priority in rw bad refl in
      rw (bad, e) refl
  | inr good ↦ elim (Bool-cases (handle_valid q h)) [
    | inr stale ↦
        let e : update_priority q h p ≡ (false, q) =
          unfold update_priority in rw (good, stale) refl in
        rw (good, stale, e) refl
    | inl ok ↦ rw (good, ok) (valid good ok)
  ]
]
  where
    valid :
        out_of_layers p ≡ false → handle_valid q h ≡ true → Moved q ls h p (update_priority q h p)
    valid good ok =
        let (small, low, inside) = handle_valid-live q ls h v ok in
        let s = handle_slot h in
        let l = (q.slots s).priority in
        let (us, vs, at_s) = mem-split s (ls l) inside in
        let hp : p < num_priorities = ground arith in
        elim (Bool-cases (l == p)) [
          | inl same ↦
              let e : update_priority q h p ≡ (true, q) =
                unfold update_priority in rw (good, ok, same) refl in
              rw (e, same) (refl, refl)
          | inr ne ↦
              let e : update_priority q h p ≡ (true, moved q ls l s p us vs v low hp small at_s) =
                unfold update_priority in rw (good, ok, ne) refl in
              let w = move-Holds q ls l s p us vs v low hp small at_s in
              let w' =
                subst
                  (λ b. Holds (moved q ls l s p us vs v low hp small at_s) (
                    update (update ls l (us ++ vs)) p ((if b then us ++ vs else ls p) ++ (s ∷ []))))
                  ne w in
              rw (e, ne) (refl, (us, vs, at_s, w'))
        ]

-- `pq_set_quantum` leaves a well-formed queue well-formed, with the same lists; of all slots only
-- the handle's changes, in its quantum alone, and only if the handle is valid.
pub set_quantum_lem :
    (q : Queue) (ls : Layers) (h quantum : ℕ)
    → Holds q ls
    → Holds (set_quantum q h quantum) ls
      × ((y : ℕ)
          → (set_quantum q h quantum).slots y ≡ (
              if handle_valid q h && handle_slot h == y
              then record (q.slots y) { quantum = quantum }
              else q.slots y))
unfolding set_quantum
set_quantum_lem q ls h quantum v = (
  elim (Bool-cases (handle_valid q h)) [ inr stale ↦ rw stale v | inl ok ↦ rw ok changed ],
  λ y. ground (arith, ==→eq (handle_slot h) y),
)
  where
    s : ℕ
    s = handle_slot h

    abbreviated :
        (y : ℕ)
        → ((update q.slots s (record (q.slots s) { quantum = quantum }) y).fn ≡ (q.slots y).fn)
          × ((update q.slots s (record (q.slots s) { quantum = quantum }) y).priority
              ≡ (q.slots y).priority)
    abbreviated y = ground (arith, ==→eq s y)

    changed :
        Holds (record q { slots = update q.slots s (record (q.slots s) { quantum = quantum }) }) ls
    changed = record {
      linked = record {
        layer = λ l hl. record {
          links = (v.linked.layer l hl).links;
          distinct = (v.linked.layer l hl).distinct;
          owned = λ y m. rw (abbreviated y).1 ((v.linked.layer l hl).owned y m);
        };
        mask_small = v.linked.mask_small;
        mask_bit = v.linked.mask_bit;
      };
      sized = v.sized;
      room = v.room;
      free = record { inside = v.free.inside; apart = v.free.apart; unused = v.free.unused };
      live = λ y hy. rw ((abbreviated y).0, (abbreviated y).1) (v.live y hy);
    }
