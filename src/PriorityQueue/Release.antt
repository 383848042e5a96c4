-- ===== src/PriorityQueue/Release.antt =====
-- The common end of `pop_layer_head` and `pq_remove`: the slot leaves its layer and becomes free.
use bailey_forbes_flinstone.Base.{
  ℕ, ◌+◌, ◌-◌, ◌≡◌, ◌≢◌, ◌<◌, refl, ap, true, false, inl, inr, List, ◌∷◌, ◌++◌, arith, mem, length,
  length-append, update, ◌==◌, mem-append, Distinct-drop, Bool-cases, ==→eq,
}
use bailey_forbes_flinstone.PriorityQueue.{
  Queue, unlink_slot, free_slot, zero_task, release, max_items, num_priorities,
}
use bailey_forbes_flinstone.PriorityQueue.Inv.{
  Layers, IsLayer, IsLinked, Holds, total-update, total,
}
use bailey_forbes_flinstone.PriorityQueue.Unlink.{
  unlink_slot-IsLinked, unlink_slot-rest, mem-middle,
}

free_slot-IsLinked :
    (q : Queue) (ls : Layers) (s n : ℕ)
    → ((k : ℕ) → k < num_priorities → mem s (ls k) ≡ false)
    → IsLinked q ls
    → IsLinked (record (free_slot q s) { size = n }) ls
unfolding free_slot
free_slot-IsLinked q ls s n fresh v = record {
  layer = λ l hl. record {
    links = (v.layer l hl).links;
    distinct = (v.layer l hl).distinct;
    owned = λ y h. ground (arith, (v.layer l hl).owned y h, fresh l hl);
  };
  mask_small = v.mask_small;
  mask_bit = v.mask_bit;
}

-- What a release leaves alone.
pub release-rest :
    (q : Queue) (s : ℕ)
    → let q' = release q s in
      (q'.slots ≡ update q.slots s zero_task)
      × (q'.free_stack ≡ update q.free_stack q.free_top s)
      × (q'.free_top ≡ q.free_top + 1)
      × (q'.gen ≡ q.gen)
      × (q'.next_gen ≡ q.next_gen)
      × (q'.size ≡ q.size - 1)
      × (q'.next_seq ≡ q.next_seq)
unfolding release free_slot
release-rest q s = let r = unlink_slot-rest q s in ground arith

module _ (q : Queue) (ls : Layers) (l s : ℕ) (us vs : List ℕ) (v : Holds q ls)
    (hl : l < num_priorities) (at_s : ls l ≡ us ++ (s ∷ vs)) where
  abbrev pub layers_released : Layers
  layers_released = update ls l (us ++ vs)

  own : IsLayer q l (us ++ (s ∷ vs))
  own = rw at_s at (v.linked.layer l hl)

  -- After the release the slot is in no layer.
  pub gone : (k : ℕ) → k < num_priorities → mem s (layers_released k) ≡ false
  gone k hk = elim (Bool-cases (l == k)) [
    | inl e ↦ rw e (Distinct-drop us s vs own.distinct).1
    | inr ne ↦
        rw ne (ground (arith, own.owned s (mem-middle us s vs), (v.linked.layer k hk).owned s))
  ]

  -- A slot of a layer is not on the stack of free slots.
  pub off-stack : (i : ℕ) → i < q.free_top → q.free_stack i ≢ s
  off-stack i h e = ground (arith, v.free.unused i l h hl, ap (mem s) at_s, mem-middle us s vs)

  pub unused-after :
      (i k : ℕ)
      → i < q.free_top
      → k < num_priorities
      → mem (q.free_stack i) (layers_released k) ≡ false
  unused-after i k h hk = ground (
    arith,
    v.free.unused i k h hk,
    v.free.unused i l h hl,
    ap (mem (q.free_stack i)) at_s,
    mem-append (q.free_stack i) us (s ∷ vs),
    mem-append (q.free_stack i) us vs,
  )

  pub kept :
      (y : ℕ) → (s == y) ≡ false → (k : ℕ) → mem y (ls k) ≡ true → mem y (layers_released k) ≡ true
  kept y ne k h = elim (Bool-cases (l == k)) [
    | inl e ↦
        let h' = rw (← ==→eq l k e, at_s) at h in
        rw e (ground (arith, mem-append y us (s ∷ vs), mem-append y us vs))
    | inr other ↦ rw other h
  ]

  pub sized-after : total layers_released + 1 ≡ total ls
  sized-after = omega (
    arith,
    total-update ls l (us ++ vs) hl,
    ap length at_s,
    length-append us (s ∷ vs),
    length-append us vs,
  )

  pub release-Holds : Holds (release q s) layers_released
  release-Holds =
      let (slots, stack, top, gen, next_gen, size, seq) = release-rest q s in
      record {
        linked = linked';
        sized = omega (arith, sized-after, v.sized);
        room = omega (arith, sized-after, v.sized, v.room);
        free = record {
          inside = λ i h. rw stack (inside' i (omega (arith, top)));
          apart = λ i j h k. rw stack (apart' i j h (omega (arith, top)));
          unused = λ i k h hk. rw stack (unused' i k (omega (arith, top)) hk);
        };
        live = rw slots live';
      }
    where
      live' :
          (y : ℕ)
          → y < max_items
          → (update q.slots s zero_task y).fn ≢ 0
          → ((update q.slots s zero_task y).priority < num_priorities)
            × (mem y (layers_released (update q.slots s zero_task y).priority) ≡ true)
      live' y h = elim (Bool-cases (s == y)) [
        | inl e ↦ rw e (λ ne. absurd (ne refl))
        | inr ne ↦ rw ne (λ f. let (a, b) = v.live y h f in (a, kept y ne (q.slots y).priority b))
      ]

      linked' : IsLinked (release q s) layers_released
      linked' =
          unfold release in
          free_slot-IsLinked (unlink_slot q s) layers_released s _ gone
            (unlink_slot-IsLinked q ls l s us vs v.linked hl at_s)

      inside' : (i : ℕ) → i < q.free_top + 1 → update q.free_stack q.free_top s i < max_items
      inside' i h = ground (arith, v.free.inside i, own.owned s (mem-middle us s vs))

      apart' :
          (i j : ℕ)
          → i < j
          → j < q.free_top + 1
          → update q.free_stack q.free_top s i ≢ update q.free_stack q.free_top s j
      apart' i j h k = ground (arith, v.free.apart i j h, off-stack i)

      unused' :
          (i k : ℕ)
          → i < q.free_top + 1
          → k < num_priorities
          → mem (update q.free_stack q.free_top s i) (layers_released k) ≡ false
      unused' i k h hk = elim (Bool-cases (q.free_top == i)) [
        | inl e ↦ rw e (gone k hk)
        | inr ne ↦ rw ne (unused-after i k (ground arith) hk)
      ]
