-- ===== src/PriorityQueue/Push.antt =====
-- `pq_push` on a well-formed queue.
use bailey_forbes_flinstone.Base.{
  ℕ, ◌∙◌, sym, subst, ◌+◌, ◌-◌, ◌≡◌, ◌≢◌, ◌<◌, refl, ap, true, false, inl, inr, [], ◌∷◌, ◌++◌,
  arith, mem, length-append, update, ◌==◌, mem-append, Bool-cases, ==→eq, ==_self, u32,
}
use bailey_forbes_flinstone.PriorityQueue.{
  Queue, append_to_layer, fill_slot, push, make_handle, max_items, num_priorities,
}
use bailey_forbes_flinstone.PriorityQueue.Inv.{Layers, IsLinked, Holds, total-update}
use bailey_forbes_flinstone.PriorityQueue.Append.{append_to_layer-IsLinked, append_to_layer-rest}

-- A slot in no layer may be filled: the layers are linked as before.
fill_slot-IsLinked :
    (q : Queue) (ls : Layers) (s fn arg : ℕ)
    → ((k : ℕ) → k < num_priorities → mem s (ls k) ≡ false)
    → IsLinked q ls
    → IsLinked (fill_slot q s fn arg) ls
unfolding fill_slot
fill_slot-IsLinked q ls s fn arg fresh v = record {
  layer = λ l hl. record {
    links = (v.layer l hl).links;
    distinct = (v.layer l hl).distinct;
    owned = λ y h. ground (arith, (v.layer l hl).owned y h, fresh l hl);
  };
  mask_small = v.mask_small;
  mask_bit = v.mask_bit;
}

module _ (q : Queue) (ls : Layers) (v : Holds q ls) (priority fn arg : ℕ)
    (hp : priority < num_priorities) (free : q.size < max_items) where
  -- The slot that `pq_push` takes, and the queue that it leaves.
  abbrev pub taken : ℕ
  taken = q.free_stack (q.free_top - 1)

  abbrev pub pushed : Queue
  pushed = (push q priority fn arg).1

  abbrev pub layers_pushed : Layers
  layers_pushed = update ls priority (ls priority ++ (taken ∷ []))

  top : q.free_top - 1 < q.free_top
  top = omega (arith, v.room)

  fresh : (k : ℕ) → k < num_priorities → mem taken (ls k) ≡ false
  fresh k hk = v.free.unused (q.free_top - 1) k top hk

  abbrev q₁ : Queue
  q₁ = append_to_layer (fill_slot q taken fn arg) taken priority

  push-eq :
      push q priority fn arg ≡ (make_handle (q₁.gen taken) taken, record q₁ { size = q₁.size + 1 })
  unfolding push
  push-eq = ground (arith, v.room)

  linked₁ : IsLinked q₁ layers_pushed
  linked₁ =
      append_to_layer-IsLinked (fill_slot q taken fn arg) ls priority taken
        (fill_slot-IsLinked q ls taken fn arg fresh v.linked) hp
        (v.free.inside (q.free_top - 1) top) fresh

  -- The fields after a push, with the helpers shut.
  pub push-fields :
      (pushed.free_stack ≡ q.free_stack)
      × (pushed.free_top ≡ q.free_top - 1)
      × (pushed.size ≡ q.size + 1)
      × (pushed.next_seq ≡ u32 (q.next_seq + 1))
      × ((push q priority fn arg).0 ≡ make_handle q.next_gen taken)
      × (pushed.slots taken ≡ record {
        fn = fn;
        arg = arg;
        priority = priority;
        seq = q.next_seq;
        quantum = 0;
        runtime = 0;
      })
      × ((y : ℕ) → y ≢ taken → pushed.slots y ≡ q.slots y)
  unfolding fill_slot
  push-fields =
      let (a, b, c, d, g, z, n) = append_to_layer-rest (fill_slot q taken fn arg) taken priority in
      (
        ap (λ (o : ℕ × Queue). o.1.free_stack) push-eq ∙ b,
        ap (λ (o : ℕ × Queue). o.1.free_top) push-eq ∙ c,
        ap (λ (o : ℕ × Queue). o.1.size) push-eq ∙ ap (λ (k : ℕ). k + 1) z,
        ap (λ (o : ℕ × Queue). o.1.next_seq) push-eq ∙ n,
        rw push-eq (rw d (rw ==_self refl)),
        ap (λ (o : ℕ × Queue). o.1.slots taken) push-eq ∙ rw a (rw ==_self refl),
        λ y ne. ap (λ (o : ℕ × Queue). o.1.slots y) push-eq ∙ rw a (ground arith),
      )

  -- `pq_push` with room left keeps the queue well-formed: the new slot is last in its layer.
  pub push-Holds : Holds pushed layers_pushed
  push-Holds =
      let (stack, top_less, sized, seq, handle, task, others) = push-fields in
      record {
        linked =
            subst (λ (o : ℕ × Queue). IsLinked o.1 layers_pushed) (sym push-eq) (resized linked₁);
        sized = omega (
          arith,
          total-update ls priority (ls priority ++ (taken ∷ [])) hp,
          length-append (ls priority) (taken ∷ []),
          v.sized,
        );
        room = omega (arith, v.room);
        free = record {
          inside = λ i h. rw stack (v.free.inside i (omega (arith, top_less)));
          apart = λ i j h k. rw stack (v.free.apart i j h (omega (arith, top_less)));
          unused = λ i l h hl. rw stack (unused_after i l (omega (arith, top_less)) hl);
        };
        live = live_after;
      }
    where
      live_after :
          (y : ℕ)
          → y < max_items
          → (pushed.slots y).fn ≢ 0
          → ((pushed.slots y).priority < num_priorities)
            × (mem y (layers_pushed (pushed.slots y).priority) ≡ true)
      live_after y h ne =
          let (stack, top_less, sized, seq, handle, task, others) = push-fields in
          elim (Bool-cases (taken == y)) [
            | inl e ↦
                let here = rw (==→eq taken y e) at task in
                rw here (hp, rw ==_self (ground (arith, mem-append y (ls priority) (taken ∷ []))))
            | inr apart ↦
                let there = others y (ground arith) in
                let ne' = rw there at ne in
                let (a, b) = v.live y h ne' in
                rw there (a, ground (arith, mem-append y (ls priority) (taken ∷ [])))
          ]

      resized :
          IsLinked q₁ layers_pushed → IsLinked (record q₁ { size = q₁.size + 1 }) layers_pushed
      resized w = record {
        layer = λ l hl. record {
          links = (w.layer l hl).links;
          distinct = (w.layer l hl).distinct;
          owned = (w.layer l hl).owned;
        };
        mask_small = w.mask_small;
        mask_bit = w.mask_bit;
      }

      unused_after :
          (i l : ℕ)
          → i < q.free_top - 1
          → l < num_priorities
          → mem (q.free_stack i) (layers_pushed l) ≡ false
      unused_after i l h hl = ground (
        arith,
        v.free.unused i l (omega arith) hl,
        v.free.unused i priority (omega arith) hp,
        v.free.apart i (q.free_top - 1) h (omega arith),
        mem-append (q.free_stack i) (ls priority) (taken ∷ []),
      )

  pub push-gen : pushed.gen taken ≡ q.next_gen
  unfolding fill_slot
  push-gen =
      let d = (append_to_layer-rest (fill_slot q taken fn arg) taken priority).3 in
      ap (λ (o : ℕ × Queue). o.1.gen taken) push-eq ∙ rw d (rw ==_self refl)

  pub taken-lt : taken < max_items
  taken-lt = v.free.inside (q.free_top - 1) top
