-- ===== src/PriorityQueue/Pop.antt =====
-- `pq_pop` and `pq_pop_from_layer` against `Spec`.
use bailey_forbes_flinstone.Base.{
  ℕ, zero, suc, ◌≡◌, ◌≢◌, ◌<◌, ◌∙◌, sym, ap, subst, refl, true, false, inl, inr, Option, none, some,
  List, [], ◌∷◌, map, arith, ◌==◌, update, if◌then◌else◌, length, Bool-cases, ==→eq,
}
use bailey_forbes_flinstone.PriorityQueue.{
  Queue, Task, pop, pop_layer_head, pop_from_layer, release, out_of_layers, ctz, has_bit,
  num_priorities,
}
use bailey_forbes_flinstone.PriorityQueue.Mask.{ctz_lem, has_bit_zero}
use bailey_forbes_flinstone.PriorityQueue.Segment.{Segment}
use bailey_forbes_flinstone.PriorityQueue.Inv.{is_nil}
use bailey_forbes_flinstone.PriorityQueue.Refine.{Models, count-eq, first_task, release-Models}
use bailey_forbes_flinstone.PriorityQueue.Spec
use bailey_forbes_flinstone.PriorityQueue.Spec.{State}

-- Two pops give the same task and leave a queue that holds the specified tasks, or both give none.
abbrev pub Agree : Option (Task × Queue) → Option (Task × State) → Type 0
Agree none none = Unit
Agree none (some r) = ⊥
Agree (some r) none = ⊥
Agree (some (t, q)) (some (t', st)) = (t ≡ t') × Models q st

module _ (q : Queue) (st : State) (m : Models q st) where
  pop_layer_head-Agree :
      (l : ℕ)
      → l < num_priorities
      → (xs : List ℕ) → m.ls l ≡ xs
      → Agree (pop_layer_head q l) (Spec.pop_layer st l)
  unfolding pop_layer_head Spec.pop_layer
  pop_layer_head-Agree l hl [] e =
      let own = m.holds.linked.layer l hl in
      let links =
        subst (λ ys. Segment q.slot_next q.slot_prev none (q.layer_head l) ys none (q.layer_tail l))
          e own.links in
      let t = sym (m.tasks l hl) ∙ ap (map q.slots) e in
      let p : pop_layer_head q l ≡ none = rw (links.0, pop_layer_head) refl in
      let p' : Spec.pop_layer st l ≡ none = rw (t, Spec.pop_layer) refl in rw (p, p') tt
  pop_layer_head-Agree l hl (s ∷ xs) e =
      let own = m.holds.linked.layer l hl in
      let links =
        subst (λ ys. Segment q.slot_next q.slot_prev none (q.layer_head l) ys none (q.layer_tail l))
          e own.links in
      let p : pop_layer_head q l ≡ some (q.slots s, release q s) =
        rw (links.0, pop_layer_head) refl in
      let p' : Spec.pop_layer st l
          ≡ some (q.slots s, record st { layers = update st.layers l (map q.slots xs) }) =
        rw (first_task q st m l s xs hl e, Spec.pop_layer) refl in
      rw (p, p') (refl, release-Models q st m l s xs hl e)

  empty-layer : (l : ℕ) → l < num_priorities → has_bit q.nonempty_mask l ≡ false → st.layers l ≡ []
  empty-layer l hl h = nil (m.ls l) (m.tasks l hl) (ground (arith, m.holds.linked.mask_bit l hl))
    where
      nil : (xs : List ℕ) → map q.slots xs ≡ st.layers l → is_nil xs ≡ true → st.layers l ≡ []
      nil [] e h = sym e
      nil (x ∷ xs) e h = absurd (ground arith)

  pop_layer_head-some :
      (l : ℕ)
      → l < num_priorities
      → has_bit q.nonempty_mask l ≡ true
      → (task : Task) × (rest : List Task) × (st.layers l ≡ task ∷ rest)
  pop_layer_head-some l hl h =
      cons (m.ls l) (m.tasks l hl) (ground (arith, m.holds.linked.mask_bit l hl))
    where
      cons :
          (xs : List ℕ)
          → map q.slots xs ≡ st.layers l
          → is_nil xs ≡ false
          → (task : Task) × (rest : List Task) × (st.layers l ≡ task ∷ rest)
      cons [] e h = absurd (ground arith)
      cons (x ∷ xs) e h = (q.slots x, map q.slots xs, sym e)

-- The scan of the layers stops at the first one that holds a task.
scan_first :
    (st : State) (c : ℕ) (task : Task) (rest : List Task)
    → c < num_priorities
    → ((j : ℕ) → j < c → st.layers j ≡ [])
    → st.layers c ≡ task ∷ rest
    → Spec.pop st ≡ Spec.pop_layer st c
unfolding Spec.pop
scan_first st zero task rest h below at_c = ground arith
scan_first st (suc zero) task rest h below at_c = ground (arith, below 0)
scan_first st (suc (suc zero)) task rest h below at_c = ground (arith, below 0, below 1)
scan_first st (suc (suc (suc zero))) task rest h below at_c =
    ground (arith, below 0, below 1, below 2)
scan_first st (suc (suc (suc (suc c)))) task rest h below at_c = absurd (omega arith)

scan_empty : (st : State) → ((j : ℕ) → j < num_priorities → st.layers j ≡ []) → Spec.pop st ≡ none
unfolding Spec.pop
scan_empty st below = ground (arith, below 0, below 1, below 2, below 3)

module _ (q : Queue) (st : State) (m : Models q st) where
  all-empty : q.nonempty_mask ≡ 0 → (l : ℕ) → l < num_priorities → st.layers l ≡ []
  all-empty e l hl = empty-layer q st m l hl (rw e (has_bit_zero l hl))

  size-zero : q.size ≡ 0 → (l : ℕ) → l < num_priorities → st.layers l ≡ []
  size-zero e l hl = nil (st.layers l) (four l hl)
    where
      nil : (xs : List Task) → length xs ≡ 0 → xs ≡ []
      nil [] h = refl
      nil (x ∷ xs) h = absurd (omega arith)

      four : (k : ℕ) → k < num_priorities → length (st.layers k) ≡ 0
      four zero h = omega (arith, count-eq q st m)
      four (suc zero) h = omega (arith, count-eq q st m)
      four (suc (suc zero)) h = omega (arith, count-eq q st m)
      four (suc (suc (suc zero))) h = omega (arith, count-eq q st m)
      four (suc (suc (suc (suc k)))) h = absurd (omega arith)

  -- `pq_pop` gives the oldest task of the most urgent layer that has one, and leaves the others.
  pub pop-Agree : Agree (pop q) (Spec.pop st)
  unfolding pop
  pop-Agree = elim (Bool-cases (q.size == 0)) [
    | inl e ↦ rw (e, scan_empty st (size-zero (==→eq _ _ e))) tt
    | inr some_tasks ↦ elim (Bool-cases (q.nonempty_mask == 0)) [
      | inl e ↦ rw (some_tasks, e, scan_empty st (all-empty (==→eq _ _ e))) tt
      | inr ne ↦ rw (some_tasks, ne) (found (ground arith))
    ]
  ]
    where
      found : q.nonempty_mask ≢ 0 → Agree (pop_layer_head q (ctz 64 q.nonempty_mask)) (Spec.pop st)
      found nz =
          let c = ctz 64 q.nonempty_mask in
          let small = m.holds.linked.mask_small in
          let (low, bit, x) = ctz_lem q.nonempty_mask 0 small nz (omega arith) in
          let (task, rest, at_c) = pop_layer_head-some q st m c low bit in
          rw
            (scan_first st c task rest low
              (λ j h.
                empty-layer q st m j (omega arith)
                  ((ctz_lem q.nonempty_mask j small nz (omega arith)).2 h))
              at_c)
            (pop_layer_head-Agree q st m c low (m.ls c) refl)

  -- `pq_pop_from_layer` gives the oldest task of the layer, if the layer is one and has a task.
  pub pop_from_layer-Agree : (l : ℕ) → Agree (pop_from_layer q l) (Spec.pop_from_layer st l)
  unfolding pop_from_layer Spec.pop_from_layer
  pop_from_layer-Agree l = elim (Bool-cases (out_of_layers l)) [
    | inl e ↦ rw e tt
    | inr e ↦ rw e (inside (ground arith))
  ]
    where
      inside :
          l < num_priorities
          → Agree
              (if has_bit q.nonempty_mask l then pop_layer_head q l else none)
              (Spec.pop_layer st l)
      inside hl = elim (Bool-cases (has_bit q.nonempty_mask l)) [
        | inl b ↦ rw b (pop_layer_head-Agree q st m l hl (m.ls l) refl)
        | inr b ↦
            let p' : Spec.pop_layer st l ≡ none =
              rw (empty-layer q st m l hl b, Spec.pop_layer) refl in
            rw (b, p') tt
      ]
