-- ===== src/PriorityQueue/Refine.antt =====
-- The linked slots, the free stack and the bitmap implement the lists of `Spec`.
use bailey_forbes_flinstone.Base.{
  ℕ, suc, ◌+◌, ◌-◌, ◌≡◌, ◌<◌, ◌∙◌, sym, ap, subst, refl, true, false, ◌||◌, inl, inr, List, [], ◌∷◌,
  ◌++◌, map, arith, leb, ◌==◌, update, if◌then◌else◌, mem, length, Bool-cases, map-append, Distinct,
  u32,
}
use bailey_forbes_flinstone.PriorityQueue.{
  Queue, Task, push, release, minus_one, out_of_layers, max_items, num_priorities,
}
use bailey_forbes_flinstone.PriorityQueue.Inv.{Layers, Holds}
use bailey_forbes_flinstone.PriorityQueue.Push.{
  taken, pushed, layers_pushed, push-fields, push-Holds,
}
use bailey_forbes_flinstone.PriorityQueue.Release.{layers_released, release-Holds, release-rest}
use bailey_forbes_flinstone.PriorityQueue.Spec
use bailey_forbes_flinstone.PriorityQueue.Spec.{State}

-- The queue `q` holds the tasks of `st`.
pub record Models (q : Queue) (st : State) : Type 0 where
  pub ls : Layers
  pub holds : Holds q ls
  pub tasks : (l : ℕ) → l < num_priorities → map q.slots (ls l) ≡ st.layers l
  pub seq : q.next_seq ≡ st.next_seq

map-congruence :
    (f g : ℕ → Task) (xs : List ℕ) → ((y : ℕ) → mem y xs ≡ true → f y ≡ g y) → map f xs ≡ map g xs
map-congruence f g [] h = refl
map-congruence f g (x ∷ xs) h =
    ground (arith, h x, map-congruence f g xs (λ y m. h y (ground arith)))

length-tasks : (f : ℕ → Task) (xs : List ℕ) → length (map f xs) ≡ length xs
length-tasks f [] = refl
length-tasks f (x ∷ xs) = ap suc (length-tasks f xs)

module _ (q : Queue) (st : State) (m : Models q st) where
  length-layer : (l : ℕ) → l < num_priorities → length (st.layers l) ≡ length (m.ls l)
  length-layer l h = ap length (sym (m.tasks l h)) ∙ length-tasks q.slots (m.ls l)

  pub count-eq : Spec.count st ≡ q.size
  count-eq = omega (
    arith,
    m.holds.sized,
    length-layer 0 (omega arith),
    length-layer 1 (omega arith),
    length-layer 2 (omega arith),
    length-layer 3 (omega arith),
  )

  pub full-eq : (q.free_top == 0) ≡ leb max_items (Spec.count st)
  full-eq = ground (arith, m.holds.room, count-eq)

  module _ (priority fn arg : ℕ) where
    pub push-refused :
        (out_of_layers priority || q.free_top == 0) ≡ true
        → (push q priority fn arg ≡ (minus_one, q)) × (Spec.push st priority fn arg ≡ (false, st))
    unfolding push Spec.push
    push-refused h = ground (arith, full-eq)

    abbrev pub new_task : Task
    new_task = record {
      fn = fn;
      arg = arg;
      priority = priority;
      seq = st.next_seq;
      quantum = 0;
      runtime = 0;
    }

    module _ (hp : priority < num_priorities) (room : q.size < max_items) where
      abbrev pub slot : ℕ
      slot = taken q m.ls m.holds priority fn arg hp room

      abbrev pub after : Queue
      after = pushed q m.ls m.holds priority fn arg hp room

      abbrev pub ls' : Layers
      ls' = layers_pushed q m.ls m.holds priority fn arg hp room

      stays : (l : ℕ) → l < num_priorities → map after.slots (m.ls l) ≡ st.layers l
      stays l h =
          let top : q.free_top - 1 < q.free_top = omega (arith, m.holds.room) in
          let fresh = m.holds.free.unused (q.free_top - 1) l top h in
          let others = (push-fields q m.ls m.holds priority fn arg hp room).6 in
          map-congruence after.slots q.slots (m.ls l)
            (λ y e. others y (λ same. ground (arith, fresh)))
          ∙ m.tasks l h

      new_slot : after.slots slot ≡ new_task
      new_slot =
          (push-fields q m.ls m.holds priority fn arg hp room).5
          ∙ ap (λ n. record new_task { seq = n }) m.seq

      tasks-push :
          (l : ℕ)
          → l < num_priorities
          → map after.slots (ls' l)
            ≡ update st.layers priority (st.layers priority ++ (new_task ∷ [])) l
      tasks-push l h = elim (Bool-cases (priority == l)) [
        | inl e ↦ rw (e, map-append, stays priority hp, new_slot) refl
        | inr ne ↦ rw ne (stays l h)
      ]

      pub push-Models : Models after (record {
        layers = update st.layers priority (st.layers priority ++ (new_task ∷ []));
        next_seq = u32 (st.next_seq + 1);
      })
      push-Models = record {
        ls = ls';
        holds = push-Holds q m.ls m.holds priority fn arg hp room;
        tasks = tasks-push;
        seq =
            (push-fields q m.ls m.holds priority fn arg hp room).3
            ∙ ap (λ (n : ℕ). u32 (n + 1)) m.seq;
      }

  -- Taking the head slot of a layer is taking the first task of its list.
  module _ (l s : ℕ) (xs : List ℕ) (hl : l < num_priorities) (at_s : m.ls l ≡ s ∷ xs) where
    abbrev pub released : Layers
    released = layers_released q m.ls l s [] xs m.holds hl at_s

    slots-apart :
        (k : ℕ)
        → k < num_priorities
        → (y : ℕ) → mem y (released k) ≡ true
        → (release q s).slots y ≡ q.slots y
    slots-apart k hk y h =
        let own = m.holds.linked.layer l hl in
        let d = subst (λ ys. Distinct ys) at_s own.distinct in
        let o = own.owned s (ap (mem s) at_s ∙ ground arith) in
        let r = (release-rest q s).0 in
        elim (Bool-cases (l == k)) [
          | inl e ↦
              let h' : mem y xs ≡ true = ap (λ b. mem y (if b then xs else m.ls k)) (sym e) ∙ h in
              ap (λ (f : ℕ → Task). f y) r ∙ ground arith
          | inr ne ↦
              let h' : mem y (m.ls k) ≡ true =
                ap (λ b. mem y (if b then xs else m.ls k)) (sym ne) ∙ h in
              let o' = (m.holds.linked.layer k hk).owned y h' in
              ap (λ (f : ℕ → Task). f y) r ∙ ground arith
        ]

    pub first_task : st.layers l ≡ q.slots s ∷ map q.slots xs
    first_task = sym (m.tasks l hl) ∙ ap (map q.slots) at_s

    pub release-Models :
        Models (release q s) (record st { layers = update st.layers l (map q.slots xs) })
    release-Models = record {
      ls = released;
      holds = release-Holds q m.ls l s [] xs m.holds hl at_s;
      tasks = λ k hk.
          map-congruence (release q s).slots q.slots (released k) (slots-apart k hk) ∙ kept k hk;
      seq = (release-rest q s).6 ∙ m.seq;
    }
      where
        kept :
            (k : ℕ)
            → k < num_priorities
            → map q.slots (released k) ≡ update st.layers l (map q.slots xs) k
        kept k hk = elim (Bool-cases (l == k)) [ inl e ↦ rw e refl | inr ne ↦ rw ne (m.tasks k hk) ]
