-- ===== src/PriorityQueue/Append.antt =====
-- `append_to_layer`: a slot in no layer becomes the last of the layer that it is given.
use bailey_forbes_flinstone.Base.{
  ℕ, ◌≡◌, ◌≢◌, ◌<◌, refl, true, false, not, none, some, inl, inr, List, [], ◌∷◌, ◌++◌, arith, mem,
  update, ◌==◌, mem-append, Distinct-snoc, Bool-cases, ==→eq, ==_self,
}
use bailey_forbes_flinstone.PriorityQueue.{
  Queue, Link, append_to_layer, link_next, set_bit, has_bit, max_items, num_priorities,
}
use bailey_forbes_flinstone.PriorityQueue.Segment.{Segment-next, Segment-prev, Segment-join}
use bailey_forbes_flinstone.PriorityQueue.Mask.{set_bit_lem}
use bailey_forbes_flinstone.PriorityQueue.Inv.{Layers, is_nil, IsLayer, IsLinked}
use bailey_forbes_flinstone.PriorityQueue.Relink.{Run, link_next-before, link_next-other, last-mem}

-- The links of the new last slot, set before the run is led to it.
abbrev placed : Queue → ℕ → Link → Queue
placed q s t = record q {
  slot_prev = update q.slot_prev s t;
  slot_next = update q.slot_next s none;
}

append_to_layer-links :
    (q : Queue) (s l : ℕ)
    → let q' = append_to_layer q s l in
      let r = link_next (placed q s (q.layer_tail l)) l (q.layer_tail l) (some s) in
      (q'.slot_next ≡ r.slot_next)
      × (q'.slot_prev ≡ r.slot_prev)
      × (q'.layer_head ≡ r.layer_head)
      × (q'.layer_tail ≡ update q.layer_tail l (some s))
      × (q'.nonempty_mask ≡ set_bit q.nonempty_mask l)
unfolding append_to_layer
append_to_layer-links q s l = ground arith

-- What `append_to_layer` leaves alone, and the priority that it sets.
pub append_to_layer-rest :
    (q : Queue) (s l : ℕ)
    → let q' = append_to_layer q s l in
      (q'.slots ≡ update q.slots s (record (q.slots s) { priority = l }))
      × (q'.free_stack ≡ q.free_stack)
      × (q'.free_top ≡ q.free_top)
      × (q'.gen ≡ q.gen)
      × (q'.next_gen ≡ q.next_gen)
      × (q'.size ≡ q.size)
      × (q'.next_seq ≡ q.next_seq)
unfolding append_to_layer
append_to_layer-rest q s l = ground arith

placed-Run :
    (q : Queue) (s : ℕ) (t p h e k : Link) (xs : List ℕ)
    → mem s xs ≡ false
    → Run q p h xs e k
    → Run (placed q s t) p h xs e k
placed-Run q s t p h e k xs o r =
    Segment-next q.slot_next (update q.slot_prev s t) s none p h xs e k o
      (Segment-prev q.slot_next q.slot_prev s t p h xs e k o r)

link_next-at :
    (q : Queue) (l : ℕ) (p : Link) (n : Link) (s : ℕ)
    → ((y : ℕ) → p ≡ some y → y ≢ s)
    → (link_next q l p n).slot_next s ≡ q.slot_next s
unfolding link_next
link_next-at q l none n s o = refl
link_next-at q l (some y) n s o = ground (arith, o y)

link_next-prev : (q : Queue) (l : ℕ) (p n : Link) → (link_next q l p n).slot_prev ≡ q.slot_prev
unfolding link_next
link_next-prev q l none n = refl
link_next-prev q l (some p) n = refl

link_next-head :
    (q : Queue) (l k : ℕ) (p n : Link)
    → (l == k) ≡ false
    → (link_next q l p n).layer_head k ≡ q.layer_head k
unfolding link_next
link_next-head q l k none n ne = ground arith
link_next-head q l k (some p) n ne = refl

is_nil-snoc : (xs : List ℕ) (s : ℕ) → is_nil (xs ++ (s ∷ [])) ≡ false
is_nil-snoc [] s = refl
is_nil-snoc (x ∷ xs) s = refl

module _ (q : Queue) (ls : Layers) (l s : ℕ) (v : IsLinked q ls) (hl : l < num_priorities)
    (hs : s < max_items) (fresh : (k : ℕ) → k < num_priorities → mem s (ls k) ≡ false) where
  abbrev t : Link
  t = q.layer_tail l

  abbrev r : Queue
  r = link_next (placed q s t) l t (some s)

  own : IsLayer q l (ls l)
  own = v.layer l hl

  tail-mem : (y : ℕ) → t ≡ some y → mem y (ls l) ≡ true
  tail-mem y e = last-mem q (q.layer_head l) none t (ls l) y own.distinct own.links e

  tail-ne : (y : ℕ) → t ≡ some y → y ≢ s
  tail-ne y e same = ground (arith, tail-mem y e, fresh l hl)

  led : Run r none (r.layer_head l) (ls l) (some s) t
  led =
      link_next-before (placed q s t) l t (some s) none (ls l) own.distinct
        (placed-Run q s t none (q.layer_head l) none t (ls l) (fresh l hl) own.links)

  single : Run r t (some s) (s ∷ []) none (some s)
  single =
      let a = link_next-at (placed q s t) l t (some s) s tail-ne in
      let b = link_next-prev (placed q s t) l t (some s) in
      (refl, rw b (ground arith), (rw a (ground arith), refl))

  extended : Run r none (r.layer_head l) (ls l ++ (s ∷ [])) none (some s)
  extended =
      Segment-join r.slot_next r.slot_prev none (r.layer_head l) (ls l) (s ∷ []) (some s) t none
        (some s) led single

  abbrev q' : Queue
  q' = append_to_layer q s l

  abbrev pub with_last : Layers
  with_last = update ls l (ls l ++ (s ∷ []))

  Run-own : Run q' none (q'.layer_head l) (ls l ++ (s ∷ [])) none (q'.layer_tail l)
  Run-own =
      let (a, b, c, d, m) = append_to_layer-links q s l in rw (a, b, c, d) (rw ==_self extended)

  Run-other :
      (k : ℕ)
      → k < num_priorities
      → (l == k) ≡ false
      → Run q' none (q'.layer_head k) (ls k) none (q'.layer_tail k)
  Run-other k hk ne =
      let (a, b, c, d, m) = append_to_layer-links q s l in
      let h = link_next-head (placed q s t) l k t (some s) ne in
      rw (a, b, c, d)
        (rw (ne, h)
          (link_next-other (placed q s t) l t (some s) none (q.layer_head k) none (q.layer_tail k)
            (ls k) (λ y e. outside y e)
            (placed-Run q s t none (q.layer_head k) none (q.layer_tail k) (ls k) (fresh k hk)
              (v.layer k hk).links)))
    where
      outside : (y : ℕ) → t ≡ some y → mem y (ls k) ≡ false
      outside y e = ground (arith, own.owned y (tail-mem y e), (v.layer k hk).owned y)

  owned-last :
      (y : ℕ) → mem y (ls l ++ (s ∷ [])) ≡ true → (y < max_items) × ((q'.slots y).priority ≡ l)
  owned-last y h =
      rw (append_to_layer-rest q s l).0 (ground (arith, mem-append y (ls l) (s ∷ []), own.owned y))

  owned-other :
      (k : ℕ)
      → k < num_priorities
      → (y : ℕ) → mem y (ls k) ≡ true
      → (y < max_items) × ((q'.slots y).priority ≡ k)
  owned-other k hk y h =
      rw (append_to_layer-rest q s l).0 (ground (arith, (v.layer k hk).owned y h, fresh k hk))

  IsLayer-append : (k : ℕ) → k < num_priorities → IsLayer q' k (with_last k)
  IsLayer-append k hk = elim (Bool-cases (l == k)) [
    | inl e ↦
        rw (e, ← ==→eq l k e)
          (record {
            links = Run-own;
            distinct = Distinct-snoc (ls l) s (fresh l hl) own.distinct;
            owned = owned-last;
          })
    | inr ne ↦ rw ne (record {
      links = Run-other k hk ne;
      distinct = (v.layer k hk).distinct;
      owned = owned-other k hk;
    })
  ]

  mask-append :
      (k : ℕ) → k < num_priorities → has_bit q'.nonempty_mask k ≡ not (is_nil (with_last k))
  mask-append k hk =
      let e = (append_to_layer-links q s l).4 in
      let m = (set_bit_lem q.nonempty_mask l k v.mask_small hl hk).1 in
      elim (Bool-cases (l == k)) [
        | inl same ↦ rw (same, e, m, same) (ground (arith, is_nil-snoc (ls l) s))
        | inr ne ↦ rw (ne, e, m, ne) (v.mask_bit k hk)
      ]

  pub append_to_layer-IsLinked : IsLinked q' with_last
  append_to_layer-IsLinked = record {
    layer = IsLayer-append;
    mask_small =
        rw (append_to_layer-links q s l).4 (set_bit_lem q.nonempty_mask l l v.mask_small hl hl).0;
    mask_bit = mask-append;
  }
