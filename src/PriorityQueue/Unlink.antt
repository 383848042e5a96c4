-- ===== src/PriorityQueue/Unlink.antt =====
-- `unlink_slot`: the run of the slot's layer loses that slot, and other runs are as before.
use bailey_forbes_flinstone.Base.{
  ℕ, ◌≡◌, ◌<◌, refl, ap, true, false, not, none, some, inl, inr, List, [], ◌∷◌, ◌++◌, arith, mem,
  update, ◌==◌, if◌then◌else◌, mem-append, Distinct-append, Distinct-drop, Bool-cases, ==→eq,
}
use bailey_forbes_flinstone.PriorityQueue.{
  Queue, Link, unlink_slot, clear_bit, has_bit, is_none, num_priorities,
}
use bailey_forbes_flinstone.PriorityQueue.Segment.{Segment-split}
use bailey_forbes_flinstone.PriorityQueue.Mask.{clear_bit_lem}
use bailey_forbes_flinstone.PriorityQueue.Inv.{Layers, is_nil, IsLayer, IsLinked}
use bailey_forbes_flinstone.PriorityQueue.Relink.{
  Run, relink, relink-own, relink-other, last-mem, first-mem,
}

unlink_slot-links :
    (q : Queue) (s : ℕ)
    → let q' = unlink_slot q s in
      let r = relink q (q.slots s).priority (q.slot_prev s) (q.slot_next s) in
      (q'.slot_next ≡ r.slot_next)
      × (q'.slot_prev ≡ r.slot_prev)
      × (q'.layer_head ≡ r.layer_head)
      × (q'.layer_tail ≡ r.layer_tail)
unfolding unlink_slot
unlink_slot-links q s = ground arith

-- What `unlink_slot` leaves alone.
pub unlink_slot-rest :
    (q : Queue) (s : ℕ)
    → let q' = unlink_slot q s in
      (q'.slots ≡ q.slots)
      × (q'.free_stack ≡ q.free_stack)
      × (q'.free_top ≡ q.free_top)
      × (q'.gen ≡ q.gen)
      × (q'.next_gen ≡ q.next_gen)
      × (q'.size ≡ q.size)
      × (q'.next_seq ≡ q.next_seq)
unfolding unlink_slot
unlink_slot-rest q s = ground arith

unlink_slot-mask :
    (q : Queue) (s : ℕ)
    → let q' = unlink_slot q s in
      q'.nonempty_mask ≡ (
        if is_none (q'.layer_head (q.slots s).priority)
        then clear_bit q.nonempty_mask (q.slots s).priority
        else q.nonempty_mask)
unfolding unlink_slot
unlink_slot-mask q s = ground arith

pub head-is_nil :
    (q : Queue) (h t : Link) (xs : List ℕ) → Run q none h xs none t → is_none h ≡ is_nil xs
head-is_nil q h t [] r = ground arith
head-is_nil q h t (x ∷ xs) r = ground arith

pub mem-middle : (us : List ℕ) (s : ℕ) (vs : List ℕ) → mem s (us ++ (s ∷ vs)) ≡ true
mem-middle us s vs = ground (arith, mem-append s us (s ∷ vs))

is_nil-middle : (us : List ℕ) (s : ℕ) (vs : List ℕ) → is_nil (us ++ (s ∷ vs)) ≡ false
is_nil-middle [] s vs = refl
is_nil-middle (x ∷ us) s vs = refl

mem-part :
    (us : List ℕ) (s : ℕ) (vs : List ℕ) (y : ℕ)
    → mem y (us ++ vs) ≡ true
    → mem y (us ++ (s ∷ vs)) ≡ true
mem-part us s vs y h = ground (arith, mem-append y us (s ∷ vs), mem-append y us vs)

-- Unlinking the slot `s` of layer `l` takes it out of that layer's list.
module _ (q : Queue) (ls : Layers) (l s : ℕ) (us vs : List ℕ) (v : IsLinked q ls)
    (hl : l < num_priorities) (at_s : ls l ≡ us ++ (s ∷ vs)) where
  own : IsLayer q l (us ++ (s ∷ vs))
  own = rw at_s at (v.layer l hl)

  priority_s : (q.slots s).priority ≡ l
  priority_s = (own.owned s (mem-middle us s vs)).1

  ends :
      Run q none (q.layer_head l) us (some s) (q.slot_prev s)
      × Run q (some s) (q.slot_next s) vs none (q.layer_tail l)
  ends =
      let (m, k, before, after) =
        Segment-split q.slot_next q.slot_prev none (q.layer_head l) us (s ∷ vs) none
          (q.layer_tail l) own.links in
      ground arith

  abbrev q' : Queue
  q' = unlink_slot q s

  from-relink :
      (k : ℕ) (xs : List ℕ)
      → let r = relink q l (q.slot_prev s) (q.slot_next s) in
        Run r none (r.layer_head k) xs none (r.layer_tail k)
        → Run q' none (q'.layer_head k) xs none (q'.layer_tail k)
  from-relink k xs h = let (a, b, c, d) = unlink_slot-links q s in rw (a, b, c, d, priority_s) h

  pub Run-own : Run q' none (q'.layer_head l) (us ++ vs) none (q'.layer_tail l)
  Run-own =
      from-relink l (us ++ vs)
        (relink-own q l (q.slot_prev s) (q.slot_next s) s us vs own.distinct ends.0 ends.1)

  apart :
      (k : ℕ)
      → k < num_priorities
      → (l == k) ≡ false
      → (y : ℕ) → mem y (us ++ (s ∷ vs)) ≡ true
      → mem y (ls k) ≡ false
  apart k hk ne y h = ground (arith, own.owned y h, (v.layer k hk).owned y)

  before-s : (y : ℕ) → q.slot_prev s ≡ some y → mem y (us ++ (s ∷ vs)) ≡ true
  before-s y e =
      let d = (Distinct-append us (s ∷ vs) own.distinct).0 in
      ground (
        arith,
        mem-append y us (s ∷ vs),
        last-mem q (q.layer_head l) (some s) (q.slot_prev s) us y d ends.0 e,
      )

  after-s : (y : ℕ) → q.slot_next s ≡ some y → mem y (us ++ (s ∷ vs)) ≡ true
  after-s y e = ground (
    arith,
    mem-append y us (s ∷ vs),
    first-mem q (some s) (q.slot_next s) (q.layer_tail l) vs y ends.1 e,
  )

  Run-other :
      (k : ℕ)
      → k < num_priorities
      → (l == k) ≡ false
      → Run q' none (q'.layer_head k) (ls k) none (q'.layer_tail k)
  Run-other k hk ne = from-relink k (ls k) (
      relink-other q l k (q.slot_prev s) (q.slot_next s) (ls k) ne
        (λ y e. apart k hk ne y (before-s y e)) (λ y e. apart k hk ne y (after-s y e))
        (v.layer k hk).links)

  abbrev pub without : Layers
  without = update ls l (us ++ vs)

  IsLayer-unlink : (k : ℕ) → k < num_priorities → IsLayer q' k (without k)
  IsLayer-unlink k hk = elim (Bool-cases (l == k)) [
    | inl e ↦
        rw (e, ← ==→eq l k e)
          (record {
            links = Run-own;
            distinct = (Distinct-drop us s vs own.distinct).0;
            owned = λ y h. rw (unlink_slot-rest q s).0 (own.owned y (mem-part us s vs y h));
          })
    | inr ne ↦ rw ne (record {
      links = Run-other k hk ne;
      distinct = (v.layer k hk).distinct;
      owned = λ y h. rw (unlink_slot-rest q s).0 ((v.layer k hk).owned y h);
    })
  ]

  mask-unlink :
      (q'.nonempty_mask < 16)
      × ((k : ℕ) → k < num_priorities → has_bit q'.nonempty_mask k ≡ not (is_nil (without k)))
  mask-unlink =
      let e = unlink_slot-mask q s in
      let e' = rw priority_s at e in
      let n = head-is_nil q' (q'.layer_head l) (q'.layer_tail l) (us ++ vs) Run-own in
      (
        ground (arith, v.mask_small, clear_bit_lem q.nonempty_mask l l v.mask_small hl hl),
        λ k hk. elim (Bool-cases (l == k)) [
          | inl same ↦
              rw (same, ← ==→eq l k same)
                (ground (
                  arith,
                  v.mask_bit l hl,
                  ap is_nil at_s,
                  is_nil-middle us s vs,
                  clear_bit_lem q.nonempty_mask l l v.mask_small hl hl,
                ))
          | inr ne ↦ rw ne (
              ground (arith, v.mask_bit k hk, clear_bit_lem q.nonempty_mask l k v.mask_small hl hk))
        ],
      )

  pub unlink_slot-IsLinked : IsLinked q' without
  unlink_slot-IsLinked = record {
    layer = IsLayer-unlink;
    mask_small = mask-unlink.0;
    mask_bit = mask-unlink.1;
  }
