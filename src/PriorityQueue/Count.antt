-- ===== src/PriorityQueue/Count.antt =====
-- `pq_count_layer`, `pq_has_layer`, `pq_count` and `pq_is_empty`.
use bailey_forbes_flinstone.Base.{
  ℕ, zero, suc, ◌+◌, ◌≡◌, ◌<◌, ◌≤◌, ◌∙◌, false, not, none, some, List, [], ◌∷◌, ap, arith, length,
  ◌==◌,
}
use bailey_forbes_flinstone.PriorityQueue.{
  Queue, Link, count_from, count_layer, has_layer, is_empty, count, out_of_layers, max_items,
  num_priorities,
}
use bailey_forbes_flinstone.PriorityQueue.Segment.{Segment}
use bailey_forbes_flinstone.PriorityQueue.Inv.{Layers, Holds, is_nil, total}

-- The loop counts a run to its end, if the fuel is at least its length.
count_from-Segment :
    (next prev : ℕ → Link) (fuel n : ℕ) (p h t : Link) (xs : List ℕ)
    → Segment next prev p h xs none t
    → length xs ≤ fuel
    → count_from fuel next h n ≡ some (n + length xs)
unfolding count_from
count_from-Segment next prev zero n p h t [] s f = rw (s.0, count_from) (ap some (omega arith))
count_from-Segment next prev (suc fuel) n p h t [] s f =
    rw (s.0, count_from) (ap some (omega arith))
count_from-Segment next prev zero n p h t (x ∷ xs) s f = absurd (omega arith)
count_from-Segment next prev (suc fuel) n p h t (x ∷ xs) s f =
    rw (s.0, count_from)
      (count_from-Segment next prev fuel (n + 1) (some x) (next x) t xs s.2 (omega arith)
        ∙ ap some (omega arith))

length-le-total : (ls : Layers) (l : ℕ) → l < num_priorities → length (ls l) ≤ total ls
length-le-total ls zero h = omega arith
length-le-total ls (suc zero) h = omega arith
length-le-total ls (suc (suc zero)) h = omega arith
length-le-total ls (suc (suc (suc zero))) h = omega arith
length-le-total ls (suc (suc (suc (suc l)))) h = absurd (omega arith)

-- On a well-formed queue the loop of `pq_count_layer` ends within PQ_MAX_ITEMS rounds with the
-- number of slots of the layer, `pq_has_layer` says whether it has one, and `pq_count` is the
-- number over all layers, 0 exactly when `pq_is_empty`.
pub counts :
    (q : Queue) (ls : Layers) (fuel l : ℕ)
    → Holds q ls
    → l < num_priorities
    → max_items ≤ fuel
    → (count_layer fuel q l ≡ some (length (ls l)))
      × (has_layer q l ≡ not (is_nil (ls l)))
      × (count q ≡ total ls)
      × (is_empty q ≡ (total ls == 0))
unfolding count_layer has_layer count is_empty
counts q ls fuel l v hl hf =
    let inside : out_of_layers l ≡ false = ground arith in
    let bound : length (ls l) ≤ fuel = omega (arith, length-le-total ls l hl, v.sized, v.room) in
    (
      rw inside (
          count_from-Segment q.slot_next q.slot_prev fuel 0 none (q.layer_head l) (q.layer_tail l)
            (ls l) (v.linked.layer l hl).links bound
          ∙ ap some (omega arith)),
      rw inside (v.linked.mask_bit l hl),
      v.sized,
      ap (λ n. n == 0) v.sized,
    )
