-- ===== src/PriorityQueue/Inv.antt =====
-- The state of a well-formed queue: each layer's links hold a list of slots, oldest first.
use bailey_forbes_flinstone.Base.{
  ℕ, zero, suc, ◌+◌, ◌<◌, ◌≡◌, ◌≢◌, Bool, true, false, not, none, List, [], ◌∷◌, arith, length, mem,
  Distinct, update,
}
use bailey_forbes_flinstone.PriorityQueue.{Queue, max_items, num_priorities, has_bit}
use bailey_forbes_flinstone.PriorityQueue.Segment.{Segment}

abbrev pub Layers : Type 0
Layers = ℕ → List ℕ

abbrev pub is_nil : List ℕ → Bool
is_nil [] = true
is_nil (x ∷ xs) = false

abbrev pub total : Layers → ℕ
total ls = length (ls 0) + length (ls 1) + length (ls 2) + length (ls 3)

-- What ties one layer's links to its list.
pub record IsLayer (q : Queue) (l : ℕ) (xs : List ℕ) : Type 0 where
  pub links : Segment q.slot_next q.slot_prev none (q.layer_head l) xs none (q.layer_tail l)
  pub distinct : Distinct xs
  pub owned : (s : ℕ) → mem s xs ≡ true → (s < max_items) × ((q.slots s).priority ≡ l)

pub record IsFree (q : Queue) (ls : Layers) : Type 0 where
  pub inside : (i : ℕ) → i < q.free_top → q.free_stack i < max_items
  pub apart : (i j : ℕ) → i < j → j < q.free_top → q.free_stack i ≢ q.free_stack j
  pub unused : (i l : ℕ) → i < q.free_top → l < num_priorities → mem (q.free_stack i) (ls l) ≡ false

pub record IsLinked (q : Queue) (ls : Layers) : Type 0 where
  pub layer : (l : ℕ) → l < num_priorities → IsLayer q l (ls l)
  pub mask_small : q.nonempty_mask < 16
  pub mask_bit : (l : ℕ) → l < num_priorities → has_bit q.nonempty_mask l ≡ not (is_nil (ls l))

pub record Holds (q : Queue) (ls : Layers) : Type 0 where
  pub linked : IsLinked q ls
  pub sized : q.size ≡ total ls
  pub room : q.free_top + q.size ≡ max_items
  pub free : IsFree q ls
  -- a slot with a function is in the layer of its priority
  pub live :
      (s : ℕ)
      → s < max_items
      → (q.slots s).fn ≢ 0
      → ((q.slots s).priority < num_priorities) × (mem s (ls (q.slots s).priority) ≡ true)

pub total-update :
    (ls : Layers) (l : ℕ) (xs : List ℕ)
    → l < num_priorities
    → total (update ls l xs) + length (ls l) ≡ total ls + length xs
total-update ls zero xs h = omega arith
total-update ls (suc zero) xs h = omega arith
total-update ls (suc (suc zero)) xs h = omega arith
total-update ls (suc (suc (suc zero))) xs h = omega arith
total-update ls (suc (suc (suc (suc l)))) xs h = absurd (omega arith)
