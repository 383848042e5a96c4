-- ===== src/PriorityQueue/Init.antt =====
-- `pq_init`: an empty well-formed queue, from any memory.
use bailey_forbes_flinstone.Base.{ℕ, zero, suc, ◌≡◌, ◌<◌, refl, none, some, [], arith}
use bailey_forbes_flinstone.PriorityQueue.{
  Link, init, fill_free_stack, clear_links, max_items, num_priorities,
}
use bailey_forbes_flinstone.PriorityQueue.Mask.{has_bit_zero}
use bailey_forbes_flinstone.PriorityQueue.Inv.{Layers, Holds}

fill_free_stack-below : (n : ℕ) (f : ℕ → ℕ) (i : ℕ) → i < n → fill_free_stack n f i ≡ i
unfolding fill_free_stack
fill_free_stack-below zero f i h = absurd (omega arith)
fill_free_stack-below (suc n) f i h = ground (arith, fill_free_stack-below n f i)

clear_links-below : (n : ℕ) (f : ℕ → Link) (i : ℕ) → i < n → clear_links n f i ≡ none
unfolding clear_links
clear_links-below zero f i h = absurd (omega arith)
clear_links-below (suc n) f i h = ground (arith, clear_links-below n f i)

abbrev pub no_layers : Layers
no_layers l = []

heads : (l : ℕ) → l < num_priorities → init.layer_head l ≡ none
unfolding init
heads l h = clear_links-below num_priorities (λ i. some 0) l h

tails : (l : ℕ) → l < num_priorities → init.layer_tail l ≡ none
unfolding init
tails l h = clear_links-below num_priorities (λ i. some 0) l h

stack : (i : ℕ) → i < max_items → init.free_stack i ≡ i
unfolding init
stack i h = fill_free_stack-below max_items (λ i. 0) i h

fields :
    (init.nonempty_mask ≡ 0)
    × (init.size ≡ 0)
    × (init.free_top ≡ max_items)
    × (init.next_seq ≡ 0)
    × ((s : ℕ) → (init.slots s).fn ≡ 0)
unfolding init
fields = (refl, refl, refl, refl, λ s. refl)

-- `pq_init` makes a well-formed queue whose layers are all empty.
pub init-Holds : Holds init no_layers
init-Holds =
    let (mask, size, top, seq, free) = fields in
    record {
      linked = record {
        layer = λ l h. record {
          links = (heads l h, tails l h);
          distinct = tt;
          owned = λ s m. absurd (ground arith);
        };
        mask_small = omega arith;
        mask_bit = λ l h. rw mask (has_bit_zero l h);
      };
      sized = size;
      room = omega arith;
      free = record {
        inside = λ i h. omega (arith, stack i (omega arith));
        apart = λ i j h k e. ground (arith, stack i, stack j);
        unused = λ i l h k. refl;
      };
      live = λ s h ne. absurd (ne (free s));
    }

pub init-seq : init.next_seq ≡ 0
init-seq = fields.3
