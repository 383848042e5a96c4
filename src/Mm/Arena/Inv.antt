-- ===== src/Mm/Arena/Inv.antt =====
-- What the blocks of an arena look like, those that callers own and those in the free list.
use bailey_forbes_flinstone.Base.{ℕ, ◌+◌, ◌%◌, ◌^◌, ◌≡◌, ◌≢◌, ◌≤◌, ◌<◌, ◌⊎◌, arith, inl, inr, List}
use bailey_forbes_flinstone.Mm.Arena.{Block, Arena, align_up, need}
use bailey_forbes_flinstone.Mm.Arena.Blocks.{Each, Pairs}

-- Requests above this bound are beyond the arithmetic of the allocator.
abbrev pub max_request : ℕ
max_request = 2 ^ 63

abbrev pub max_capacity : ℕ
max_capacity = 2 ^ 62

-- The bytes that a block of the size takes, with its header.
pub need_bounds :
    (size : ℕ)
    → size ≤ max_request
    → (need size % 8 ≡ 0) × (8 + size ≤ need size) × (need size ≤ size + 15)
unfolding need align_up
need_bounds size l = (omega arith, omega arith, omega arith)

pub need_monotone : (a b : ℕ) → a ≤ b → b ≤ max_request → need a ≤ need b
unfolding need align_up
need_monotone a b l h = omega arith

-- The two blocks do not meet, headers included.
abbrev pub Disjoint : Block → Block → Type 0
Disjoint a b = (a.place + need a.data_size ≤ b.place) ⊎ (b.place + need b.data_size ≤ a.place)

pub Disjoint-sym : (a b : Block) → Disjoint a b → Disjoint b a
Disjoint-sym a b (inl x) = inr x
Disjoint-sym a b (inr x) = inl x

-- The block starts at a multiple of 8 and ends below the offset.
abbrev pub Below : ℕ → Block → Type 0
Below top b =
    (b.place % 8 ≡ 0)
    × (0 < b.data_size)
    × (b.data_size ≤ max_request)
    × (b.place + need b.data_size ≤ top)

-- `live` are the blocks that callers own: no two blocks meet, live or free, all lie below the bump
-- offset, and the header of a live block is the size that was asked for.
pub record IsArena (a : Arena) (live : List Block) : Type 0 where
  pub live_below : Each (Below a.bump) live
  pub free_below : Each (Below a.bump) a.freelist
  pub headers : Each (λ b. a.header b.place ≡ b.data_size) live
  pub live_apart : Pairs Disjoint live
  pub free_apart : Pairs Disjoint a.freelist
  pub across : Each (λ b. Each (Disjoint b) a.freelist) live
  pub aligned : a.bump % 8 ≡ 0
  pub fits : a.bump ≤ a.capacity
  pub small : a.capacity ≤ max_capacity
  pub room : a.base + a.capacity < 2 ^ 64

-- A block in the place of another that is not smaller.
pub Disjoint-smaller :
    (p s t : ℕ) (b : Block)
    → s ≤ t
    → t ≤ max_request
    → Disjoint (record { place = p; data_size = t }) b
    → Disjoint (record { place = p; data_size = s }) b
Disjoint-smaller p s t b l h (inl x) = let m = need_monotone s t l h in inl (omega arith)
Disjoint-smaller p s t b l h (inr x) = inr x

-- Blocks that do not meet have different places.
pub Disjoint-places :
    (a b : Block)
    → a.data_size ≤ max_request
    → b.data_size ≤ max_request
    → Disjoint a b
    → a.place ≢ b.place
Disjoint-places a b la lb (inl x) e = let m = need_bounds a.data_size la in omega arith
Disjoint-places a b la lb (inr x) e = let m = need_bounds b.data_size lb in omega arith
