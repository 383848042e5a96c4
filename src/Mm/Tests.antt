-- ===== src/Mm/Tests.antt =====
-- An arena of 64 bytes at address 4096.
use bailey_forbes_flinstone.Base.{ℕ, ◌+◌, ◌^◌, ◌-◌, ◌≡◌, refl, arith, some, List, [], ◌∷◌, update}
use bailey_forbes_flinstone.Mm.Arena.{Block, Arena, alloc_nolock, free_nolock}
use bailey_forbes_flinstone.Mm.Arena.Blocks.{Picks, first, later}
use bailey_forbes_flinstone.Mm.Arena.Inv.{IsArena}
use bailey_forbes_flinstone.Mm.Arena.Alloc.{Allocated, alloc_nolock-Allocated}
use bailey_forbes_flinstone.Mm.Arena.Reach.{
  pointer, Reach, here, next, allocates, releases, Reach-IsArena,
}

abbrev empty : Arena
empty = record { base = 4096; capacity = 64; bump = 0; header = λ i. 0; freelist = [] }

empty-IsArena : IsArena empty []
empty-IsArena = record {
  live_below = tt;
  free_below = tt;
  headers = tt;
  live_apart = tt;
  free_apart = tt;
  across = tt;
  aligned = refl;
  fits = omega arith;
  small = omega arith;
  room = omega arith;
}

alloc_nolock-Allocated_example : Allocated empty [] 20 (alloc_nolock empty 20)
alloc_nolock-Allocated_example =
    alloc_nolock-Allocated empty [] 20 empty-IsArena (omega arith) (omega arith)

abbrev block : ℕ → ℕ → Block
block p n = record { place = p; data_size = n }

-- Two blocks, of which the first goes back and is used again for a smaller one.
abbrev one : Arena
one = (alloc_nolock empty 20).1

abbrev two : Arena
two = (alloc_nolock one 9).1

abbrev given : Arena
given = record two { freelist = block 0 20 ∷ []; header = update two.header 0 0 }

abbrev again : Arena
again = (alloc_nolock given 5).1

free-first : free_nolock two (pointer two (block 0 20)) ≡ some given
unfolding free_nolock alloc_nolock
free-first = refl

again-Reach : Reach empty [] again (block 0 5 ∷ block 32 9 ∷ [])
unfolding alloc_nolock
again-Reach =
    next
      (next
        (next (next here (allocates empty [] (block 0 20) (omega arith) (omega arith) refl))
          (allocates one (block 0 20 ∷ []) (block 32 9) (omega arith) (omega arith) refl))
        (releases two (block 32 9 ∷ block 0 20 ∷ []) (block 32 9 ∷ []) (block 0 20) given
          (later (block 32 9) (first [])) free-first))
      (allocates given (block 32 9 ∷ []) (block 0 5) (omega arith) (omega arith) refl)

Reach-IsArena_example :
    IsArena again (block 0 5 ∷ block 32 9 ∷ [])
    × ((b : Block) (rest : List Block)
        → Picks b (block 0 5 ∷ block 32 9 ∷ []) rest
        → (d : Arena) × (free_nolock again (pointer again b) ≡ some d))
Reach-IsArena_example = Reach-IsArena empty-IsArena again-Reach

-- A request so large that the size wraps gets the place of a block that is in use.
test-wrap :
    ((alloc_nolock one (2 ^ 64 - 40)).0 ≡ 4096 + 32 + 8)
    × ((alloc_nolock one (2 ^ 64 - 40)).1.bump ≡ 0)
unfolding alloc_nolock
test-wrap = (refl, refl)
