-- ===== src/Mm/Arena/Reach.antt =====
-- Every sequence of allocations and releases.
use bailey_forbes_flinstone.Base.{
  ℕ, ◌+◌, ◌-◌, ◌^◌, ◌≡◌, ◌≤◌, ◌<◌, ◌∙◌, refl, sym, ap, ap₂, subst, arith, inl, inr, true, false,
  Option, none, some, List, ◌∷◌, ◌==◌, update, u64,
}
use bailey_forbes_flinstone.Mm.Arena.{
  Block, Arena, arena_owns, address_of, alloc_nolock, free_nolock, hdr_size,
}
use bailey_forbes_flinstone.Mm.Arena.Blocks.{Each, Picks, Each-zip, Each-Picks, Pairs-Picks}
use bailey_forbes_flinstone.Mm.Arena.Inv.{
  max_request, need_bounds, Disjoint, Disjoint-sym, Disjoint-places, Below, IsArena,
}
use bailey_forbes_flinstone.Mm.Arena.Alloc.{Allocated, alloc_nolock-Allocated}

-- The pointer that the owner of a block has.
abbrev pub pointer : Arena → Block → ℕ
pointer a b = a.base + b.place + hdr_size

module _ (a : Arena) (live rest : List Block) (b : Block) (pick : Picks b live rest)
    (ok : IsArena a live) where
  below : Below a.bump b
  below = (Each-Picks (Below a.bump) pick ok.live_below).0

  hdr_place : u64 (pointer a b + 2 ^ 64 - hdr_size) ≡ a.base + b.place
  hdr_place =
      let (al, pos, le, up) = below in
      let m = need_bounds b.data_size le in omega (arith, ok.fits, ok.room)

  owned : arena_owns a (a.base + b.place) ≡ true
  owned =
      let (al, pos, le, up) = below in
      let m = need_bounds b.data_size le in let f = ok.fits in unfold arena_owns in ground arith

  -- The arena after the block is given back.
  abbrev after : Arena
  after = record a {
    freelist = b ∷ a.freelist;
    header = update a.header b.place (address_of a.base a.freelist);
  }

  free-after : free_nolock a (pointer a b) ≡ some after
  free-after =
      let e : (pointer a b == 0) ≡ false = ground arith in
      let back : a.base + b.place - a.base ≡ b.place = omega arith in
      let h = (Each-Picks (λ c. a.header c.place ≡ c.data_size) pick ok.headers).0 in
      unfold free_nolock in rw (e, hdr_place, owned, back, h) refl

  after-IsArena : IsArena after rest
  after-IsArena =
      let (b-below, rest-below) = Each-Picks (Below a.bump) pick ok.live_below in
      let (al, pos, le, up) = b-below in
      let (b-apart, rest-apart) = Pairs-Picks Disjoint Disjoint-sym pick ok.live_apart in
      let (b-free, rest-free) = Each-Picks (λ c. Each (Disjoint c) a.freelist) pick ok.across in
      let (h, rest-headers) = Each-Picks (λ c. a.header c.place ≡ c.data_size) pick ok.headers in
      record {
        live_below = rest-below;
        free_below = (b-below, ok.free_below);
        headers =
            Each-zip _ _ _ keeps rest
              (Each-zip _ _ _ (λ c x y. (x, y)) rest rest-headers rest-below) b-apart;
        live_apart = rest-apart;
        free_apart = (b-free, ok.free_apart);
        across = Each-zip _ _ _ (λ c x y. (Disjoint-sym b c x, y)) rest b-apart rest-free;
        aligned = ok.aligned;
        fits = ok.fits;
        small = ok.small;
        room = ok.room;
      }
    where
      keeps :
          (c : Block)
          → (a.header c.place ≡ c.data_size) × Below a.bump c
          → Disjoint b c
          → after.header c.place ≡ c.data_size
      keeps c (h, (al, pos, le, up)) d =
          let ne = Disjoint-places b c below.2 le d in
          let other : (b.place == c.place) ≡ false = ground (arith, ne) in (rw other refl) ∙ h

-- A caller asks for a block, or gives back one of those it owns. `live` are the blocks that are owned.
pub data Step : Arena → List Block → Arena → List Block → Type 0 where
  allocates :
      (a : Arena) (live : List Block) (b : Block)
      → 0 < b.data_size
      → b.data_size ≤ max_request
      → (alloc_nolock a b.data_size).0 ≡ pointer a b
      → Step a live (alloc_nolock a b.data_size).1 (b ∷ live)
  is_refused :
      (a : Arena) (live : List Block) (size : ℕ)
      → 0 < size
      → size ≤ max_request
      → (alloc_nolock a size).0 ≡ 0
      → Step a live (alloc_nolock a size).1 live
  releases :
      (a : Arena) (live rest : List Block) (b : Block) (a' : Arena)
      → Picks b live rest
      → free_nolock a (pointer a b) ≡ some a'
      → Step a live a' rest

pub data Reach (a : Arena) (live : List Block) : Arena → List Block → Type 0 where
  here : Reach a live a live
  next : {c d : Arena} {xs ys : List Block} → Reach a live c xs → Step c xs d ys → Reach a live d ys

abbrev block_at : ℕ → ℕ → Block
block_at p s = record { place = p; data_size = s }

granted-IsArena :
    (a : Arena) (live : List Block) (b : Block) (r : ℕ × Arena)
    → r.0 ≡ pointer a b
    → Allocated a live b.data_size r
    → IsArena r.1 (b ∷ live)
granted-IsArena a live b (p, a') e (inl (c, size, at, ok)) =
    let place : c.place ≡ b.place = omega arith in
    let same : c ≡ b = ap₂ block_at place size in subst (λ x. IsArena a' (x ∷ live)) same ok
granted-IsArena a live b (p, a') e (inr (null, same, full, over)) = absurd (omega arith)

refused-IsArena :
    (a : Arena) (live : List Block) (size : ℕ) (r : ℕ × Arena)
    → r.0 ≡ 0
    → Allocated a live size r
    → IsArena a live
    → IsArena r.1 live
refused-IsArena a live size (p, a') e (inl (c, s, at, ok')) ok = absurd (omega arith)
refused-IsArena a live size (p, a') e (inr (null, same, full, over)) ok =
    subst (λ x. IsArena x live) (sym same) ok

from_some : Arena → Option Arena → Arena
from_some d none = d
from_some d (some a) = a

Step-IsArena : {a c : Arena} {xs ys : List Block} → Step a xs c ys → IsArena a xs → IsArena c ys
unfolding from_some
Step-IsArena (allocates a live b positive small e) ok =
    granted-IsArena a live b (alloc_nolock a b.data_size) e
      (alloc_nolock-Allocated a live b.data_size ok positive small)
Step-IsArena (is_refused a live size positive small e) ok =
    refused-IsArena a live size (alloc_nolock a size) e
      (alloc_nolock-Allocated a live size ok positive small) ok
Step-IsArena (releases a live rest b a' pick e) ok =
    subst (λ x. IsArena x rest) (ap (from_some a) (sym (free-after a live rest b pick ok) ∙ e))
      (after-IsArena a live rest b pick ok)

Reach-keeps :
    {a : Arena} {xs : List Block} {c : Arena} {ys : List Block}
    → IsArena a xs
    → Reach a xs c ys
    → IsArena c ys
Reach-keeps ok here = ok
Reach-keeps ok (next r step) = Step-IsArena step (Reach-keeps ok r)

-- After every sequence of requests of 1 to 2^63 bytes, granted or refused, and of releases of blocks
-- that the caller owns, from an arena in which no two blocks meet, such as an empty one, no two
-- blocks meet, owned or free, all lie in the arena at multiples of 8, the header of an owned block
-- is its size, and every owned block can be given back, without the endless loop of a foreign pointer.
pub Reach-IsArena :
    {a : Arena} {xs : List Block} {c : Arena} {ys : List Block}
    → IsArena a xs
    → Reach a xs c ys
    → IsArena c ys
      × ((b : Block) (rest : List Block)
          → Picks b ys rest
          → (d : Arena) × (free_nolock c (pointer c b) ≡ some d))
Reach-IsArena {c = c} {ys = ys} ok r =
    let ok' = Reach-keeps ok r in
    (ok', λ b rest pick. (after c ys rest b pick ok', free-after c ys rest b pick ok'))
