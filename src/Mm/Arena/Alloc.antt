-- ===== src/Mm/Arena/Alloc.antt =====
-- What an allocation returns.
use bailey_forbes_flinstone.Base.{
  ℕ, ◌+◌, ◌≡◌, ◌≤◌, ◌<◌, ◌⊎◌, ◌∙◌, refl, arith, inl, inr, true, false, Option, none, some, List, [],
  ◌∷◌, ◌==◌, leb, update, Bool-cases, ==_self, u64,
}
use bailey_forbes_flinstone.Mm.Arena.{
  Block, Arena, need, first_fit, bump_alloc, alloc_nolock, hdr_size,
}
use bailey_forbes_flinstone.Mm.Arena.Blocks.{
  Each, Picks, first, later, Each-map, Each-zip, Each-Picks, Pairs-Picks,
}
use bailey_forbes_flinstone.Mm.Arena.Inv.{
  max_request, need_bounds, need_monotone, Disjoint, Disjoint-sym, Disjoint-smaller,
  Disjoint-places, Below, IsArena,
}

-- What the search of the free list finds.
FirstFit : ℕ → List Block → Option (Block × List Block) → Type 0
FirstFit size ns none = Each (λ n. n.data_size < size) ns
FirstFit size ns (some (n, rest)) = Picks n ns rest × (size ≤ n.data_size)

first_fit-FirstFit : (size : ℕ) (ns : List Block) → FirstFit size ns (first_fit size ns)
unfolding first_fit FirstFit
first_fit-FirstFit size [] = tt
first_fit-FirstFit size (n ∷ ns) = elim (Bool-cases (leb size n.data_size)) [
  | inl e ↦ rw e (first ns, ground arith)
  | inr e ↦ rw e (next e (first_fit size ns) (first_fit-FirstFit size ns))
]
  where
    next :
        leb size n.data_size ≡ false
        → (o : Option (Block × List Block)) → FirstFit size ns o
        → FirstFit size (n ∷ ns) (elim o [ none ↦ none | some (m, rest) ↦ some (m, n ∷ rest) ])
    next e none f = (ground arith, f)
    next e (some (m, rest)) (pick, l) = (later n pick, l)

-- What the caller gets: a new block of the size, or NULL where nothing has the room.
abbrev pub Allocated : Arena → List Block → ℕ → ℕ × Arena → Type 0
Allocated a live size (p, a') =
    ((b : Block) × (b.data_size ≡ size) × (p ≡ a.base + b.place + hdr_size) × IsArena a' (b ∷ live))
    ⊎ ((p ≡ 0)
        × (a' ≡ a)
        × Each (λ n. n.data_size < size) a.freelist
        × (a.capacity < a.bump + need size))

module _ (a : Arena) (live : List Block) (size : ℕ) (ok : IsArena a live) where
  -- The blocks that keep their header when that of `b` is written.
  kept_headers :
      (b : Block)
      → b.data_size ≤ max_request
      → Each (Disjoint b) live
      → Each (λ c. update a.header b.place size c.place ≡ c.data_size) live
  kept_headers b hb apart =
      Each-zip (λ c. (a.header c.place ≡ c.data_size) × Below a.bump c) (Disjoint b) _
        (λ c (h, (al, pos, le, up)) d.
          let ne = Disjoint-places b c hb le d in
          let other : (b.place == c.place) ≡ false = ground (arith, ne) in (rw other refl) ∙ h)
        live (Each-zip _ _ _ (λ c h l. (h, l)) live ok.headers ok.live_below) apart

  module _ (positive : 0 < size) (small : size ≤ max_request) where
    -- The block of the first node that fits.
    reuse :
        (n : Block) (rest : List Block)
        → Picks n a.freelist rest
        → size ≤ n.data_size
        → IsArena
            (record a { header = update a.header n.place size; freelist = rest })
            (record { place = n.place; data_size = size } ∷ live)
    reuse n rest pick l =
        let (n-below, rest-below) = Each-Picks (Below a.bump) pick ok.free_below in
        let (al, pos, le, up) = n-below in
        let (n-apart, rest-apart) = Pairs-Picks Disjoint Disjoint-sym pick ok.free_apart in
        let smaller = λ (c : Block). Disjoint-smaller n.place size n.data_size c l le in
        let less = need_monotone size n.data_size l le in
        let crossed = Each-map _ _ (λ b e. Each-Picks (Disjoint b) pick e) live ok.across in
        let from_live =
          Each-map _ (Disjoint b) (λ c (d, e). smaller c (Disjoint-sym c n d)) live crossed in
        record {
          live_below = ((al, positive, small, omega arith), ok.live_below);
          free_below = rest-below;
          headers = ((rw (==_self n.place) refl), kept_headers b small from_live);
          live_apart = (from_live, ok.live_apart);
          free_apart = rest-apart;
          across = (
            Each-map _ _ (λ c d. smaller c d) rest n-apart,
            Each-map _ _ (λ c (d, e). e) live crossed,
          );
          aligned = ok.aligned;
          fits = ok.fits;
          small = ok.small;
          room = ok.room;
        }
      where
        b : Block
        b = record { place = n.place; data_size = size }

    no_wrap : u64 (a.bump + need size) ≡ a.bump + need size
    no_wrap = let m = need_bounds size small in omega (arith, m, ok.fits, ok.small)

    -- A block on top of all others.
    fresh :
        leb (u64 (a.bump + need size)) a.capacity ≡ true
        → IsArena
            (record a { header = update a.header a.bump size; bump = u64 (a.bump + need size) })
            (record { place = a.bump; data_size = size } ∷ live)
    fresh room =
        let m = need_bounds size small in
        let w = no_wrap in
        record {
          live_below =
              ((ok.aligned, positive, small, omega arith), Each-map _ _ raise live ok.live_below);
          free_below = Each-map _ _ raise a.freelist ok.free_below;
          headers = (
            (rw (==_self a.bump) refl),
            kept_headers b small (Each-map _ _ apart live ok.live_below),
          );
          live_apart = (Each-map _ (Disjoint b) apart live ok.live_below, ok.live_apart);
          free_apart = ok.free_apart;
          across = (Each-map _ (Disjoint b) apart a.freelist ok.free_below, ok.across);
          aligned = omega (arith, ok.aligned);
          fits = ground arith;
          small = ok.small;
          room = ok.room;
        }
      where
        b : Block
        b = record { place = a.bump; data_size = size }

        raise : (c : Block) → Below a.bump c → Below (u64 (a.bump + need size)) c
        raise c (al, pos, le, up) = let w = no_wrap in (al, pos, le, omega arith)

        apart : (c : Block) → Below a.bump c → Disjoint b c
        apart c (al, pos, le, up) = inr up

  bump_alloc-Allocated :
      0 < size
      → size ≤ max_request
      → Each (λ n. n.data_size < size) a.freelist
      → Allocated a live size (bump_alloc a size)
  bump_alloc-Allocated positive small full =
      elim (Bool-cases (leb (u64 (a.bump + need size)) a.capacity)) [
        | inl e ↦
            unfold bump_alloc in
            rw e (
              inl (record { place = a.bump; data_size = size }, refl, refl, fresh positive small e))
        | inr e ↦
            let w = no_wrap positive small in
            unfold bump_alloc in rw e (inr (refl, refl, full, ground arith))
      ]

  -- In an arena in which no two blocks meet, a request of 1 to 2^63 bytes gets a new block of the
  -- size, after which again no two blocks meet, the caller's other blocks and their headers are as
  -- before, and all lie in the arena; or it gets NULL and changes nothing, which happens only if no
  -- free block is large enough and the rest of the arena is too small.
  pub alloc_nolock-Allocated :
      0 < size → size ≤ max_request → Allocated a live size (alloc_nolock a size)
  unfolding FirstFit
  alloc_nolock-Allocated positive small =
      let e : (size == 0) ≡ false = ground arith in
      unfold alloc_nolock in
      rw e (found (first_fit size a.freelist) (first_fit-FirstFit size a.freelist))
    where
      found :
          (o : Option (Block × List Block))
          → FirstFit size a.freelist o
          → Allocated a live size (elim o [
            | none ↦ bump_alloc a size
            | some (n, rest) ↦ (
              a.base + n.place + hdr_size,
              record a { header = update a.header n.place size; freelist = rest },
            )
          ])
      found none full = bump_alloc-Allocated positive small full
      found (some (n, rest)) f =
          let (pick, l) = f in
          inl (
            record { place = n.place; data_size = size },
            refl,
            refl,
            reuse positive small n rest pick l,
          )
