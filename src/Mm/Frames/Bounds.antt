-- ===== src/Mm/Frames/Bounds.antt =====
-- Which frames are handed out.
use bailey_forbes_flinstone.Base.{
  ℕ, zero, suc, ◌+◌, ◌-◌, ◌*◌, ◌≡◌, ◌<◌, ◌⊎◌, refl, arith, inl, inr, ◌==◌, leb, Bool-cases,
}
use bailey_forbes_flinstone.PriorityQueue.{ctz}
use bailey_forbes_flinstone.Mm.Frames.{
  num_frames, frame_size, phys_base, bits_per_word, words, all_ones, bm_set, alloc_from,
  alloc_frame,
}

-- No frame and the bitmap as before, or the address of a frame and its bit set.
abbrev pub Allocates : (ℕ → ℕ) → ℕ × (ℕ → ℕ) → Type 0
Allocates bitmap (p, bitmap') =
    ((p ≡ 0) × (bitmap' ≡ bitmap))
    ⊎ ((frame : ℕ) × (frame < num_frames)
        × (p ≡ phys_base + frame * frame_size)
        × (bitmap' ≡ bm_set bitmap frame))

alloc_from-Allocates : (n : ℕ) (bitmap : ℕ → ℕ) (w : ℕ) → Allocates bitmap (alloc_from n bitmap w)
unfolding alloc_from
alloc_from-Allocates zero bitmap w = inl (refl, refl)
alloc_from-Allocates (suc n) bitmap w = elim (Bool-cases (bitmap w == all_ones)) [
  | inl e ↦ rw e (alloc_from-Allocates n bitmap (w + 1))
  | inr e ↦
      let frame = w * bits_per_word + ctz bits_per_word (all_ones - bitmap w) in
      elim (Bool-cases (leb num_frames frame)) [
        | inr f ↦ rw (e, f) (inr (frame, (ground arith), refl, refl))
        | inl f ↦ elim (Bool-cases (w == words - 1)) [
          | inl g ↦ rw (e, f, g) (inl (refl, refl))
          | inr g ↦ rw (e, f, g) (alloc_from-Allocates n bitmap (w + 1))
        ]
      ]
]

-- `pmm_alloc_frame` returns 0 and leaves the bitmap, or the address of one of the 1024 frames, whose
-- bit alone it sets.
pub alloc_frame-Allocates : (bitmap : ℕ → ℕ) → Allocates bitmap (alloc_frame bitmap)
unfolding alloc_frame
alloc_frame-Allocates bitmap = alloc_from-Allocates words bitmap 0
