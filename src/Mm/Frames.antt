-- ===== src/Mm/Frames.antt =====
-- kernel/core/mm/pmm.c: the physical frames, under the lock, and the pages of kmalloc.c on bare metal. A
-- word of the bitmap has 64 bits.
pub mod Bounds
use bailey_forbes_flinstone.Base.{
  ℕ, zero, suc, ◌+◌, ◌-◌, ◌*◌, ◌/◌, ◌%◌, ◌^◌, min, Bool, true, false, ◌||◌, not, ◌==◌, ltb, leb,
  if◌then◌else◌, update, u64,
}
use bailey_forbes_flinstone.PriorityQueue.{set_bit, clear_bit, has_bit, ctz}

abbrev pub num_frames : ℕ
num_frames = 1024

abbrev pub frame_size : ℕ
frame_size = 4096

abbrev pub phys_base : ℕ
phys_base = 0x100000

abbrev pub bits_per_word : ℕ
bits_per_word = 64

abbrev pub words : ℕ
words = (num_frames + 63) / 64

abbrev pub all_ones : ℕ
all_ones = 2 ^ 64 - 1

unfoldable pub bm_set : (ℕ → ℕ) → ℕ → ℕ → ℕ
unfolding set_bit
bm_set bitmap frame =
    let word = frame / bits_per_word in
    update bitmap word (set_bit (bitmap word) (frame % bits_per_word))

unfoldable pub bm_clear : (ℕ → ℕ) → ℕ → ℕ → ℕ
unfolding clear_bit
bm_clear bitmap frame =
    let word = frame / bits_per_word in
    update bitmap word (clear_bit (bitmap word) (frame % bits_per_word))

-- The frames from `first` on, `n` of them.
unfoldable pub set_frames : ℕ → (ℕ → ℕ) → ℕ → ℕ → ℕ
unfolding bm_set
set_frames zero bitmap first = bitmap
set_frames (suc n) bitmap first = set_frames n (bm_set bitmap first) (first + 1)

unfoldable pub reserve_range : (ℕ → ℕ) → ℕ → ℕ → ℕ → ℕ
unfolding set_frames
reserve_range bitmap base bytes =
    let end = min (u64 (base + bytes)) (phys_base + num_frames * frame_size) in
    let start = if ltb base phys_base then phys_base else base in
    let first = (start - phys_base) / frame_size in
    let last = min ((end - 1 - phys_base) / frame_size) (num_frames - 1) in
    if bytes == 0 || leb (u64 (base + bytes)) phys_base
    then bitmap
    else if leb end start
    then bitmap
    else set_frames (last + 1 - first) bitmap first

-- The loop from the word `w` on, with `n` words left; the address is 0 where there is no frame.
unfoldable pub alloc_from : ℕ → (ℕ → ℕ) → ℕ → ℕ × (ℕ → ℕ)
unfolding ctz bm_set
alloc_from zero bitmap w = (0, bitmap)
alloc_from (suc n) bitmap w =
    let later = alloc_from n bitmap (w + 1) in
    let frame = w * bits_per_word + ctz bits_per_word (all_ones - bitmap w) in
    if bitmap w == all_ones
    then later
    else if leb num_frames frame
    then (if w == words - 1 then (0, bitmap) else later)
    else (phys_base + frame * frame_size, bm_set bitmap frame)

unfoldable pub alloc_frame : (ℕ → ℕ) → ℕ × (ℕ → ℕ)
unfolding alloc_from
alloc_frame bitmap = alloc_from words bitmap 0

unfoldable pub free_frame : (ℕ → ℕ) → ℕ → ℕ → ℕ
unfolding bm_clear
free_frame bitmap phys_addr =
    let frame = (phys_addr - phys_base) / frame_size in
    if ltb phys_addr phys_base
    then bitmap
    else if leb num_frames frame
    then bitmap
    else bm_clear bitmap frame

-- `__builtin_popcountl`, with the bits left to look at
unfoldable pub popcount : ℕ → ℕ → ℕ
popcount zero m = 0
popcount (suc bits) m = m % 2 + popcount bits (m / 2)

-- The number of frames is a multiple of the bits of a word, so that no word is cut.
unfoldable pub free_count_from : ℕ → (ℕ → ℕ) → ℕ
unfolding popcount
free_count_from zero bitmap = 0
free_count_from (suc n) bitmap =
    free_count_from n bitmap + popcount bits_per_word (all_ones - bitmap n)

unfoldable pub free_count : (ℕ → ℕ) → ℕ
unfolding free_count_from
free_count bitmap = free_count_from words bitmap

-- `alloc_page` and `free_page`; a page is its address, 0 for NULL.
unfoldable pub alloc_page : (ℕ → ℕ) → ℕ × (ℕ → ℕ)
unfolding alloc_frame
alloc_page bitmap = alloc_frame bitmap

unfoldable pub free_page : (ℕ → ℕ) → ℕ → ℕ → ℕ
unfolding free_frame
free_page bitmap page = if page == 0 then bitmap else free_frame bitmap page
