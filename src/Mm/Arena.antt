-- ===== src/Mm/Arena.antt =====
-- kernel/core/mm/mem_domain.c with DRIVERS_BAREMETAL, under its lock, and the calls of kmalloc.c that
-- forward to it. A block is named by its place, the offset of its header in the arena. The free list
-- is the list of its nodes; `header` is the word at a place, which in a free block is the pointer to
-- the next node. The arena does not reach the end of the address space, and an address is 0 for NULL.
pub mod Blocks
pub mod Inv
pub mod Alloc
pub mod Reach
use bailey_forbes_flinstone.Base.{
  ℕ, zero, suc, ◌+◌, ◌-◌, ◌*◌, ◌/◌, ◌^◌, min, Bool, true, false, ◌&&◌, not, Option, none, some,
  List, [], ◌∷◌, ◌==◌, ltb, leb, if◌then◌else◌, update, u64,
}

-- HDR_SIZE
abbrev pub hdr_size : ℕ
hdr_size = 8

-- `free_node_t`, without its pointer; also a block that a caller owns, with the size asked for.
pub record Block : Type 0 where
  pub place : ℕ
  pub data_size : ℕ

-- `arena_t`
pub record Arena : Type 0 where
  pub base : ℕ
  pub capacity : ℕ
  pub bump : ℕ
  pub header : ℕ → ℕ
  pub freelist : List Block

unfoldable pub arena_owns : Arena → ℕ → Bool
arena_owns a addr = leb a.base addr && ltb addr (a.base + a.capacity)

-- `(n + ARENA_ALIGN - 1) & ~(ARENA_ALIGN - 1)`, in 64 bits
unfoldable pub align_up : ℕ → ℕ
align_up n = u64 (n + 7) / 8 * 8

unfoldable pub need : ℕ → ℕ
unfolding align_up
need size = align_up (u64 (hdr_size + size))

-- The first node that is large enough, and the list without it.
unfoldable pub first_fit : ℕ → List Block → Option (Block × List Block)
first_fit size [] = none
first_fit size (n ∷ ns) =
    let later = first_fit size ns in
    if leb size n.data_size
    then some (n, ns)
    else (elim later [ none ↦ none | some (m, rest) ↦ some (m, n ∷ rest) ])

unfoldable pub bump_alloc : Arena → ℕ → ℕ × Arena
unfolding need
bump_alloc a size =
    if leb (u64 (a.bump + need size)) a.capacity
    then (
      a.base + a.bump + hdr_size,
      record a { header = update a.header a.bump size; bump = u64 (a.bump + need size) },
    )
    else (0, a)

unfoldable pub alloc_nolock : Arena → ℕ → ℕ × Arena
unfolding first_fit bump_alloc
alloc_nolock a size = if size == 0 then (0, a) else (elim (first_fit size a.freelist) [
  | none ↦ bump_alloc a size
  | some (n, rest) ↦ (
    a.base + n.place + hdr_size,
    record a { header = update a.header n.place size; freelist = rest },
  )
])

unfoldable pub address_of : ℕ → List Block → ℕ
address_of base [] = 0
address_of base (n ∷ ns) = base + n.place

-- `none` is the endless loop after a pointer that is not of the arena.
unfoldable pub free_nolock : Arena → ℕ → Option Arena
unfolding arena_owns address_of
free_nolock a ptr =
    let hdr = u64 (ptr + 2 ^ 64 - hdr_size) in
    let place = hdr - a.base in
    if ptr == 0
    then some a
    else if not (arena_owns a hdr)
    then none
    else some (record a {
      freelist = record { place = place; data_size = a.header place } ∷ a.freelist;
      header = update a.header place (address_of a.base a.freelist);
    })

-- The four arenas, and the bytes that callers keep in their blocks.
pub record Memory : Type 0 where
  pub arenas : ℕ → Arena
  pub bytes : ℕ → ℕ

abbrev pub arena_for : ℕ → ℕ
arena_for domain = if leb 4 domain then 0 else domain

unfoldable pub alloc : Memory → ℕ → ℕ → ℕ × Memory
unfolding alloc_nolock
alloc m domain size =
    let d = arena_for domain in
    let (p, a) = alloc_nolock (m.arenas d) size in (p, record m { arenas = update m.arenas d a })

unfoldable pub zero_bytes : (ℕ → ℕ) → ℕ → ℕ → ℕ → ℕ
zero_bytes bytes p n x = if leb p x && ltb x (p + n) then 0 else bytes x

-- `asm_mem_copy(to, from, n)` of ranges that do not meet
unfoldable pub copy_bytes : (ℕ → ℕ) → ℕ → ℕ → ℕ → ℕ → ℕ
copy_bytes bytes to from n x =
    if leb to x && ltb x (to + n) then bytes (from + (x - to)) else bytes x

unfoldable pub calloc : Memory → ℕ → ℕ → ℕ → ℕ × Memory
unfolding alloc zero_bytes
calloc m domain nmemb size =
    let total = u64 (nmemb * size) in
    let (p, m') = alloc m domain total in
    if not (size == 0) && ltb ((2 ^ 64 - 1) / size) nmemb
    then (0, m)
    else if p == 0
    then (0, m')
    else (p, record m' { bytes = zero_bytes m'.bytes p total })

unfoldable pub free : Memory → ℕ → ℕ → Option Memory
unfolding free_nolock
free m domain ptr =
    let d = arena_for domain in
    if ptr == 0 then some m else (elim (free_nolock (m.arenas d) ptr) [
      | none ↦ none
      | some a ↦ some (record m { arenas = update m.arenas d a })
    ])

unfoldable pub realloc : Memory → ℕ → ℕ → ℕ → Option (ℕ × Memory)
unfolding alloc free copy_bytes
realloc m domain ptr size =
    let a = m.arenas (arena_for domain) in
    let old_size = a.header (u64 (ptr + 2 ^ 64 - hdr_size) - a.base) in
    let (np, m') = alloc m domain size in
    let copied = record m' { bytes = copy_bytes m'.bytes np ptr (min old_size size) } in
    if ptr == 0
    then some (np, m')
    else if size == 0
    then (elim (free m domain ptr) [ none ↦ none | some f ↦ some (0, f) ])
    else if np == 0
    then some (0, m')
    else (elim (free copied domain ptr) [ none ↦ none | some f ↦ some (np, f) ])

-- `kmalloc`, `kfree` and `krealloc`, in the domain MEM_DOMAIN_KERNEL
unfoldable pub kmalloc : Memory → ℕ → ℕ × Memory
unfolding alloc
kmalloc m size = alloc m 0 size

unfoldable pub kfree : Memory → ℕ → Option Memory
unfolding free
kfree m ptr = free m 0 ptr

unfoldable pub krealloc : Memory → ℕ → ℕ → Option (ℕ × Memory)
unfolding realloc
krealloc m ptr size = realloc m 0 ptr size
