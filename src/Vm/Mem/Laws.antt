-- ===== src/Vm/Mem/Laws.antt =====
-- Guest RAM: what is written is read back, nothing else changes, and no access leaves the RAM.
use bailey_forbes_flinstone.Base.{
  ℕ, ◌+◌, ◌^◌, ◌≡◌, ◌≤◌, ◌<◌, ◌∙◌, ◌⊎◌, refl, ap, ap₂, arith, Option, none, some, List, [], ◌∷◌,
  leb, if◌then◌else◌, update, length,
}
use bailey_forbes_flinstone.Vm.Mem.{
  Mem, read, write, read_bytes, write_bytes, bytes16, bytes32, value_of, read16, write16,
}

pub write_bytes-below :
    (ram : ℕ → ℕ) (addr : ℕ) (bs : List ℕ) (j : ℕ) → j < addr → write_bytes ram addr bs j ≡ ram j
unfolding write_bytes
write_bytes-below ram addr [] j h = refl
write_bytes-below ram addr (b ∷ bs) j h =
    write_bytes-below (update ram addr b) (addr + 1) bs j (omega arith) ∙ ground arith

pub write_bytes-above :
    (ram : ℕ → ℕ) (addr : ℕ) (bs : List ℕ) (j : ℕ)
    → addr + length bs ≤ j
    → write_bytes ram addr bs j ≡ ram j
unfolding write_bytes
write_bytes-above ram addr [] j h = refl
write_bytes-above ram addr (b ∷ bs) j h =
    write_bytes-above (update ram addr b) (addr + 1) bs j (omega arith) ∙ ground arith

pub read_bytes-write_bytes :
    (ram : ℕ → ℕ) (addr : ℕ) (bs : List ℕ)
    → read_bytes (write_bytes ram addr bs) addr (length bs) ≡ bs
unfolding read_bytes write_bytes
read_bytes-write_bytes ram addr [] = refl
read_bytes-write_bytes ram addr (b ∷ bs) =
    ap₂ ◌∷◌ (write_bytes-below (update ram addr b) (addr + 1) bs addr (omega arith) ∙ ground arith)
      (read_bytes-write_bytes (update ram addr b) (addr + 1) bs)

-- `vm_mem_write` succeeds exactly when the whole range lies in the RAM. Then `vm_mem_read` of the
-- range gives back the bytes, and every address outside the range, in particular every address
-- from the size on, keeps its byte; otherwise nothing changes and the read of the range fails too.
pub read-write :
    (mem : Mem) (addr : ℕ) (bs : List ℕ)
    → let (ok, mem') = write mem addr bs in
      (ok ≡ leb (addr + length bs) mem.size)
      × (read mem' addr (length bs) ≡ (if leb (addr + length bs) mem.size then some bs else none))
      × ((j : ℕ) → (j < addr) ⊎ (addr + length bs ≤ j) → mem'.ram j ≡ mem.ram j)
      × (mem'.size ≡ mem.size)
unfolding read write
read-write mem addr bs = (
  ground arith,
  ground (arith, read_bytes-write_bytes mem.ram addr bs),
  λ j h. ground (arith, write_bytes-below mem.ram addr bs j, write_bytes-above mem.ram addr bs j),
  ground arith,
)

pub read-write_inside :
    (mem : Mem) (addr : ℕ) (bs : List ℕ)
    → addr + length bs ≤ mem.size
    → read (write mem addr bs).1 addr (length bs) ≡ some bs
read-write_inside mem addr bs h = (read-write mem addr bs).1 ∙ ground arith

pub value_of-bytes16 : (v : ℕ) → v < 2 ^ 16 → value_of (bytes16 v) ≡ v
unfolding value_of bytes16
value_of-bytes16 v h = omega arith

pub value_of-bytes32 : (v : ℕ) → v < 2 ^ 32 → value_of (bytes32 v) ≡ v
unfolding value_of bytes32
value_of-bytes32 v h = omega arith

-- A 16-bit value written inside the RAM is read back.
pub read16-write16 :
    (mem : Mem) (addr v : ℕ)
    → addr + 2 ≤ mem.size
    → v < 2 ^ 16
    → read16 (write16 mem addr v) addr ≡ v
unfolding read16 write16
read16-write16 mem addr v h hv =
    ap (λ (o : Option (List ℕ)). elim o [ none ↦ 0 | some bs ↦ value_of bs ])
      (read-write_inside mem addr (bytes16 v) (unfold bytes16 in h))
    ∙ value_of-bytes16 v hv
