-- ===== src/Vm/Mem.antt =====
-- VM/devices/vm_mem.c: guest RAM. `mem` and `mem->ram` are not NULL; `ram` is the function of the
-- guest address. A `size_t` sum of a 32-bit address and a short length does not wrap.
pub mod Laws
use bailey_forbes_flinstone.Base.{
  ℕ, zero, suc, ◌+◌, ◌*◌, ◌/◌, ◌%◌, ◌^◌, Bool, true, false, Option, none, some, List, [], ◌∷◌, ltb,
  leb, if◌then◌else◌, update, length, u8,
}

-- `vm_mem_t`
pub record Mem : Type 0 where
  pub ram : ℕ → ℕ
  pub size : ℕ

-- `asm_mem_copy` out of guest RAM and into it
unfoldable pub read_bytes : (ℕ → ℕ) → ℕ → ℕ → List ℕ
read_bytes ram addr zero = []
read_bytes ram addr (suc n) = ram addr ∷ read_bytes ram (addr + 1) n

unfoldable pub write_bytes : (ℕ → ℕ) → ℕ → List ℕ → ℕ → ℕ
write_bytes ram addr [] = ram
write_bytes ram addr (b ∷ bs) = write_bytes (update ram addr b) (addr + 1) bs

-- `none` is the return value -1, with nothing copied.
unfoldable pub read : Mem → ℕ → ℕ → Option (List ℕ)
read mem addr n = if ltb mem.size (addr + n) then none else some (read_bytes mem.ram addr n)

-- `false` is -1. `vm_mem_load` and `vm_load_binary` have the same body.
unfoldable pub write : Mem → ℕ → List ℕ → Bool × Mem
write mem addr bs =
    if ltb mem.size (addr + length bs)
    then (false, mem)
    else (true, record mem { ram = write_bytes mem.ram addr bs })

unfoldable pub read8 : Mem → ℕ → ℕ
read8 mem addr = if leb mem.size addr then 0 else mem.ram addr

unfoldable pub write8 : Mem → ℕ → ℕ → Mem
write8 mem addr v = if leb mem.size addr then mem else record mem { ram = update mem.ram addr v }

-- `asm_mem_zero(mem->ram, mem->size)`
unfoldable pub clear : Mem → Mem
clear mem = record mem { ram = λ i. if ltb i mem.size then 0 else mem.ram i }

-- A value of 2 or 4 bytes in memory, lowest byte first.
unfoldable pub bytes16 : ℕ → List ℕ
bytes16 v = u8 v ∷ u8 (v / 2 ^ 8) ∷ []

unfoldable pub bytes32 : ℕ → List ℕ
bytes32 v = u8 v ∷ u8 (v / 2 ^ 8) ∷ u8 (v / 2 ^ 16) ∷ u8 (v / 2 ^ 24) ∷ []

unfoldable pub value_of : List ℕ → ℕ
value_of [] = 0
value_of (b ∷ bs) = b + 2 ^ 8 * value_of bs

-- `vm_mem_read16` and `vm_mem_write16`
unfoldable pub read16 : Mem → ℕ → ℕ
unfolding read value_of
read16 mem addr = elim (read mem addr 2) [ none ↦ 0 | some bs ↦ value_of bs ]

unfoldable pub write16 : Mem → ℕ → ℕ → Mem
unfolding write bytes16
write16 mem addr v = (write mem addr (bytes16 v)).1
