-- ===== src/Vm/Step/Fetch.antt =====
-- The guard of the fetch against the accesses that it is there for.
use bailey_forbes_flinstone.Base.{ℕ, ◌+◌, ◌^◌, ◌≡◌, ◌≤◌, ◌<◌, ◌⊎◌, ◌↔◌, true, false, arith}
use bailey_forbes_flinstone.Vm.Step.{may_fetch}
use bailey_forbes_flinstone.Vm.Cpu.{entry_outside}

-- The fetch guard of `vm_run_step` passes for exactly two kinds of 32-bit address: those whose next
-- 16 bytes end below 2 ^ 32 and within the RAM, and those where the sum `phys + 16` wraps, which are
-- the last 16 addresses of the 32-bit space, and what is left of the sum is at most the size.
pub may_fetch_iff :
    (size phys : ℕ)
    → phys < 2 ^ 32
    → (may_fetch size phys ≡ true)
      ↔ ((phys + 16 < 2 ^ 32) × (phys + 16 ≤ size))
        ⊎ ((2 ^ 32 ≤ phys + 16) × (phys + 16 ≤ size + 2 ^ 32))
unfolding may_fetch
may_fetch_iff size phys h = ground arith

-- The guards of `vm_cpu_translate` before a table entry is read let through the entries inside the
-- RAM and, for every RAM, an entry that begins in the last four addresses of the 32-bit space.
pub entry_outside_iff :
    (size addr : ℕ)
    → addr < 2 ^ 32
    → 4 ≤ size
    → (entry_outside size addr ≡ false) ↔ (addr + 4 ≤ size) ⊎ (2 ^ 32 ≤ addr + 4)
unfolding entry_outside
entry_outside_iff size addr h hs = ground arith
