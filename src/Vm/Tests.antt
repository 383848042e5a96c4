-- ===== src/Vm/Tests.antt =====
-- The machine on concrete programs, and the theorems at inputs that meet their hypotheses.
use bailey_forbes_flinstone.Base.{
  ℕ, ◌+◌, ◌^◌, ◌≡◌, ◌≤◌, ◌<◌, ◌⊎◌, ◌↔◌, refl, arith, true, false, none, some, List, [], ◌∷◌, length,
  leb, if◌then◌else◌, u32,
}
use bailey_forbes_flinstone.Vm.Mem.{Mem, read, write, write_bytes}
use bailey_forbes_flinstone.Vm.Mem.Laws.{read-write}
use bailey_forbes_flinstone.Vm.Cpu.{
  init, entry_outside, paging, translate, guest_eip_linear, linear_addr, translate_addr,
}
use bailey_forbes_flinstone.Vm.Decode.{decode, sign_extend8}
use bailey_forbes_flinstone.Vm.Decode.Bounds.{Yields, decode-IsInstr}
use bailey_forbes_flinstone.Vm.Exec.{Devices, Machine, zero_flag}
use bailey_forbes_flinstone.Vm.Step.{may_fetch, fetch_phys, step, run_step}
use bailey_forbes_flinstone.Vm.Step.Fetch.{may_fetch_iff, entry_outside_iff}
use bailey_forbes_flinstone.Vm.Step.Control.{if_zero, first_byte, taken, length_added, step-branch}
use bailey_forbes_flinstone.Vm.Step.Loop.{Steps, Ended, run_step-Steps}

abbrev program : List ℕ
program = 0x3C ∷ 0 ∷ 0x74 ∷ 2 ∷ 0xF4 ∷ 0xF4 ∷ 0x90 ∷ 0x90 ∷ 0xF4 ∷ []

abbrev ram : Mem
ram = record { ram = write_bytes (λ i. 0) 0 program; size = 64 }

-- Ports that keep what is written last.
abbrev ports : Devices ℕ
ports = record { io_in = λ s mem port size. (s, s); io_out = λ s mem port v size. (v, mem) }

abbrev machine : Machine ℕ
machine = record { cpu = record init { cs = 0 }; mem = ram; dev = 0 }

abbrev unset : ℕ → ℕ
unset i = 0

-- The same machine at the JZ with the zero flag set.
abbrev at_branch : Machine ℕ
at_branch = record machine { cpu = record init { cs = 0; eip = 2; eflags = 2 ^ 6 } }

abbrev two_bytes : List ℕ
two_bytes = 1 ∷ 2 ∷ []

read-write_example :
    let (ok, mem') = write ram 20 two_bytes in
    (ok ≡ leb (20 + length two_bytes) ram.size)
    × (read mem' 20 (length two_bytes)
        ≡ (if leb (20 + length two_bytes) ram.size then some two_bytes else none))
    × ((j : ℕ) → (j < 20) ⊎ (20 + length two_bytes ≤ j) → mem'.ram j ≡ ram.ram j)
    × (mem'.size ≡ ram.size)
read-write_example = read-write ram 20 two_bytes

decode-IsInstr_example : Yields (decode ram.ram 2 64)
decode-IsInstr_example = decode-IsInstr ram.ram 2 64

may_fetch_iff_example :
    (may_fetch 64 0xFFFFFFF8 ≡ true)
    ↔ ((0xFFFFFFF8 + 16 < 2 ^ 32) × (0xFFFFFFF8 + 16 ≤ 64))
      ⊎ ((2 ^ 32 ≤ 0xFFFFFFF8 + 16) × (0xFFFFFFF8 + 16 ≤ 64 + 2 ^ 32))
may_fetch_iff_example = may_fetch_iff 64 0xFFFFFFF8 (omega arith)

entry_outside_iff_example :
    (entry_outside 4096 4092 ≡ false) ↔ (4092 + 4 ≤ 4096) ⊎ (2 ^ 32 ≤ 4092 + 4)
entry_outside_iff_example = entry_outside_iff 4096 4092 (omega arith) (omega arith)

at_branch-phys : fetch_phys at_branch ≡ 2
unfolding fetch_phys guest_eip_linear linear_addr translate_addr translate paging init
at_branch-phys = refl

at_branch-first : at_branch.mem.ram (fetch_phys at_branch) ≡ first_byte if_zero
unfolding fetch_phys guest_eip_linear linear_addr translate_addr translate paging write_bytes init
at_branch-first = refl

at_branch-byte : at_branch.mem.ram (fetch_phys at_branch + 1) < 256
unfolding fetch_phys guest_eip_linear linear_addr translate_addr translate paging write_bytes init
at_branch-byte = omega arith

at_branch-inside : fetch_phys at_branch + 16 ≤ at_branch.mem.size
unfolding fetch_phys guest_eip_linear linear_addr translate_addr translate paging init
at_branch-inside = omega arith

step-branch_example :
    let disp = sign_extend8 (at_branch.mem.ram (fetch_phys at_branch + 1)) in
    step ports unset at_branch
    ≡ some (record at_branch {
      cpu = record at_branch.cpu {
        eip =
            if taken if_zero (zero_flag at_branch.cpu)
            then u32 (at_branch.cpu.eip + disp + length_added if_zero)
            else u32 (at_branch.cpu.eip + 2);
      };
    })
step-branch_example =
    step-branch ports unset at_branch if_zero at_branch-inside (omega arith) at_branch-first
      at_branch-byte

run_step-Steps_example :
    let (count, m') = run_step ports unset machine 5 in
    (count ≤ 5) × Steps ports unset count machine m' × Ended ports unset 5 count m'
run_step-Steps_example = run_step-Steps ports unset machine 5
