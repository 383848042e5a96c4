-- ===== src/Vm/Step.antt =====
-- The fetch loop of VM/devices/vm.c: `vm_run_step` and `vm_step_one`.
pub mod Fetch
pub mod Control
pub mod Loop
use bailey_forbes_flinstone.Base.{
  ℕ, zero, suc, ◌+◌, ◌^◌, Bool, true, false, Option, none, some, ltb, if◌then◌else◌, u32,
}
use bailey_forbes_flinstone.Vm.Mem.{Mem}
use bailey_forbes_flinstone.Vm.Cpu.{Cpu, guest_eip_linear, translate_addr}
use bailey_forbes_flinstone.Vm.Decode.{Opcode, jmp, Instr, decode}
use bailey_forbes_flinstone.Vm.Exec.{Devices, Machine, execute}

-- The negation of the guard `phys + 16 > mem->size`, whose sum is a 32-bit one.
unfoldable pub may_fetch : ℕ → ℕ → Bool
may_fetch size phys = if ltb size (u32 (phys + 16)) then false else true

abbrev pub is_jmp : Opcode → Bool
is_jmp jmp = true
is_jmp _ = false

-- `if (instr.op != VM_OP_JMP) cpu->eip += instr.size;`
unfoldable pub advance : Cpu → Instr → Cpu
advance cpu i = if is_jmp i.op then cpu else record cpu { eip = u32 (cpu.eip + i.size) }

unfoldable pub fetch_phys : {S : Type 0} → Machine S → ℕ
unfolding guest_eip_linear translate_addr
fetch_phys m = translate_addr m.cpu m.mem (guest_eip_linear m.cpu)

module _ {S : Type 0} (d : Devices S) (junk : ℕ → ℕ) where
  -- One instruction, fetched; `none` where `execute` breaks the loop.
  unfoldable pub perform : Machine S → Instr → Option (Machine S)
  unfolding advance
  perform m i = elim (execute d junk m i) [
    | none ↦ none
    | some m' ↦ some (record m' { cpu = advance m'.cpu i })
  ]

  -- The body of the loop; `none` is a `break`.
  unfoldable pub step : Machine S → Option (Machine S)
  unfolding fetch_phys may_fetch perform
  step m =
      if may_fetch m.mem.size (fetch_phys m)
      then (elim (decode m.mem.ram (fetch_phys m) m.mem.size) [
        | none ↦ none
        | some i ↦ perform m i
      ])
      else none

  -- `vm_run_step` with `n` instructions left and `count` done.
  unfoldable pub run_from : ℕ → Machine S → ℕ → ℕ × Machine S
  run_from zero m count = (count, m)
  run_from (suc n) m count = elim m.cpu.halted [
    | true ↦ (count, m)
    | false ↦ elim (step m) [ none ↦ (count, m) | some m' ↦ run_from n m' (count + 1) ]
  ]

  unfoldable pub run_step : Machine S → ℕ → ℕ × Machine S
  unfolding run_from
  run_step m max_instructions = run_from max_instructions m 0

  unfoldable pub step_one : Machine S → Machine S
  unfolding run_step
  step_one m = (run_step m 1).1
