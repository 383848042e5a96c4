-- ===== src/Vm/Exec.antt =====
-- `execute` of VM/devices/vm.c. The ports are a parameter (`Devices`), so that the executor does not
-- depend on the device model; so is
-- what a local holds that a failed read leaves unset (`junk`, by the local).
use bailey_forbes_flinstone.Base.{
  ℕ, ◌+◌, ◌-◌, ◌*◌, ◌/◌, ◌%◌, ◌^◌, Bool, true, false, not, Option, none, some, ltb, leb, ◌==◌,
  if◌then◌else◌, update, u8, u16, u32, bit_and,
}
use bailey_forbes_flinstone.Vm.Mem.{Mem, read, write, write8, value_of, bytes16, bytes32}
use bailey_forbes_flinstone.Vm.Cpu.{
  Cpu, Reg, eax, edx, esp, edi, get_reg32, set_reg32, get_reg8_lo, set_reg8_lo, linear_addr,
  translate_addr,
}
use bailey_forbes_flinstone.Vm.Decode.{
  Opcode, nop, hlt, input, output, input_dx, output_dx, mov, add, sub, inc, dec, cmp, test, push,
  pop, jmp, jz, jnz, int, iret, ret, stosb, mov_cr, unknown, Instr, sign_extend8,
}

-- `vm_io_in(mem, port, size)` and `vm_io_out(mem, port, value, size)` over a device state `S`. A
-- write may change guest RAM, since it can make a system call.
pub record Devices (S : Type 0) : Type 0 where
  pub io_in : S → Mem → ℕ → ℕ → ℕ × S
  pub io_out : S → Mem → ℕ → ℕ → ℕ → S × Mem

pub record Machine (S : Type 0) : Type 0 where
  pub cpu : Cpu
  pub mem : Mem
  pub dev : S

abbrev pub is_reg : Reg → Bool
is_reg none = false
is_reg (some r) = ltb r 8

abbrev pub is_absent : Reg → Bool
is_absent none = true
is_absent (some r) = false

abbrev pub is_number : Reg → ℕ → Bool
is_number none n = false
is_number (some r) n = r == n

-- ZF is bit 6 of `eflags`: `eflags & 0x40`, `eflags | 0x40` and `eflags & ~0x40`.
unfoldable pub zero_flag : Cpu → Bool
zero_flag cpu = cpu.eflags / 2 ^ 6 % 2 == 1

unfoldable pub with_zero_flag : Cpu → Bool → Cpu
with_zero_flag cpu z =
    let other = cpu.eflags - cpu.eflags / 2 ^ 6 % 2 * 2 ^ 6 in
    record cpu { eflags = if z then other + 2 ^ 6 else other }

-- The linear address of the top of the stack, translated.
unfoldable pub stack_phys : Cpu → Mem → ℕ
unfolding linear_addr translate_addr
stack_phys cpu mem = translate_addr cpu mem (linear_addr cpu.ss (cpu.regs esp))

-- `cpu->esp += n` and `cpu->esp -= n`
unfoldable pub raise_esp : Cpu → ℕ → Cpu
raise_esp cpu n = record cpu { regs = update cpu.regs esp (u32 (cpu.regs esp + n)) }

unfoldable pub lower_esp : Cpu → ℕ → Cpu
lower_esp cpu n = record cpu { regs = update cpu.regs esp (u32 (cpu.regs esp + 2 ^ 32 - n)) }

-- `vm_mem_read` into a local that holds `old`.
unfoldable pub read_or : Mem → ℕ → ℕ → ℕ → ℕ
unfolding read value_of
read_or mem addr n old = elim (read mem addr n) [ none ↦ old | some bs ↦ value_of bs ]

-- The relative jumps: `cpu->eip += (int32_t)(int8_t)in->imm + in->size`.
unfoldable pub jump : Cpu → Instr → Cpu
unfolding sign_extend8
jump cpu i = record cpu { eip = u32 (cpu.eip + sign_extend8 (u8 i.imm) + i.size) }

module _ {S : Type 0} where
  unfoldable pub exec_push : Machine S → Instr → Machine S
  unfolding lower_esp stack_phys get_reg32 write bytes32
  exec_push m i =
      let cpu = lower_esp m.cpu 4 in
      record m {
        cpu = cpu;
        mem = (write m.mem (stack_phys cpu m.mem) (bytes32 (get_reg32 cpu i.dst_reg))).1;
      }

  unfoldable pub exec_pop : ℕ → Machine S → Instr → Machine S
  unfolding raise_esp stack_phys set_reg32 read_or
  exec_pop junk m i =
      let v = read_or m.mem (stack_phys m.cpu m.mem) 4 junk in
      record m { cpu = set_reg32 (raise_esp m.cpu 4) i.dst_reg v }

  unfoldable pub exec_ret : ℕ → Machine S → Machine S
  unfolding raise_esp stack_phys read_or
  exec_ret junk m =
      let ip = read_or m.mem (stack_phys m.cpu m.mem) 2 junk in
      record m { cpu = record (raise_esp m.cpu 2) { eip = ip } }

  -- One of the three pushes of INT.
  unfoldable pub push16 : Machine S → ℕ → Machine S
  unfolding lower_esp stack_phys write bytes16
  push16 m v =
      let cpu = lower_esp m.cpu 2 in
      record m { cpu = cpu; mem = (write m.mem (stack_phys cpu m.mem) (bytes16 v)).1 }

  unfoldable pub exec_int : Machine S → Instr → Machine S
  unfolding push16 translate_addr read_or
  exec_int m i =
      let flags = u16 m.cpu.eflags in
      let cs = u16 m.cpu.cs in
      let ip = u16 m.cpu.eip in
      let m' = push16 (push16 (push16 m flags) cs) ip in
      let ivt = translate_addr m'.cpu m'.mem (u8 i.imm * 4) in
      let ip' = read_or m'.mem ivt 2 ip in
      let cs' = read_or m'.mem (u32 (ivt + 2)) 2 cs in
      if leb (u32 (ivt + 4)) m'.mem.size
      then record m' { cpu = record m'.cpu { eip = ip'; cs = cs' } }
      else m'

  unfoldable pub exec_iret : (ℕ → ℕ) → Machine S → Machine S
  unfolding raise_esp stack_phys read_or
  exec_iret junk m =
      let ip = read_or m.mem (stack_phys m.cpu m.mem) 2 (junk 2) in
      let cpu₁ = raise_esp m.cpu 2 in
      let cs = read_or m.mem (stack_phys cpu₁ m.mem) 2 (junk 3) in
      let cpu₂ = raise_esp cpu₁ 2 in
      let flags = read_or m.mem (stack_phys cpu₂ m.mem) 2 (junk 4) in
      let cpu₃ = raise_esp cpu₂ 2 in
      record m {
        cpu = record cpu₃ { eip = ip; cs = cs; eflags = cpu₃.eflags / 2 ^ 16 * 2 ^ 16 + flags };
      }

  unfoldable pub exec_stosb : Machine S → Machine S
  unfolding linear_addr translate_addr get_reg8_lo write8
  exec_stosb m =
      let di = m.cpu.regs edi in
      let phys = translate_addr m.cpu m.mem (linear_addr m.cpu.es (u16 di)) in
      record m {
        cpu = record m.cpu { regs = update m.cpu.regs edi (di / 2 ^ 16 * 2 ^ 16 + u16 (di + 1)) };
        mem = write8 m.mem phys (get_reg8_lo m.cpu (some eax));
      }

  -- ADD and SUB with the result `r a b` of the operands.
  unfoldable pub exec_arith : (ℕ → ℕ → ℕ) → Machine S → Instr → Machine S
  unfolding get_reg32 set_reg32 sign_extend8 with_zero_flag
  exec_arith r m i =
      let a = get_reg32 m.cpu i.dst_reg in
      let b = if is_reg i.src_reg then get_reg32 m.cpu i.src_reg else sign_extend8 (u8 i.imm) in
      let v = u32 (r a b) in
      if is_reg i.dst_reg
      then record m { cpu = with_zero_flag (set_reg32 m.cpu i.dst_reg v) (v == 0) }
      else m

  unfoldable pub exec_step_reg : ℕ → Machine S → Instr → Machine S
  unfolding get_reg32 set_reg32
  exec_step_reg by m i =
      if is_reg i.dst_reg
      then record m { cpu = set_reg32 m.cpu i.dst_reg (u32 (get_reg32 m.cpu i.dst_reg + by)) }
      else m

  unfoldable pub exec_mov_cr : Machine S → Instr → Machine S
  unfolding get_reg32 set_reg32
  exec_mov_cr m i =
      let crval =
        if is_number i.dst_reg 0
        then m.cpu.cr0
        else if is_number i.dst_reg 3
        then m.cpu.cr3
        else 0 in
      let val = if is_reg i.src_reg then get_reg32 m.cpu i.src_reg else 0 in
      if i.imm == 0
      then (if is_reg i.src_reg then record m { cpu = set_reg32 m.cpu i.src_reg crval } else m)
      else if is_number i.dst_reg 0
      then record m { cpu = record m.cpu { cr0 = val } }
      else if is_number i.dst_reg 3
      then record m { cpu = record m.cpu { cr3 = val } }
      else m

module _ {S : Type 0} (d : Devices S) (junk : ℕ → ℕ) where
  unfoldable pub exec_in : Machine S → ℕ → Machine S
  unfolding set_reg8_lo
  exec_in m port =
      let (v, dev) = d.io_in m.dev m.mem port 1 in
      record m { cpu = set_reg8_lo m.cpu (some eax) (u8 v); dev = dev }

  unfoldable pub exec_in_dx : Machine S → Machine S
  unfolding get_reg32 set_reg32
  exec_in_dx m =
      let (v, dev) = d.io_in m.dev m.mem (u16 (get_reg32 m.cpu (some edx))) 4 in
      record m { cpu = set_reg32 m.cpu (some eax) v; dev = dev }

  unfoldable pub exec_out : Machine S → ℕ → ℕ → ℕ → Machine S
  exec_out m port v size =
      let (dev, mem) = d.io_out m.dev m.mem port v size in record m { mem = mem; dev = dev }

  -- The `switch` of `execute`; `none` is the -1 of its default.
  unfoldable pub dispatch : Opcode → Machine S → Instr → Option (Machine S)
  unfolding exec_push exec_pop exec_ret exec_int exec_iret exec_stosb exec_arith exec_step_reg
      exec_mov_cr exec_in exec_in_dx exec_out jump zero_flag with_zero_flag get_reg8_lo get_reg32
      set_reg32
  dispatch nop m i = some m
  dispatch hlt m i = some (record m { cpu = record m.cpu { halted = true } })
  dispatch input m i = some (exec_in m i.imm)
  dispatch output m i = some (exec_out m i.imm (get_reg8_lo m.cpu (some eax)) 1)
  dispatch input_dx m i = some (exec_in_dx m)
  dispatch output_dx m i =
      some (exec_out m (u16 (get_reg32 m.cpu (some edx))) (get_reg32 m.cpu (some eax)) 4)
  dispatch mov m i =
      some
        (if not (is_reg i.src_reg) then record m { cpu = set_reg32 m.cpu i.dst_reg i.imm } else m)
  dispatch push m i = some (exec_push m i)
  dispatch pop m i = some (exec_pop (junk 0) m i)
  dispatch jmp m i = some (record m { cpu = jump m.cpu i })
  dispatch ret m i = some (exec_ret (junk 1) m)
  dispatch int m i = some (exec_int m i)
  dispatch iret m i = some (exec_iret junk m)
  dispatch stosb m i = some (exec_stosb m)
  dispatch inc m i = some (exec_step_reg 1 m i)
  dispatch dec m i = some (exec_step_reg (2 ^ 32 - 1) m i)
  dispatch cmp m i =
      some (record m { cpu = with_zero_flag m.cpu (get_reg8_lo m.cpu (some eax) == u8 i.imm) })
  dispatch test m i = some (record m {
    cpu = with_zero_flag m.cpu (bit_and (get_reg8_lo m.cpu (some eax)) (u8 i.imm) == 0);
  })
  dispatch jz m i = some (if zero_flag m.cpu then record m { cpu = jump m.cpu i } else m)
  dispatch jnz m i = some (if zero_flag m.cpu then m else record m { cpu = jump m.cpu i })
  dispatch add m i = some (exec_arith (λ a b. a + b) m i)
  dispatch sub m i = some (exec_arith (λ a b. a + 2 ^ 32 - b) m i)
  dispatch mov_cr m i = some (exec_mov_cr m i)
  dispatch unknown m i = none

  unfoldable pub execute : Machine S → Instr → Option (Machine S)
  unfolding dispatch
  execute m i = dispatch i.op m i
