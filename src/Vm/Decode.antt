-- ===== src/Vm/Decode.antt =====
-- VM/devices/vm_decode.c and VM/devices/vm_decode.h. `mem` and `out` are not NULL. Of `vm_instr_t` the
-- fields that the executor reads are kept; `modrm` and `sib` are the result of `decode_modrm`.
pub mod Bounds
use bailey_forbes_flinstone.Base.{
  ℕ, zero, suc, ◌+◌, ◌-◌, ◌*◌, ◌/◌, ◌%◌, ◌^◌, Bool, true, false, ◌&&◌, ◌||◌, not, Option, none,
  some, ltb, leb, ◌==◌, if◌then◌else◌, u8, u32,
}
use bailey_forbes_flinstone.Vm.Cpu.{Reg, load32}

-- `vm_opcode_t`
pub data Opcode : Type 0 where
  nop hlt input output input_dx output_dx mov add sub inc dec cmp test push pop : Opcode
  jmp jz jnz int iret ret stosb mov_cr unknown : Opcode

-- `vm_modrm_t` and `vm_sib_t`
pub record Modrm : Type 0 where
  pub mod_field : ℕ
  pub reg : ℕ
  pub rm : ℕ
  pub disp : ℕ
  pub disp_bytes : ℕ

pub record Sib : Type 0 where
  pub scale : ℕ
  pub index : ℕ
  pub base : ℕ

-- `vm_instr_t`
pub record Instr : Type 0 where
  pub op : Opcode
  pub dst_reg : Reg
  pub src_reg : Reg
  pub imm : ℕ
  pub size : ℕ

-- `(int32_t)(int8_t)b` as a 32-bit pattern
unfoldable pub sign_extend8 : ℕ → ℕ
sign_extend8 b = if ltb b 128 then b else b + (2 ^ 32 - 2 ^ 8)

-- What `decode_modrm` leaves in `out` and `sib_out`, and the bytes that it consumed.
pub record Decoded : Type 0 where
  pub modrm : Modrm
  pub sib : Option Sib
  pub consumed : ℕ

-- The displacement: its value, its length and the bytes consumed with the ModRM byte.
unfoldable pub modrm_disp : (ℕ → ℕ) → ℕ → ℕ → ℕ → ℕ × ℕ × ℕ
unfolding sign_extend8 load32
modrm_disp ram addr mod_field rm =
    if mod_field == 1
    then (sign_extend8 (ram (addr + 1)), 1, 2)
    else if mod_field == 2 || mod_field == 0 && rm == 5
    then (load32 ram (addr + 1), 4, 5)
    else (0, 0, 1)

-- `scale` is a field of two bits.
unfoldable pub sib_of : ℕ → Sib
sib_of s = record { scale = 2 ^ (s / 2 ^ 6 % 4) % 4; index = s / 2 ^ 3 % 8; base = s % 8 }

-- The part of `decode_modrm` after the displacement; `n` bytes are consumed.
unfoldable pub decode_sib : (ℕ → ℕ) → ℕ → Modrm → ℕ → Decoded
unfolding sib_of load32
decode_sib ram addr modrm n =
    let sib = sib_of (ram (addr + n)) in
    let long : Decoded = record {
      modrm = record modrm { disp = load32 ram (addr + n + 1); disp_bytes = 4 };
      sib = some sib;
      consumed = n + 5;
    } in
    let short : Decoded = record { modrm = modrm; sib = some sib; consumed = n + 1 } in
    let direct : Decoded = record { modrm = modrm; sib = none; consumed = n } in
    if not (modrm.mod_field == 3) && modrm.rm == 4
    then (if modrm.mod_field == 0 && sib.base == 5 then long else short)
    else direct

unfoldable pub decode_modrm : (ℕ → ℕ) → ℕ → ℕ → Option Decoded
unfolding modrm_disp decode_sib
decode_modrm ram addr mem_size =
    let b = ram addr in
    let mod_field = b / 2 ^ 6 % 4 in
    let rm = b % 8 in
    let (disp, disp_bytes, n) = modrm_disp ram addr mod_field rm in
    let modrm : Modrm = record {
      mod_field = mod_field;
      reg = b / 2 ^ 3 % 8;
      rm = rm;
      disp = disp;
      disp_bytes = disp_bytes;
    } in
    if ltb mem_size 6 || ltb mem_size (u32 (addr + 6))
    then none
    else some (decode_sib ram addr modrm n)

-- An instruction with no register operand, or with a destination alone.
abbrev pub plain_op : Opcode → ℕ → ℕ → Instr
plain_op op imm size = record { op = op; dst_reg = none; src_reg = none; imm = imm; size = size }

abbrev pub reg_op : Opcode → ℕ → ℕ → ℕ → Instr
reg_op op dst imm size = record {
  op = op;
  dst_reg = some dst;
  src_reg = none;
  imm = imm;
  size = size;
}

-- A two-operand form whose ModRM byte must name two registers; `shape` builds the instruction.
unfoldable pub with_registers : Option Decoded → (Decoded → Option Instr) → Option Instr
with_registers none shape = none
with_registers (some d) shape = if d.modrm.mod_field == 3 then shape d else none

-- 0x20 reads a control register (`imm` 0), 0x22 writes one (`imm` 1).
unfoldable pub decode_mov_cr : (ℕ → ℕ) → ℕ → ℕ → ℕ → Option Instr
unfolding decode_modrm with_registers
decode_mov_cr ram addr mem_size imm =
    with_registers (decode_modrm ram (u32 (addr + 2)) mem_size) λ d. some (record {
      op = mov_cr;
      dst_reg = some d.modrm.reg;
      src_reg = some d.modrm.rm;
      imm = imm;
      size = 2 + d.consumed;
    })

-- 0x01 and 0x29: the destination is r/m.
unfoldable pub decode_to_rm : (ℕ → ℕ) → ℕ → ℕ → Opcode → Option Instr
unfolding decode_modrm with_registers
decode_to_rm ram addr mem_size op = with_registers (decode_modrm ram (u32 (addr + 1)) mem_size) λ d.
    some (record {
      op = op;
      dst_reg = some d.modrm.rm;
      src_reg = some d.modrm.reg;
      imm = 0;
      size = 1 + d.consumed;
    })

-- 0x03 and 0x2B: the destination is the register field.
unfoldable pub decode_to_reg : (ℕ → ℕ) → ℕ → ℕ → Opcode → Option Instr
unfolding decode_modrm with_registers
decode_to_reg ram addr mem_size op =
    with_registers (decode_modrm ram (u32 (addr + 1)) mem_size) λ d. some (record {
      op = op;
      dst_reg = some d.modrm.reg;
      src_reg = some d.modrm.rm;
      imm = 0;
      size = 1 + d.consumed;
    })

-- 0x83: the register field is the operation.
unfoldable pub decode_group83 : (ℕ → ℕ) → ℕ → ℕ → Option Instr
unfolding decode_modrm with_registers sign_extend8
decode_group83 ram addr mem_size = with_registers (decode_modrm ram (u32 (addr + 1)) mem_size) λ d.
    let n = d.consumed in
    let shape : Opcode → Option Instr =
      λ op. some (reg_op op d.modrm.rm (sign_extend8 (ram (u32 (addr + 1 + n)))) (1 + n + 1)) in
    if ltb mem_size (u32 (addr + 1 + n + 1))
    then none
    else if d.modrm.reg == 0
    then shape add
    else if d.modrm.reg == 5
    then shape sub
    else none

-- The opcodes that hold a register in their low three bits, after the `switch`.
unfoldable pub decode_range : (ℕ → ℕ) → ℕ → ℕ → ℕ → Option Instr
unfolding load32
decode_range ram addr b0 b1 =
    if leb 0x40 b0 && leb b0 0x47
    then some (reg_op inc (b0 - 0x40) 0 1)
    else if leb 0x48 b0 && leb b0 0x4F
    then some (reg_op dec (b0 - 0x48) 0 1)
    else if leb 0xB0 b0 && leb b0 0xB7
    then some (reg_op mov (b0 - 0xB0) b1 2)
    else if leb 0xB8 b0 && leb b0 0xBF
    then some (reg_op mov (b0 - 0xB8) (load32 ram (addr + 1)) 5)
    else if leb 0x50 b0 && leb b0 0x57
    then some (reg_op push (b0 - 0x50) 0 1)
    else if leb 0x58 b0 && leb b0 0x5F
    then some (reg_op pop (b0 - 0x58) 0 1)
    else none

-- The `switch` on the first byte `b0`; `b1` is the second.
unfoldable pub decode_switch : (ℕ → ℕ) → ℕ → ℕ → ℕ → ℕ → Option Instr
unfolding sign_extend8 decode_to_rm decode_to_reg decode_group83 decode_range
decode_switch ram addr mem_size b0 b1 =
    if b0 == 0x90
    then some (plain_op nop 0 1)
    else if b0 == 0xF4
    then some (plain_op hlt 0 1)
    else if b0 == 0xE4
    then some (plain_op input b1 2)
    else if b0 == 0xE6
    then some (plain_op output b1 2)
    else if b0 == 0xED
    then some (plain_op input_dx 0 1)
    else if b0 == 0xEF
    then some (plain_op output_dx 0 1)
    else if b0 == 0xEB
    then some (plain_op jmp (sign_extend8 b1) 2)
    else if b0 == 0xC3
    then some (plain_op ret 0 1)
    else if b0 == 0xCD
    then some (plain_op int b1 2)
    else if b0 == 0xCF
    then some (plain_op iret 0 1)
    else if b0 == 0xAA
    then some (plain_op stosb 0 1)
    else if b0 == 0x3C
    then some (reg_op cmp 0 b1 2)
    else if b0 == 0xA8
    then some (reg_op test 0 b1 2)
    else if b0 == 0x74
    then some (plain_op jz (sign_extend8 b1) 2)
    else if b0 == 0x75
    then some (plain_op jnz (sign_extend8 b1) 2)
    else if b0 == 0x01
    then decode_to_rm ram addr mem_size add
    else if b0 == 0x03
    then decode_to_reg ram addr mem_size add
    else if b0 == 0x29
    then decode_to_rm ram addr mem_size sub
    else if b0 == 0x2B
    then decode_to_reg ram addr mem_size sub
    else if b0 == 0x83
    then decode_group83 ram addr mem_size
    else decode_range ram addr b0 b1

-- `none` is -1. The second byte of an instruction at the end of RAM reads as 0.
unfoldable pub decode : (ℕ → ℕ) → ℕ → ℕ → Option Instr
unfolding decode_mov_cr decode_switch
decode ram addr mem_size =
    let b0 = ram addr in
    let b1 = if ltb (u32 (addr + 1)) mem_size then ram (u32 (addr + 1)) else 0 in
    if ltb mem_size 2
    then none
    else if b0 == 0x0F
    then if b1 == 0x20
      then decode_mov_cr ram addr mem_size 0
      else if b1 == 0x22
      then decode_mov_cr ram addr mem_size 1
      else none
    else decode_switch ram addr mem_size b0 b1
