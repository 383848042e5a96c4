-- ===== src/Vm/Decode/Bounds.antt =====
-- What every decoded instruction satisfies.
use bailey_forbes_flinstone.Base.{
  ℕ, ◌+◌, ◌≡◌, ◌≤◌, ◌<◌, arith, Option, none, some, inl, inr, ◌==◌, if◌then◌else◌, ltb, Bool-cases,
  ==→eq, u32,
}
use bailey_forbes_flinstone.Vm.Cpu.{Reg}
use bailey_forbes_flinstone.Vm.Decode.{
  Instr, Opcode, add, sub, Decoded, decode, decode_modrm, decode_mov_cr, decode_switch,
  decode_to_rm, decode_to_reg, decode_group83, decode_range, with_registers,
}

abbrev pub IsReg : Reg → Type 0
IsReg none = Unit
IsReg (some r) = r < 8

-- A decoded instruction has one to five bytes, and its operands are registers or none.
abbrev pub IsInstr : Instr → Type 0
IsInstr i = (1 ≤ i.size) × (i.size ≤ 5) × IsReg i.dst_reg × IsReg i.src_reg

abbrev pub Yields : Option Instr → Type 0
Yields none = Unit
Yields (some i) = IsInstr i

abbrev IsDirect : Option Decoded → Type 0
IsDirect none = Unit
IsDirect (some d) =
    (d.modrm.reg < 8)
    × (d.modrm.rm < 8)
    × (1 ≤ d.consumed)
    × (d.modrm.mod_field ≡ 3 → d.consumed ≡ 1)

-- With two register operands the ModRM byte stands alone.
decode_modrm-IsDirect : (ram : ℕ → ℕ) (addr size : ℕ) → IsDirect (decode_modrm ram addr size)
unfolding decode_modrm
decode_modrm-IsDirect ram addr size = ground arith

with_registers-Yields :
    (o : Option Decoded) (shape : Decoded → Option Instr)
    → IsDirect o
    → ((d : Decoded) → d.modrm.reg < 8 → d.modrm.rm < 8 → d.consumed ≡ 1 → Yields (shape d))
    → Yields (with_registers o shape)
unfolding with_registers
with_registers-Yields none shape v h = tt
with_registers-Yields (some d) shape v h = elim (Bool-cases (d.modrm.mod_field == 3)) [
  | inl e ↦ rw e (h d v.0 v.1 (v.3 (==→eq d.modrm.mod_field 3 e)))
  | inr ne ↦ rw ne tt
]

module _ (ram : ℕ → ℕ) (addr size : ℕ) where
  mov_cr-Yields : (imm : ℕ) → Yields (decode_mov_cr ram addr size imm)
  unfolding decode_mov_cr
  mov_cr-Yields imm =
      with_registers-Yields _ _ (decode_modrm-IsDirect ram (u32 (addr + 2)) size)
        (λ d a b c. omega arith)

  to_rm-Yields : (op : Opcode) → Yields (decode_to_rm ram addr size op)
  unfolding decode_to_rm
  to_rm-Yields op =
      with_registers-Yields _ _ (decode_modrm-IsDirect ram (u32 (addr + 1)) size)
        (λ d a b c. omega arith)

  to_reg-Yields : (op : Opcode) → Yields (decode_to_reg ram addr size op)
  unfolding decode_to_reg
  to_reg-Yields op =
      with_registers-Yields _ _ (decode_modrm-IsDirect ram (u32 (addr + 1)) size)
        (λ d a b c. omega arith)

  group83-Yields : Yields (decode_group83 ram addr size)
  unfolding decode_group83
  group83-Yields =
      with_registers-Yields _ _ (decode_modrm-IsDirect ram (u32 (addr + 1)) size)
        (λ d a b c. ground arith)

  range-Yields : (b0 b1 : ℕ) → Yields (decode_range ram addr b0 b1)
  unfolding decode_range
  range-Yields b0 b1 = ground arith

  switch-Yields : (b0 b1 : ℕ) → Yields (decode_switch ram addr size b0 b1)
  switch-Yields b0 b1 =
      unfold decode_switch in
      ground (
        arith,
        to_rm-Yields add,
        to_reg-Yields add,
        to_rm-Yields sub,
        to_reg-Yields sub,
        group83-Yields,
        range-Yields b0 b1,
      )

  -- Whatever the bytes are, an instruction that `vm_decode` accepts has between one and five bytes,
  -- and each of its operands is -1 or the number of one of the eight registers.
  pub decode-IsInstr : Yields (decode ram addr size)
  decode-IsInstr =
      unfold decode in
      ground (
        arith,
        mov_cr-Yields 0,
        mov_cr-Yields 1,
        switch-Yields (ram addr) (if ltb (u32 (addr + 1)) size then ram (u32 (addr + 1)) else 0),
      )
