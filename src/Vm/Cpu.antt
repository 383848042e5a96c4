-- ===== src/Vm/Cpu.antt =====
-- VM/devices/vm_cpu.c and the register access of VM/devices/vm.c. Every register is a 32-bit value.
-- The eight general registers are an array in the order of the table in `get_reg32`.
use bailey_forbes_flinstone.Base.{
  ℕ, ◌+◌, ◌*◌, ◌/◌, ◌%◌, ◌^◌, Bool, false, Option, none, some, ltb, ◌==◌, if◌then◌else◌, update, u8,
  u32,
}
use bailey_forbes_flinstone.Vm.Mem.{Mem, read_bytes, value_of}

-- `vm_cpu_t`
pub record Cpu : Type 0 where
  pub regs : ℕ → ℕ
  pub eip : ℕ
  pub cs : ℕ
  pub ds : ℕ
  pub es : ℕ
  pub ss : ℕ
  pub fs : ℕ
  pub gs : ℕ
  pub eflags : ℕ
  pub cr0 : ℕ
  pub cr3 : ℕ
  pub halted : Bool

abbrev pub eax : ℕ
eax = 0

abbrev pub edx : ℕ
edx = 2

abbrev pub esp : ℕ
esp = 4

abbrev pub edi : ℕ
edi = 7

-- `vm_cpu_init`
unfoldable pub init : Cpu
init = record {
  regs = λ r. 0;
  eip = 0;
  cs = 0x07c0;
  ds = 0;
  es = 0;
  ss = 0;
  fs = 0;
  gs = 0;
  eflags = 0;
  cr0 = 0;
  cr3 = 0;
  halted = false;
}

-- A register number; `none` is the -1 of an operand that is no register.
abbrev pub Reg : Type 0
Reg = Option ℕ

unfoldable pub get_reg32 : Cpu → Reg → ℕ
get_reg32 cpu none = 0
get_reg32 cpu (some r) = if ltb r 8 then cpu.regs r else 0

unfoldable pub set_reg32 : Cpu → Reg → ℕ → Cpu
set_reg32 cpu none v = cpu
set_reg32 cpu (some r) v = if ltb r 8 then record cpu { regs = update cpu.regs r v } else cpu

unfoldable pub get_reg8_lo : Cpu → Reg → ℕ
unfolding get_reg32
get_reg8_lo cpu r = u8 (get_reg32 cpu r)

-- `(x & 0xFFFFFF00) | v`, for a byte `v`
unfoldable pub set_reg8_lo : Cpu → Reg → ℕ → Cpu
unfolding get_reg32 set_reg32
set_reg8_lo cpu r v = set_reg32 cpu r (get_reg32 cpu r / 2 ^ 8 * 2 ^ 8 + v)

unfoldable pub linear_addr : ℕ → ℕ → ℕ
linear_addr seg offset = u32 (u32 (seg * 2 ^ 4) + offset)

unfoldable pub load32 : (ℕ → ℕ) → ℕ → ℕ
unfolding read_bytes value_of
load32 ram addr = value_of (read_bytes ram addr 4)

-- VM_CR0_PG is bit 31, the present bit of an entry is bit 0, and `x & 0xFFFFF000` is `page_of x`.
unfoldable pub paging : ℕ → Bool
paging cr0 = cr0 / 2 ^ 31 % 2 == 1

unfoldable pub present : ℕ → Bool
present entry = entry % 2 == 1

unfoldable pub page_of : ℕ → ℕ
page_of x = x / 2 ^ 12 * 2 ^ 12

unfoldable pub pde_addr : ℕ → ℕ → ℕ
unfolding page_of
pde_addr cr3 linear = u32 (page_of cr3 + linear / 2 ^ 22 % 2 ^ 10 * 4)

unfoldable pub pte_addr : ℕ → ℕ → ℕ
unfolding page_of
pte_addr pde linear = u32 (page_of pde + linear / 2 ^ 12 % 2 ^ 10 * 4)

-- The guard `addr + 4 > ram_size`, whose sum is a 32-bit one.
unfoldable pub entry_outside : ℕ → ℕ → Bool
entry_outside size addr = ltb size (u32 (addr + 4))

unfoldable pub translate : (ℕ → ℕ) → ℕ → ℕ → ℕ → ℕ → ℕ
unfolding paging present page_of pde_addr pte_addr entry_outside load32
translate ram size cr0 cr3 linear =
    let pde = load32 ram (pde_addr cr3 linear) in
    let pte = load32 ram (pte_addr pde linear) in
    if paging cr0
    then if ltb size 4096
      then linear
      else if entry_outside size (pde_addr cr3 linear)
      then linear
      else if present pde
      then if entry_outside size (pte_addr pde linear)
        then linear
        else if present pte
        then u32 (page_of pte + linear % 2 ^ 12)
        else linear
      else linear
    else linear

unfoldable pub guest_eip_linear : Cpu → ℕ
unfolding linear_addr
guest_eip_linear cpu = linear_addr cpu.cs cpu.eip

unfoldable pub translate_addr : Cpu → Mem → ℕ → ℕ
unfolding translate
translate_addr cpu mem linear = translate mem.ram mem.size cpu.cr0 cpu.cr3 linear
