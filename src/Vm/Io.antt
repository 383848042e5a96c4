-- ===== src/Vm/Io.antt =====
-- VM/devices/vm_io.c: the ports of the machine. What lies outside of the file, the disk, the drivers,
-- the serial output and the system calls, is a parameter (`World`). A 32-bit mask is written as a
-- division and a remainder.
pub mod Ports
pub mod Config
pub mod Handlers
use bailey_forbes_flinstone.Base.{
  ℕ, zero, suc, ◌+◌, ◌-◌, ◌*◌, ◌/◌, ◌%◌, ◌^◌, Bool, true, false, ◌&&◌, ◌||◌, not, Option, none,
  some, ◌==◌, ltb, leb, if◌then◌else◌, update, u8, u16, u32,
}
use bailey_forbes_flinstone.Vm.Mem.{Mem}
use bailey_forbes_flinstone.Vm.Host.{Host}

abbrev pub sector_size : ℕ
sector_size = 512

abbrev pub pci_devices : ℕ
pci_devices = 4

abbrev pub pci_cfg_size : ℕ
pci_cfg_size = 256

-- An argument of a system call: a number, or a pointer to an offset of the guest RAM.
pub data Arg : Type 0 where
  number : ℕ → Arg
  pointer : ℕ → Arg

-- What the ports call, over a state `W`. `read_sector` is the disk image's, or that of the block
-- driver if the image is not active; its outer `none` is a missing driver, its inner one a failure.
pub record World (W : Type 0) : Type 0 where
  pub read_sector : W → ℕ → Option (Option (ℕ → ℕ))
  pub write_sector : W → ℕ → (ℕ → ℕ) → W
  pub poll_scancode : W → Option ℕ × W
  pub tick_count : W → Option ℕ
  pub serial : W → ℕ → W
  pub end_of_interrupt : W → ℕ → W
  pub syscall : W → Mem → ℕ → (ℕ → Arg) → ℕ × W × Mem

-- The static variables; `host` is `none` for NULL, and of the host the ports use the queue of
-- scancodes and the ticks.
pub record Io (W : Type 0) : Type 0 where
  pub sector_buf : ℕ → ℕ
  pub ide_lba : ℕ
  pub ide_byte_idx : ℕ
  pub pit_mode : ℕ
  pub host : Option Host
  pub pci_addr : ℕ
  pub reset_requested : Bool
  pub pci_cfg : Option (ℕ → ℕ)
  pub sys_no : ℕ
  pub sys_args : ℕ → ℕ
  pub sys_ret : ℕ
  pub world : W

unfoldable pub low32 : ℕ → ℕ
low32 v = v % 2 ^ 32

unfoldable pub high32 : ℕ → ℕ
high32 v = v / 2 ^ 32

unfoldable pub read_port_width : ℕ → ℕ → ℕ
read_port_width v size = if size == 1 then u8 v else if size == 2 then u16 v else v

-- `(old & ~mask) | (value & mask)`
unfoldable pub merge_port_width : ℕ → ℕ → ℕ → ℕ
merge_port_width old v size =
    if size == 1
    then old / 2 ^ 8 * 2 ^ 8 + v % 2 ^ 8
    else if size == 2
    then old / 2 ^ 16 * 2 ^ 16 + v % 2 ^ 16
    else v % 2 ^ 32

-- The new value of the slot.
unfoldable pub write_port_width : ℕ → ℕ → ℕ → ℕ
unfolding merge_port_width low32 high32
write_port_width slot v size = high32 slot * 2 ^ 32 + merge_port_width (low32 slot) v size

unfoldable pub write_port_high_width : ℕ → ℕ → ℕ → ℕ
unfolding merge_port_width low32 high32
write_port_high_width slot v size = low32 slot + merge_port_width (high32 slot) v size * 2 ^ 32

-- The null pointer is the number 0.
unfoldable pub sys_arg_to_host_ptr : Mem → ℕ → ℕ → Arg
sys_arg_to_host_ptr mem arg len =
    if len == 0
    then number 0
    else if leb mem.size arg
    then number 0
    else if ltb (mem.size - arg) len
    then number 0
    else pointer arg

abbrev is_text_call : ℕ → Bool
is_text_call n = n == 1 || n == 2

abbrev is_transfer_call : ℕ → Bool
is_transfer_call n = n == 4 || n == 5 || n == 7 || n == 8

unfoldable pub translate_sys_args : Mem → ℕ → (ℕ → ℕ) → ℕ → Arg
unfolding sys_arg_to_host_ptr
translate_sys_args mem n args =
    let plain : ℕ → Arg = λ i. number (args i) in
    if is_text_call (u32 n)
    then update plain 0 (sys_arg_to_host_ptr mem (args 0) (args 1))
    else if is_transfer_call (u32 n)
    then update plain 1 (sys_arg_to_host_ptr mem (args 1) (args 2))
    else plain

-- Bus, device and register of the address in `s_pci_addr`, whose bit 31 enables it.
unfoldable pub pci_enabled : ℕ → Bool
pci_enabled addr = addr / 2 ^ 31 % 2 == 1

unfoldable pub pci_bus : ℕ → ℕ
pci_bus addr = addr / 2 ^ 16 % 2 ^ 8

unfoldable pub pci_dev : ℕ → ℕ
pci_dev addr = addr / 2 ^ 11 % 2 ^ 5

unfoldable pub pci_reg : ℕ → ℕ
pci_reg addr = addr / 2 ^ 2 % 2 ^ 6

-- The offset of the register in the configuration space.
unfoldable pub pci_offset : ℕ → ℕ
unfolding pci_dev pci_reg
pci_offset addr = pci_dev addr * pci_cfg_size + pci_reg addr * 4

unfoldable pub pci_selects : ℕ → Bool
unfolding pci_bus pci_dev
pci_selects addr = pci_bus addr == 0 && ltb (pci_dev addr) pci_devices

unfoldable pub pci_fits : ℕ → Bool
unfolding pci_reg
pci_fits addr = leb (pci_reg addr * 4 + 4) pci_cfg_size

unfoldable pub load_cfg : (ℕ → ℕ) → ℕ → ℕ
load_cfg cfg i = cfg i + cfg (i + 1) * 2 ^ 8 + cfg (i + 2) * 2 ^ 16 + cfg (i + 3) * 2 ^ 24

unfoldable pub store_cfg : (ℕ → ℕ) → ℕ → ℕ → ℕ → ℕ
store_cfg cfg i v =
    update
      (update (update (update cfg i (u8 v)) (i + 1) (u8 (v / 2 ^ 8))) (i + 2) (u8 (v / 2 ^ 16)))
      (i + 3) (u8 (v / 2 ^ 24))

abbrev pub all_ones : ℕ
all_ones = 2 ^ 32 - 1

module _ {W : Type 0} where
  unfoldable pub in_pci : Io W → ℕ
  unfolding pci_enabled pci_selects pci_fits pci_offset load_cfg
  in_pci io =
      if not (pci_enabled io.pci_addr)
      then all_ones
      else if not (pci_selects io.pci_addr)
      then all_ones
      else (elim io.pci_cfg [
        | none ↦ all_ones
        | some cfg ↦ if pci_fits io.pci_addr then load_cfg cfg (pci_offset io.pci_addr) else 0
      ])

  unfoldable pub out_pci : Io W → ℕ → Io W
  unfolding pci_selects pci_fits pci_offset store_cfg
  out_pci io v =
      if pci_selects io.pci_addr && pci_fits io.pci_addr
      then (elim io.pci_cfg [
        | none ↦ io
        | some cfg ↦ record io { pci_cfg = some (store_cfg cfg (pci_offset io.pci_addr) v) }
      ])
      else io
