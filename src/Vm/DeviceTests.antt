-- ===== src/Vm/DeviceTests.antt =====
-- The host and the ports on concrete calls, and the theorems at inputs that meet their hypotheses.
use bailey_forbes_flinstone.Base.{
  ℕ, ◌%◌, ◌≡◌, ◌⊎◌, refl, arith, true, false, Option, none, some, List, [], ◌∷◌, ◌&&◌, ◌==◌,
}
use bailey_forbes_flinstone.Vm.Mem.{Mem}
use bailey_forbes_flinstone.Vm.Cpu.{init}
use bailey_forbes_flinstone.Vm.Host.{Host, kbd_push, kbd_pop}
use bailey_forbes_flinstone.Vm.Host.Keyboard.{
  Op, key, poll, run, spec_run, scancodes, pushed, popped, run-scancodes,
}
use bailey_forbes_flinstone.Vm.Host.Snapshot.{
  Disk, save, restore, no_checkpoint, Restored, restore-save, copy_state, ensure_block,
  obtain_block,
}
use bailey_forbes_flinstone.Vm.Io.{
  Io, World, number, pointer, sys_arg_to_host_ptr, in_pci, out_pci, pci_enabled, pci_selects,
  pci_bus, pci_dev, pci_reg,
}
use bailey_forbes_flinstone.Vm.Io.Ports.{InRam, sys_arg_to_host_ptr_lem}
use bailey_forbes_flinstone.Vm.Io.Config.{at, in_pci-out_pci}

abbrev small_ram : Mem
small_ram = record { ram = λ i. i % 256; size = 64 }

abbrev host : Host
host = record {
  mem = small_ram;
  cpu = init;
  kbd_queue = λ i. 0;
  kbd_head = 31;
  kbd_tail = 31;
  vm_ticks = 7;
  running = true;
  paused = false;
}

abbrev keys : List Op
keys = poll ∷ key 30 ∷ key 48 ∷ poll ∷ poll ∷ poll ∷ []

run-keys :
    run host keys
    ≡ popped none
      ∷ pushed true
      ∷ pushed true
      ∷ popped (some 30)
      ∷ popped (some 48)
      ∷ popped none
      ∷ []
unfolding kbd_push kbd_pop
run-keys = refl

run-scancodes_example : run host keys ≡ spec_run (scancodes host) keys
run-scancodes_example = run-scancodes host keys ((omega arith), (omega arith))

-- No disk image.
abbrev no_disk : Disk ℕ
no_disk = record { is_active = λ d. false; save_copy = λ d. d; restore_copy = λ d. d }

abbrev later : Host
later = record host { mem = record small_ram { ram = λ i. 1 }; vm_ticks = 99; paused = true }

abbrev block : Option (ℕ → ℕ)
block = some (λ i. 0xAA)

saved-ok : (save no_disk block host no_checkpoint 0).0 ≡ true
unfolding save copy_state ensure_block obtain_block
saved-ok = refl

restore-save_example :
    let (ok, host', _) = restore no_disk later (save no_disk block host no_checkpoint 0).1 0 in
    Restored host later (ok, host')
restore-save_example = restore-save no_disk block host later no_checkpoint 0 0 refl saved-ok

-- Drivers that do nothing.
abbrev still : World ℕ
still = record {
  read_sector = λ s lba. none;
  write_sector = λ s lba sector. s;
  poll_scancode = λ s. (none, s);
  tick_count = λ s. none;
  serial = λ s v. s;
  end_of_interrupt = λ s v. s;
  syscall = λ s mem n args. (0, s, mem);
}

abbrev config : ℕ → ℕ
config i = 0

abbrev ports : Io ℕ
ports = record {
  sector_buf = λ i. 0;
  ide_lba = 0x05000000;
  ide_byte_idx = 512;
  pit_mode = 0;
  host = some host;
  pci_addr = 0;
  reset_requested = false;
  pci_cfg = some config;
  sys_no = 0;
  sys_args = λ i. 0;
  sys_ret = 0;
  world = 0;
}

sys_arg_to_host_ptr_lem_example :
    (InRam small_ram 60 4 × (sys_arg_to_host_ptr small_ram 60 4 ≡ pointer 60))
    ⊎ ((InRam small_ram 60 4 → ⊥) × (sys_arg_to_host_ptr small_ram 60 4 ≡ number 0))
sys_arg_to_host_ptr_lem_example = sys_arg_to_host_ptr_lem small_ram 60 4

-- Register 4 of the second device.
abbrev command : ℕ
command = 0x80000804

command-enabled : pci_enabled command ≡ true
unfolding pci_enabled
command-enabled = refl

command-selected : pci_selects command ≡ true
unfolding pci_selects pci_bus pci_dev
command-selected = refl

in_pci-out_pci_example :
    (in_pci (out_pci (at ports config command config) 0xCAFE) ≡ 0xCAFE)
    × ((other : ℕ)
        → pci_enabled other ≡ true
        → pci_selects other ≡ true
        → (pci_dev command == pci_dev other && pci_reg command == pci_reg other) ≡ false
        → in_pci (record (out_pci (at ports config command config) 0xCAFE) { pci_addr = other })
          ≡ in_pci (at ports config other config))
in_pci-out_pci_example =
    in_pci-out_pci ports config command 0xCAFE (omega arith) command-enabled command-selected
