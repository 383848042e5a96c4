-- ===== src/Vm/Io/Handlers.antt =====
-- The handlers of VM/devices/vm_io.c: what a read or a write of each port does.
use bailey_forbes_flinstone.Base.{
  ℕ, ◌+◌, ◌-◌, ◌*◌, ◌/◌, ◌%◌, ◌^◌, Bool, ◌&&◌, ◌||◌, Option, none, some, ◌==◌, ltb, leb,
  if◌then◌else◌, update, u8, u32,
}
use bailey_forbes_flinstone.Vm.Mem.{Mem}
use bailey_forbes_flinstone.Vm.Host.{Host, kbd_pop}
use bailey_forbes_flinstone.Vm.Io.{
  Io, World, sector_size, in_pci, out_pci, pci_enabled, read_port_width, write_port_width,
  write_port_high_width, low32, high32, translate_sys_args,
}

abbrev is_ide_port : ℕ → Bool
is_ide_port port = leb 0x1f0 port && leb port 0x1f7

abbrev is_pit_port : ℕ → Bool
is_pit_port port = leb 0x40 port && leb port 0x43

module _ {W : Type 0} (w : World W) where
  -- The sector that a read of the data port fetches when the last one is used up.
  unfoldable pub refill : Io W → Io W
  refill io =
      let filled : ℕ → ℕ = elim (w.read_sector io.world io.ide_lba) [
        | none ↦ io.sector_buf
        | some none ↦ λ i. 0
        | some (some sector) ↦ sector
      ] in
      if leb sector_size io.ide_byte_idx
      then record io { sector_buf = filled; ide_byte_idx = 0 }
      else io

  unfoldable pub in_ide : Io W → ℕ → ℕ × Io W
  unfolding refill
  in_ide io port =
      let io' = refill io in
      if port == 0x1f0
      then (
        if ltb io'.ide_byte_idx sector_size then io'.sector_buf io'.ide_byte_idx else 0,
        record io' { ide_byte_idx = io'.ide_byte_idx + 1 },
      )
      else if port == 0x1f1
      then (0, io)
      else if port == 0x1f2
      then (1, io)
      else if port == 0x1f3
      then (u8 io.ide_lba, io)
      else if port == 0x1f4
      then (u8 (io.ide_lba / 2 ^ 8), io)
      else if port == 0x1f5
      then (u8 (io.ide_lba / 2 ^ 16), io)
      else if port == 0x1f7
      then (0x40, io)
      else (0xFF, io)

  -- The keyboard driver is asked when the queue of the host has nothing.
  unfoldable pub poll_driver : Io W → ℕ × Io W
  poll_driver io =
      let (c, world) = w.poll_scancode io.world in
      (elim c [ none ↦ 0 | some c ↦ c ], record io { world = world })

  unfoldable pub poll_host : Io W → Option Host → ℕ × Io W
  unfolding kbd_pop poll_driver
  poll_host io none = poll_driver io
  poll_host io (some host) =
      let (c, host') = kbd_pop host in
      elim c [ none ↦ poll_driver io | some c ↦ (c, record io { host = some host' }) ]

  unfoldable pub in_keyboard : Io W → ℕ → ℕ × Io W
  unfolding poll_host
  in_keyboard io port = if port == 0x60 then poll_host io io.host else (0, io)

  unfoldable pub in_pit : Io W → ℕ → ℕ
  in_pit io port =
      if port == 0x40
      then (elim io.host [
        | some host ↦ u8 host.vm_ticks
        | none ↦ elim (w.tick_count io.world) [ none ↦ 0 | some n ↦ u8 n ]
      ])
      else if port == 0x43
      then io.pit_mode
      else 0

  unfoldable pub in_pic : ℕ → ℕ
  in_pic port = if port == 0x20 || port == 0xA0 then 0 else 0xFF

  -- `vm_io_in`
  unfoldable pub io_in : Io W → ℕ → ℕ → ℕ × Io W
  unfolding in_ide in_keyboard in_pit in_pic in_pci read_port_width low32 high32
  io_in io port size =
      let narrow : ℕ × Io W → ℕ × Io W = λ r. (read_port_width r.0 size, r.1) in
      if is_ide_port port
      then narrow (in_ide io port)
      else if port == 0x60 || port == 0x64
      then narrow (in_keyboard io port)
      else if is_pit_port port
      then (read_port_width (in_pit io port) size, io)
      else if port == 0x20 || port == 0x21 || port == 0xA0 || port == 0xA1
      then (read_port_width (in_pic port) size, io)
      else if port == 0xCFC && size == 4
      then (in_pci io, io)
      else if port == 0xE6
      then (read_port_width (low32 io.sys_ret) size, io)
      else if port == 0xEB
      then (read_port_width (high32 io.sys_ret) size, io)
      else (read_port_width 0xFF size, io)

  -- One byte to the data port of the disk; a full sector is written.
  unfoldable pub out_data : Io W → ℕ → Io W
  out_data io v =
      let at = if leb sector_size io.ide_byte_idx then 0 else io.ide_byte_idx in
      let buf = update io.sector_buf at (u8 v) in
      if leb sector_size (at + 1)
      then record io {
        world = w.write_sector io.world io.ide_lba buf;
        sector_buf = λ i. 0;
        ide_byte_idx = at + 1;
      }
      else record io { sector_buf = buf; ide_byte_idx = at + 1 }

  unfoldable pub out_ide : Io W → ℕ → ℕ → Io W
  unfolding out_data
  out_ide io port v =
      let lba = io.ide_lba in
      if port == 0x1f3
      then record io { ide_lba = lba / 2 ^ 8 * 2 ^ 8 + u8 v }
      else if port == 0x1f4
      then record io { ide_lba = lba / 2 ^ 16 * 2 ^ 16 + u8 v * 2 ^ 8 + lba % 2 ^ 8 }
      else if port == 0x1f5
      then record io { ide_lba = lba / 2 ^ 24 * 2 ^ 24 + u8 v * 2 ^ 16 + lba % 2 ^ 16 }
      else if port == 0x1f0
      then out_data io v
      else io

  unfoldable pub out_call : Io W → Mem → Io W × Mem
  unfolding translate_sys_args
  out_call io mem =
      let (ret, world, mem') =
        w.syscall io.world mem (u32 io.sys_no) (translate_sys_args mem io.sys_no io.sys_args) in
      (record io { sys_ret = ret; world = world }, mem')

  -- `vm_io_out`, but for the call port.
  unfoldable pub out_port : Io W → ℕ → ℕ → ℕ → Io W
  unfolding write_port_width write_port_high_width pci_enabled out_pci out_ide
  out_port io port v size =
      if port == 0xCF8
      then record io { pci_addr = v }
      else if port == 0xE0
      then record io { sys_no = write_port_width io.sys_no v size }
      else if leb 0xE1 port && leb port 0xE4
      then record io {
        sys_args =
            update io.sys_args (port - 0xE1) (write_port_width (io.sys_args (port - 0xE1)) v size);
      }
      else if leb 0xE7 port && leb port 0xEA
      then record io {
        sys_args =
            update io.sys_args (port - 0xE7)
              (write_port_high_width (io.sys_args (port - 0xE7)) v size);
      }
      else if port == 0xCFC && pci_enabled io.pci_addr
      then out_pci io v
      else if port == 0xCF9
      then record io { reset_requested = io.reset_requested || (v / 2 % 8 == 3 || v / 2 % 8 == 7) }
      else if is_ide_port port
      then out_ide io port v
      else if port == 0x3f8 || port == 0xf8
      then record io { world = w.serial io.world (u8 v) }
      else if port == 0x43
      then record io { pit_mode = u8 v }
      else if port == 0x20
      then record io { world = w.end_of_interrupt io.world 0 }
      else if port == 0xA0
      then record io { world = w.end_of_interrupt io.world 8 }
      else io

  unfoldable pub io_out : Io W → Mem → ℕ → ℕ → ℕ → Io W × Mem
  unfolding out_call out_port
  io_out io mem port v size =
      if port == 0xE5 then out_call io mem else (out_port io port v size, mem)
