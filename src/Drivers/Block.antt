-- ===== src/Drivers/Block.antt =====
-- The driver "host-block" of kernel/drivers/driver_model.c, which makes the block driver of the kernel
-- a device file. The block driver is a parameter with the state `S`, `none` where `g_block_driver`
-- is NULL; a false result of it is one other than 0. The buffers of a caller are not NULL.
use bailey_forbes_flinstone.Base.{
  ℕ, Bool, true, false, ◌&&◌, Option, none, some, List, [], ◌∷◌, ◌==◌, ltb, if◌then◌else◌,
}
use bailey_forbes_flinstone.Drivers.{Bus, synth, DeviceDesc, cstr_eq}
use bailey_forbes_flinstone.Drivers.Table.{Table}
use bailey_forbes_flinstone.Drivers.Lifecycle.{Device}
use bailey_forbes_flinstone.Drivers.Devfs.{
  Ops, Node, Registered, register, unregister, sector_size, minus_one,
}

-- What the file uses of `fl_block_driver_t`.
pub record BlockDriver (S : Type 0) : Type 0 where
  pub read_sector : ℕ → S → Bool × S
  pub write_sector : ℕ → S → Bool × S
  pub get_caps : S → ℕ × S

abbrev pub ioctl_block_caps : ℕ
ioctl_block_caps = 1

-- "host_blk"
abbrev pub host_blk : List ℕ
host_blk = 104 ∷ 111 ∷ 115 ∷ 116 ∷ 95 ∷ 98 ∷ 108 ∷ 107 ∷ []

-- "/dev/blk0"
abbrev pub dev_blk0 : List ℕ
dev_blk0 = 47 ∷ 100 ∷ 101 ∷ 118 ∷ 47 ∷ 98 ∷ 108 ∷ 107 ∷ 48 ∷ []

-- FL_DRV_CLASS_BLOCK
abbrev pub class_block : ℕ
class_block = 0

abbrev is_synth : Bus → Bool
is_synth synth = true
is_synth _ = false

unfoldable pub probe : DeviceDesc → Bool
unfolding cstr_eq
probe desc = is_synth desc.bus_type && cstr_eq desc.device_synth host_blk

module _ {S : Type 0} where
  -- A whole sector or nothing.
  unfoldable pub sector_moved : Bool × S → Option ℕ × S
  sector_moved (true, s) = (some sector_size, s)
  sector_moved (false, s) = (none, s)

  unfoldable pub read : Option (BlockDriver S) → ℕ → ℕ → S → Option ℕ × S
  unfolding sector_moved
  read none unit len s = (none, s)
  read (some b) unit len s =
      if ltb len sector_size then (none, s) else sector_moved (b.read_sector unit s)

  unfoldable pub write : Option (BlockDriver S) → ℕ → ℕ → S → Option ℕ × S
  unfolding sector_moved
  write none unit len s = (none, s)
  write (some b) unit len s =
      if ltb len sector_size then (none, s) else sector_moved (b.write_sector unit s)

  unfoldable pub ioctl : Option (BlockDriver S) → ℕ → S → ℕ × S
  ioctl none request s = (minus_one, s)
  ioctl (some b) request s = if request == ioctl_block_caps then b.get_caps s else (minus_one, s)

  unfoldable pub ops : Option (BlockDriver S) → Ops S
  unfolding read write ioctl
  ops b = record {
    read = some (λ dev unit len s. read b unit len s);
    write = some (λ dev unit len s. write b unit len s);
    byte_read = none;
    byte_write = none;
    ioctl = some (λ dev request s. ioctl b request s);
  }

  unfoldable pub attach :
      Option (BlockDriver S) → Table (Node S) → Device → Registered × Table (Node S)
  unfolding ops register
  attach b devfs dev = register devfs dev_blk0 class_block dev.address (ops b)

  unfoldable pub detach : Table (Node S) → Table (Node S)
  unfolding unregister
  detach devfs = unregister devfs dev_blk0
