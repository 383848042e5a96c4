-- ===== src/Drivers/Enumerate.antt =====
-- kernel/drivers/bus.c: the devices that the build has, and what a descriptor says of its resources.
use bailey_forbes_flinstone.Base.{
  ℕ, zero, suc, ◌+◌, Option, none, some, List, [], ◌∷◌, ◌==◌, if◌then◌else◌, length, min, u16, u32,
}
use bailey_forbes_flinstone.Drivers.{
  synth, ResourceKind, ioport, mmio, irq, dma, synthetic, Resource, DeviceDesc, same_kind,
}
use bailey_forbes_flinstone.Drivers.Lifecycle.{Device}
use bailey_forbes_flinstone.Drivers.Block.{host_blk}

-- CWD_MAX
abbrev path_max : ℕ
path_max = 256

abbrev resource : ResourceKind → ℕ → ℕ → Resource
resource kind start size = record { kind = kind; start = start; size = size }

-- `fl_bus_enumerate` of the hosted build, where the disk file's name stands at `address`.
unfoldable pub enumerate : ℕ → List ℕ → ℕ → List DeviceDesc
enumerate address disk_file zero = []
enumerate address disk_file (suc n) =
    record {
      bus_type = synth;
      class_code = 0;
      subclass = 0;
      device_compatible = [];
      device_synth = host_blk;
      resources =
          resource synthetic address (min (length disk_file) path_max + 1)
          ∷ resource irq 3 1
          ∷ resource dma 0 512
          ∷ resource ioport 0xF100 8
          ∷ [];
    }
    ∷ []

-- `fl_device_create`; the address is what `kmalloc` returns.
unfoldable pub create : ℕ → DeviceDesc → Option Device
create address desc =
    if address == 0 then none else some (record { address = address; desc = desc })

-- The first `n` interrupts, each as a C int.
unfoldable pub irq_list : List Resource → ℕ → List ℕ
irq_list rs zero = []
irq_list [] (suc n) = []
irq_list (r ∷ rs) (suc n) =
    let taken = u32 r.start ∷ irq_list rs n in
    let skipped = irq_list rs (suc n) in if same_kind r.kind irq then taken else skipped

-- The address and the size of the first `n` memory regions.
unfoldable pub mmio_list : List Resource → ℕ → List (ℕ × ℕ)
mmio_list rs zero = []
mmio_list [] (suc n) = []
mmio_list (r ∷ rs) (suc n) =
    let taken = (r.start, r.size) ∷ mmio_list rs n in
    let skipped = mmio_list rs (suc n) in if same_kind r.kind mmio then taken else skipped

-- The first range of ports, in 16 bits each; `none` is -1.
unfoldable pub ioport_range : List Resource → Option (ℕ × ℕ)
ioport_range [] = none
ioport_range (r ∷ rs) =
    if same_kind r.kind ioport then some (u16 r.start, u16 r.size) else ioport_range rs
