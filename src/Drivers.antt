-- ===== src/Drivers.antt =====
-- kernel/drivers and kernel/include/fl/driver: devices, their descriptors and the drivers for them.
-- A device is the number of its address, 0 for NULL, a C string the list of its bytes without the
-- terminator, and a string that may be NULL an option.
pub mod Table
pub mod Resources
pub mod Devfs
pub mod Irq
pub mod Dma
pub mod Lifecycle
pub mod Query
pub mod Block
pub mod Enumerate
pub mod Vga
mod Tests
use bailey_forbes_flinstone.Base.{
  ℕ, Bool, true, false, ◌&&◌, ◌||◌, not, Option, none, some, List, [], ◌∷◌, ◌==◌, if◌then◌else◌,
}

-- `fl_bus_type_t`
pub data Bus : Type 0 where
  pci dt synth : Bus

-- `fl_resource_type_t`
pub data ResourceKind : Type 0 where
  ioport mmio irq dma synthetic : ResourceKind

abbrev pub kind_number : ResourceKind → ℕ
kind_number ioport = 0
kind_number mmio = 1
kind_number irq = 2
kind_number dma = 3
kind_number synthetic = 4

abbrev pub same_kind : ResourceKind → ResourceKind → Bool
same_kind a b = kind_number a == kind_number b

-- `fl_resource_t`, without its name
pub record Resource : Type 0 where
  pub kind : ResourceKind
  pub start : ℕ
  pub size : ℕ

-- `fl_device_desc_t`, as far as the drivers are matched by it; `resources` holds `resource_count`.
pub record DeviceDesc : Type 0 where
  pub bus_type : Bus
  pub class_code : ℕ
  pub subclass : ℕ
  pub device_compatible : List ℕ
  pub device_synth : List ℕ
  pub resources : List Resource

-- The criteria of `fl_driver_desc_t`.
pub record Criteria : Type 0 where
  pub pci_class : ℕ
  pub pci_subclass : ℕ
  pub dt_compatible : Option (List ℕ)
  pub synth_id : Option (List ℕ)

-- `fl_cstr_eq`
unfoldable pub cstr_eq : List ℕ → List ℕ → Bool
cstr_eq [] [] = true
cstr_eq [] (b ∷ bs) = false
cstr_eq (a ∷ as') [] = false
cstr_eq (a ∷ as') (b ∷ bs) = if a == b then cstr_eq as' bs else false

abbrev is_synth : Bus → Bool
is_synth synth = true
is_synth _ = false

abbrev is_dt : Bus → Bool
is_dt dt = true
is_dt _ = false

abbrev is_pci : Bus → Bool
is_pci pci = true
is_pci _ = false

abbrev is_set : Option (List ℕ) → Bool
is_set none = false
is_set (some s) = true

abbrev eq_set : Option (List ℕ) → List ℕ → Bool
eq_set none s = false
eq_set (some r) s = cstr_eq r s

unfoldable pub driver_matches : Criteria → DeviceDesc → Bool
unfolding cstr_eq
driver_matches driver dev =
    if is_set driver.synth_id && is_synth dev.bus_type
    then eq_set driver.synth_id dev.device_synth
    else if is_set driver.dt_compatible && is_dt dev.bus_type
    then eq_set driver.dt_compatible dev.device_compatible
    else if is_pci dev.bus_type
    then if not (driver.pci_class == 0) && not (driver.pci_class == dev.class_code)
      then false
      else if not (driver.pci_subclass == 0) && not (driver.pci_subclass == dev.subclass)
      then false
      else not (driver.pci_class == 0) || not (driver.pci_subclass == 0)
    else false
