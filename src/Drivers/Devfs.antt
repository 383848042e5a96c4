-- ===== src/Drivers/Devfs.antt =====
-- The device files of kernel/drivers/driver_model.c. The operations of a device act on a state `W`;
-- arguments that are pointers are not NULL but for `read_out` and `written_out` (`counted`).
pub mod Paths
pub mod Files
use bailey_forbes_flinstone.Base.{
  ℕ, zero, suc, ◌+◌, ◌-◌, ◌/◌, ◌%◌, ◌^◌, Bool, true, false, ◌&&◌, ◌||◌, not, Option, none, some,
  List, [], ◌∷◌, ◌==◌, ltb, leb, if◌then◌else◌, length, u32,
}
use bailey_forbes_flinstone.Drivers.{cstr_eq}
use bailey_forbes_flinstone.Drivers.Table.{Table, append_entry, remove_entry, find, find_from}

abbrev pub max_devfs : ℕ
max_devfs = 32

abbrev pub path_size : ℕ
path_size = 32

abbrev pub sector_size : ℕ
sector_size = 512

-- `fl_devfs_ops_t`, `none` for NULL. An operation gets the device, the unit and the size; `none` is
-- a return value other than 0 and `some n` a 0 with `n` bytes moved.
pub record Ops (W : Type 0) : Type 0 where
  pub read : Option (ℕ → ℕ → ℕ → W → Option ℕ × W)
  pub write : Option (ℕ → ℕ → ℕ → W → Option ℕ × W)
  pub byte_read : Option (ℕ → ℕ → W → Option ℕ × W)
  pub byte_write : Option (ℕ → ℕ → W → Option ℕ × W)
  pub ioctl : Option (ℕ → ℕ → W → ℕ × W)

-- `fl_devfs_node_t`
pub record Node (W : Type 0) : Type 0 where
  pub path : List ℕ
  pub class_id : ℕ
  pub dev : ℕ
  pub ops : Ops W

-- `fl_devfs_file_t`; the pointer to a node is the place of the node in the table, `none` for NULL.
pub record File : Type 0 where
  pub node : Option ℕ
  pub pos : ℕ
  pub flags : ℕ

-- The result 0, the result -1, and the panic, which does not return.
pub data Registered : Type 0 where
  accepted refused panics : Registered

abbrev is_some : {A : Type 0} → Option A → Bool
is_some none = false
is_some (some a) = true

abbrev unit_of : File → ℕ
unit_of file = u32 (file.pos / sector_size)

abbrev pub minus_one : ℕ
minus_one = 2 ^ 32 - 1

module _ {W : Type 0} where
  -- The test of a node for a path.
  abbrev pub has_path : List ℕ → Node W → Bool
  has_path path n = cstr_eq n.path path

  unfoldable pub register : Table (Node W) → List ℕ → ℕ → ℕ → Ops W → Registered × Table (Node W)
  unfolding find find_from cstr_eq
  register t path class_id dev ops =
      if leb max_devfs t.count
      then (panics, t)
      else if leb path_size (length path)
      then (refused, t)
      else if is_some (find (has_path path) t)
      then (refused, t)
      else (
        accepted,
        append_entry t (record { path = path; class_id = class_id; dev = dev; ops = ops }),
      )

  unfoldable pub unregister : Table (Node W) → List ℕ → Table (Node W)
  unfolding find find_from cstr_eq
  unregister t path = elim (find (has_path path) t) [ none ↦ t | some i ↦ remove_entry t i ]

  -- `none` is -1.
  unfoldable pub open_path : Table (Node W) → List ℕ → ℕ → Option File
  unfolding find find_from cstr_eq
  open_path t path flags = elim (find (has_path path) t) [
    | none ↦ none
    | some i ↦ some (record { node = some i; pos = 0; flags = flags })
  ]

  -- The end of a read and of a write: the position moves by what the caller is told.
  unfoldable pub moved : Bool → File → Option ℕ × W → Option ℕ × File × W
  moved counted file (none, w) = (none, file, w)
  moved counted file (some n, w) =
      (some n, record file { pos = file.pos + (if counted then n else 0) }, w)

  -- The byte operation is preferred to the one on units.
  unfoldable pub transfer :
      Option (ℕ → ℕ → W → Option ℕ × W)
      → Option (ℕ → ℕ → ℕ → W → Option ℕ × W)
      → ℕ
      → Bool
      → File
      → ℕ
      → W
      → Option ℕ × File × W
  unfolding moved
  transfer (some f) units dev counted file size w = moved counted file (f dev size w)
  transfer none (some f) dev counted file size w = moved counted file (f dev (unit_of file) size w)
  transfer none none dev counted file size w = (none, file, w)

  unfoldable pub read : Table (Node W) → Bool → File → ℕ → W → Option ℕ × File × W
  unfolding transfer
  read t counted file size w = elim file.node [
    | none ↦ (none, file, w)
    | some i ↦
        let n = t.entry i in
        if file.flags % 2 == 1
        then transfer n.ops.byte_read n.ops.read n.dev counted file size w
        else (none, file, w)
  ]

  unfoldable pub write : Table (Node W) → Bool → File → ℕ → W → Option ℕ × File × W
  unfolding transfer
  write t counted file size w = elim file.node [
    | none ↦ (none, file, w)
    | some i ↦
        let n = t.entry i in
        if file.flags / 2 % 2 == 1
        then transfer n.ops.byte_write n.ops.write n.dev counted file size w
        else (none, file, w)
  ]

  unfoldable pub ioctl : Table (Node W) → File → ℕ → W → ℕ × W
  ioctl t file request w = elim file.node [
    | none ↦ (minus_one, w)
    | some i ↦ elim (t.entry i).ops.ioctl [
      | none ↦ (minus_one, w)
      | some f ↦ f (t.entry i).dev request w
    ]
  ]

abbrev pub closed : File
closed = record { node = none; pos = 0; flags = 0 }

unfoldable pub close : File → File
close file = closed
