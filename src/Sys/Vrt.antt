-- ===== src/Sys/Vrt.antt =====
-- kernel/core/sys/vrt.c. A resource is the number of its address, 0 for NULL, and a path its bytes
-- without the terminator.
pub mod Handles
use bailey_forbes_flinstone.Base.{
  ℕ, zero, suc, ◌+◌, Bool, true, false, ◌||◌, Option, none, some, List, [], ◌∷◌, take, ◌==◌, leb,
  if◌then◌else◌, update,
}

abbrev pub max_handles : ℕ
max_handles = 256

-- `vrt_type_t`
pub data Kind : Type 0 where
  file dir block buffer pipe msgq : Kind

-- `vrt_entry_t`
pub record Entry : Type 0 where
  pub kind : Kind
  pub resource : ℕ
  pub path : List ℕ
  pub size : ℕ

abbrev pub zero_entry : Entry
zero_entry = record { kind = file; resource = 0; path = []; size = 0 }

-- `s_table` and `s_inited`
pub record Vrt : Type 0 where
  pub table : ℕ → Entry
  pub inited : Bool

unfoldable pub init : Vrt → Vrt
init v = if v.inited then v else record { table = λ i. zero_entry; inited = true }

unfoldable pub shutdown : Vrt → Vrt
shutdown v = record { table = λ i. zero_entry; inited = false }

-- The search of `vrt_alloc` from `i` on, with `n` entries left.
unfoldable pub find_free : ℕ → (ℕ → Entry) → ℕ → Option ℕ
find_free zero table i = none
find_free (suc n) table i =
    let rest = find_free n table (i + 1) in if (table i).resource == 0 then some i else rest

-- The copied path is cut to the 255 bytes of its field.
abbrev pub path_field : Option (List ℕ) → List ℕ
path_field none = []
path_field (some path) = take 255 path

-- `none` is VRT_HANDLE_INVALID.
unfoldable pub alloc : Vrt → Kind → ℕ → Option (List ℕ) → ℕ → Option ℕ × Vrt
unfolding find_free
alloc v kind resource path size =
    if v.inited
    then (elim (find_free max_handles v.table 0) [
      | none ↦ (none, v)
      | some h ↦ (
        some h,
        record v {
          table =
              update v.table h
                (record { kind = kind; resource = resource; path = path_field path; size = size });
        },
      )
    ])
    else (none, v)

unfoldable pub free : Vrt → ℕ → Vrt
free v h = if leb max_handles h then v else record v { table = update v.table h zero_entry }

-- `none` is -1.
unfoldable pub get : Vrt → ℕ → Option Entry
get v h = if leb max_handles h || (v.table h).resource == 0 then none else some (v.table h)

unfoldable pub resource_of : Vrt → ℕ → ℕ
resource_of v h = if leb max_handles h then 0 else (v.table h).resource
