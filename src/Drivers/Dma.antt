-- ===== src/Drivers/Dma.antt =====
-- The DMA buffers of kernel/drivers/driver_model.c. The address that the allocator returns is a
-- parameter, 0 for NULL; the bytes of the buffers are not modelled.
pub mod Drain
use bailey_forbes_flinstone.Base.{
  ℕ, zero, suc, ◌-◌, Bool, true, false, Option, none, some, List, [], ◌∷◌, ◌==◌, leb, if◌then◌else◌,
}
use bailey_forbes_flinstone.Drivers.Table.{Table, append_entry, remove_entry, find, find_from}

abbrev pub max_dma : ℕ
max_dma = 32

-- `fl_dma_record_t`
pub record Record : Type 0 where
  pub ptr : ℕ
  pub size : ℕ
  pub owner : ℕ

-- The address that the caller gets, and the one that goes back to the allocator.
unfoldable pub alloc_device : ℕ → Table Record → ℕ → ℕ → ℕ × Option ℕ × Table Record
alloc_device address t dev size =
    if size == 0
    then (0, none, t)
    else if address == 0
    then (0, none, t)
    else if leb max_dma t.count
    then (0, some address, t)
    else (address, none, append_entry t (record { ptr = address; size = size; owner = dev }))

-- The address that goes back to the allocator, after its `size` bytes are zeroed.
unfoldable pub free : Table Record → ℕ → Option (ℕ × ℕ) × Table Record
unfolding find find_from
free t ptr = if ptr == 0 then (none, t) else (elim (find (λ r. r.ptr == ptr) t) [
  | none ↦ (none, t)
  | some i ↦ (some (ptr, (t.entry i).size), remove_entry t i)
])

unfoldable pub get_info : Table Record → ℕ → Option Record
unfolding find find_from
get_info t ptr =
    if ptr == 0
    then none
    else (elim (find (λ r. r.ptr == ptr) t) [ none ↦ none | some i ↦ some (t.entry i) ])

-- `fl_dma_release_all`: the addresses given back, from the last record on, and what is left. `none`
-- means that the fuel ran out.
unfoldable pub given_back : Option (ℕ × ℕ) → List ℕ → List ℕ
given_back none rest = rest
given_back (some (address, size)) rest = address ∷ rest

unfoldable pub release_from : ℕ → Table Record → Option (List ℕ × Table Record)
unfolding free given_back
release_from zero t = if t.count == 0 then some ([], t) else none
release_from (suc fuel) t =
    let (given, t') = free t (t.entry (t.count - 1)).ptr in
    let rest = release_from fuel t' in
    if t.count == 0
    then some ([], t)
    else (elim rest [ none ↦ none | some (rs, u) ↦ some (given_back given rs, u) ])

unfoldable pub release_all : Table Record → Option (List ℕ × Table Record)
unfolding release_from
release_all t = release_from t.count t

unfoldable pub allocation_count : Table Record → ℕ
allocation_count t = t.count
