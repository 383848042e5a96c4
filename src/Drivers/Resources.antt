-- ===== src/Drivers/Resources.antt =====
-- The claims of resources in kernel/drivers/driver_model.c. `descs` is the descriptor of each live
-- device. The table is only used under the lock or before threads run.
pub mod Claims
pub mod Release
use bailey_forbes_flinstone.Base.{
  ℕ, zero, suc, ◌+◌, ◌-◌, ◌^◌, ◌≡◌, Bool, true, false, ◌&&◌, ◌||◌, not, Option, none, some, List,
  [], ◌∷◌, ◌==◌, ltb, leb, if◌then◌else◌, length, u64,
}
use bailey_forbes_flinstone.Drivers.{
  Resource, ResourceKind, irq, same_kind, kind_number, DeviceDesc,
}
use bailey_forbes_flinstone.Drivers.Table.{Table, append_entry, remove_entry, find, find_from}

abbrev pub max_resources : ℕ
max_resources = 64

-- `fl_resource_claim_t`
pub record Claim : Type 0 where
  pub resource : Resource
  pub owner : ℕ

-- `start + size - 1`, in 64 bits
unfoldable pub last_of : Resource → ℕ
last_of r = u64 (r.start + r.size + 2 ^ 64 - 1)

unfoldable pub resource_overlaps : Resource → Resource → Bool
unfolding last_of
resource_overlaps a b =
    if not (same_kind a.kind b.kind)
    then false
    else if kind_number a.kind == kind_number irq
    then a.start == b.start
    else if a.size == 0 || b.size == 0
    then false
    else leb a.start (last_of b) && leb b.start (last_of a)

abbrev is_some : {A : Type 0} → Option A → Bool
is_some none = false
is_some (some a) = true

-- `false` is -1.
unfoldable pub claim_resource_desc : Table Claim → ℕ → Resource → Bool × Table Claim
unfolding resource_overlaps find find_from
claim_resource_desc t dev r =
    if dev == 0 || leb max_resources t.count
    then (false, t)
    else if is_some (find (λ c. resource_overlaps c.resource r) t)
    then (false, t)
    else (true, append_entry t (record { resource = r; owner = dev }))

-- The resource of the kind with `index` of them before it.
unfoldable pub nth_of_kind : ResourceKind → ℕ → List Resource → Option Resource
nth_of_kind kind index [] = none
nth_of_kind kind zero (r ∷ rs) = if same_kind r.kind kind then some r else nth_of_kind kind zero rs
nth_of_kind kind (suc index) (r ∷ rs) =
    if same_kind r.kind kind then nth_of_kind kind index rs else nth_of_kind kind (suc index) rs

-- `fl_resource_claim`, for an index that is not negative
unfoldable pub claim : Table Claim → ℕ → DeviceDesc → ResourceKind → ℕ → Bool × Table Claim
unfolding nth_of_kind claim_resource_desc
claim t dev desc kind index =
    if dev == 0 then (false, t) else (elim (nth_of_kind kind index desc.resources) [
      | none ↦ (false, t)
      | some r ↦ claim_resource_desc t dev r
    ])

-- `claim_device_resources`: what was claimed before the first failure stays claimed.
unfoldable pub claim_all : Table Claim → ℕ → List Resource → Bool × Table Claim
unfolding claim_resource_desc
claim_all t dev [] = (true, t)
claim_all t dev (r ∷ rs) =
    let (ok, t') = claim_resource_desc t dev r in
    let rest = claim_all t' dev rs in if ok then rest else (false, t')

-- The loop of `fl_resource_release_all` from `i` on; `fuel` is the number of entries left to look at.
unfoldable pub release_from : ℕ → Table Claim → ℕ → ℕ → Table Claim
release_from zero t dev i = t
release_from (suc fuel) t dev i =
    let removed = release_from fuel (remove_entry t i) dev i in
    let kept = release_from fuel t dev (i + 1) in
    if ltb i t.count then (if (t.entry i).owner == dev then removed else kept) else t

unfoldable pub release_all : Table Claim → ℕ → Table Claim
unfolding release_from
release_all t dev = if dev == 0 then t else release_from t.count t dev 0

abbrev pub owned_by : ℕ → Claim → Bool
owned_by dev c = dev == 0 || c.owner == dev

-- `fl_resource_count`: the loop, with `n` entries left.
unfoldable pub count_from : (ℕ → Claim) → ℕ → ℕ → ℕ → ℕ
count_from entry dev zero i = 0
count_from entry dev (suc n) i =
    let rest = count_from entry dev n (i + 1) in if owned_by dev (entry i) then suc rest else rest

unfoldable pub count_of : Table Claim → ℕ → ℕ
unfolding count_from
count_of t dev = count_from t.entry dev t.count 0

-- `fl_resource_get`, for an index that is not negative
unfoldable pub get_from : (ℕ → Claim) → ℕ → ℕ → ℕ → ℕ → Option Resource
get_from entry dev index zero i = none
get_from entry dev zero (suc n) i =
    let rest = get_from entry dev zero n (i + 1) in
    if owned_by dev (entry i) then some (entry i).resource else rest
get_from entry dev (suc index) (suc n) i =
    let hit = get_from entry dev index n (i + 1) in
    let miss = get_from entry dev (suc index) n (i + 1) in
    if owned_by dev (entry i) then hit else miss

unfoldable pub get : Table Claim → ℕ → ℕ → Option Resource
unfolding get_from
get t dev index = get_from t.entry dev index t.count 0
