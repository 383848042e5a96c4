-- ===== src/Drivers/Irq.antt =====
-- The interrupts of kernel/drivers/driver_model.c. An interrupt number is not negative, a handler is
-- the number of its address, 0 for NULL, and what calling it and the interrupt controller do is a
-- parameter; a handler leaves the table of handlers alone.
pub mod Dispatch
use bailey_forbes_flinstone.Base.{
  ℕ, zero, suc, ◌+◌, ◌^◌, Bool, true, false, ◌&&◌, ◌||◌, not, Option, none, some, ◌==◌, ltb, leb,
  if◌then◌else◌, update, u64,
}
use bailey_forbes_flinstone.Drivers.{Resource, ResourceKind, irq, kind_number}
use bailey_forbes_flinstone.Drivers.Table.{Table, find, find_from}
use bailey_forbes_flinstone.Drivers.Resources.{Claim, get, get_from}

abbrev pub max_irq : ℕ
max_irq = 64

-- `fl_irq_slot_t`
pub record Slot : Type 0 where
  pub handler : ℕ
  pub ctx : ℕ
  pub owner : ℕ
  pub enabled : Bool
  pub dispatch_count : ℕ
  pub eoi_count : ℕ

abbrev pub zero_slot : Slot
zero_slot = record {
  handler = 0;
  ctx = 0;
  owner = 0;
  enabled = false;
  dispatch_count = 0;
  eoi_count = 0;
}

abbrev is_irq : Resource → Bool
is_irq r = kind_number r.kind == kind_number irq

-- `device_irq_at` from the claim number `i` of the device on; `fuel` is the number of claims.
unfoldable pub irq_at_from : Table Claim → ℕ → ℕ → ℕ → ℕ → Option ℕ
unfolding get get_from
irq_at_from t dev index i zero = none
irq_at_from t dev zero i (suc fuel) =
    let rest = irq_at_from t dev zero (i + 1) fuel in
    elim (get t dev i) [ none ↦ none | some r ↦ if is_irq r then some r.start else rest ]
irq_at_from t dev (suc index) i (suc fuel) =
    let hit = irq_at_from t dev index (i + 1) fuel in
    let miss = irq_at_from t dev (suc index) (i + 1) fuel in
    elim (get t dev i) [ none ↦ none | some r ↦ if is_irq r then hit else miss ]

unfoldable pub device_irq_at : Table Claim → ℕ → ℕ → Option ℕ
unfolding irq_at_from
device_irq_at t dev index = if dev == 0 then none else irq_at_from t dev index 0 t.count

-- The owner of the claim of the interrupt, 0 for NULL.
unfoldable pub irq_owner_from_resources : Table Claim → ℕ → ℕ
unfolding find find_from
irq_owner_from_resources t n = elim (find (λ c. is_irq c.resource && c.resource.start == n) t) [
  | none ↦ 0
  | some i ↦ (t.entry i).owner
]

-- `false` is -1.
unfoldable pub register : Table Claim → (ℕ → Slot) → ℕ → ℕ → ℕ → Bool × (ℕ → Slot)
unfolding irq_owner_from_resources
register t slots n handler ctx =
    let owner = irq_owner_from_resources t n in
    if leb max_irq n || handler == 0
    then (false, slots)
    else if owner == 0
    then (false, slots)
    else if not ((slots n).handler == 0)
    then (false, slots)
    else (true, update slots n (record (slots n) { handler = handler; ctx = ctx; owner = owner }))

unfoldable pub register_device : Table Claim → (ℕ → Slot) → ℕ → ℕ → ℕ → ℕ → Bool × (ℕ → Slot)
unfolding device_irq_at register
register_device t slots dev index handler ctx = elim (device_irq_at t dev index) [
  | none ↦ (false, slots)
  | some n ↦ register t slots n handler ctx
]

unfoldable pub unregister : (ℕ → Slot) → ℕ → ℕ → Slot
unregister slots n = if leb max_irq n then slots else update slots n zero_slot

-- The loop of `fl_irq_unregister_device` over the first `n` slots.
unfoldable pub unregister_below : ℕ → (ℕ → Slot) → ℕ → ℕ → Slot
unregister_below zero slots dev = slots
unregister_below (suc n) slots dev =
    let rest = unregister_below n slots dev in
    if (rest n).owner == dev then update rest n zero_slot else rest

unfoldable pub unregister_device : (ℕ → Slot) → ℕ → ℕ → Slot
unfolding unregister_below
unregister_device slots dev = if dev == 0 then slots else unregister_below max_irq slots dev

unfoldable pub set_enabled : (ℕ → Slot) → ℕ → Bool → ℕ → Slot
set_enabled slots n on =
    if ltb n max_irq then update slots n (record (slots n) { enabled = on }) else slots

-- What the file tells about an interrupt; `none` is -1 and the owner 0 is NULL.
unfoldable pub owner_of : (ℕ → Slot) → ℕ → ℕ
owner_of slots n = if leb max_irq n then 0 else (slots n).owner

unfoldable pub dispatch_count_of : (ℕ → Slot) → ℕ → ℕ
dispatch_count_of slots n = if leb max_irq n then 0 else (slots n).dispatch_count

unfoldable pub get_info : (ℕ → Slot) → ℕ → Option Slot
get_info slots n = if leb max_irq n then none else some (slots n)

-- What a handler and the end of an interrupt do, to a state that is not the table: the handlers taken
-- here do not register, enable or disable an interrupt.
pub record Controller (W : Type 0) : Type 0 where
  pub call : ℕ → ℕ → ℕ → W → W
  pub eoi : ℕ → W → W

module _ {W : Type 0} (c : Controller W) where
  unfoldable pub irq_eoi : (ℕ → Slot) → ℕ → W → (ℕ → Slot) × W
  irq_eoi slots n w = (
    if ltb n max_irq
        then update slots n (record (slots n) { eoi_count = u64 ((slots n).eoi_count + 1) })
        else slots,
    c.eoi n w,
  )

  unfoldable pub dispatch : (ℕ → Slot) → ℕ → W → Bool × (ℕ → Slot) × W
  unfolding irq_eoi
  dispatch slots n w =
      let s = slots n in
      let counted = update slots n (record s { dispatch_count = u64 (s.dispatch_count + 1) }) in
      if leb max_irq n
      then (false, slots, w)
      else if not s.enabled || s.handler == 0
      then (false, slots, w)
      else let (slots', w') = irq_eoi counted n (c.call s.handler n s.ctx w) in (true, slots', w')
