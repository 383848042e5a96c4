-- ===== src/Drivers/Lifecycle.antt =====
-- `fl_drivers_init` and `fl_drivers_shutdown` of kernel/drivers/driver_model.c. A driver's
-- operations and the allocator act on a state `W`, which holds the device files, the interrupts and
-- the DMA buffers, and not on the tables of drivers, devices and claims. What the tables hold behind
-- their counts is left out.
pub mod Bound
use bailey_forbes_flinstone.Base.{
  ℕ, zero, suc, ◌+◌, ◌-◌, Bool, true, false, ◌&&◌, not, Option, none, some, List, [], ◌∷◌, ◌++◌,
  ◌==◌, ltb, leb, if◌then◌else◌, update, length,
}
use bailey_forbes_flinstone.Drivers.{Criteria, DeviceDesc, driver_matches}
use bailey_forbes_flinstone.Drivers.Table.{Table, append_entry}
use bailey_forbes_flinstone.Drivers.Resources.{Claim, claim_all, release_all}

abbrev pub max_devices : ℕ
max_devices = 32

abbrev pub max_drivers : ℕ
max_drivers = 32

-- `fl_driver_state_t`
pub data State : Type 0 where
  absent probed attached started stopped : State

-- `fl_device_t`
pub record Device : Type 0 where
  pub address : ℕ
  pub desc : DeviceDesc

-- `fl_driver_desc_t` with its `fl_driver_ops_t`; `none` is NULL, and `false` a result other than 0.
pub record Driver (W : Type 0) : Type 0 where
  pub criteria : Criteria
  pub probe : Option (Device → W → Bool × W)
  pub attach : Option (Device → W → Bool × W)
  pub start : Option (Device → W → W)
  pub stop : Option (Device → W → W)
  pub detach : Option (Device → W → W)

-- `fl_bound_device_t`
pub record BoundDevice (W : Type 0) : Type 0 where
  pub dev : Device
  pub driver : Driver W
  pub state : State

-- The static tables.
pub record Model (W : Type 0) : Type 0 where
  pub drivers : List (Driver W)
  pub devices : Table (BoundDevice W)
  pub claims : Table Claim
  pub initialized : Bool
  pub world : W

-- `kmalloc` and `kfree`; the address is 0 for NULL.
pub record Allocator (W : Type 0) : Type 0 where
  pub allocate : W → ℕ × W
  pub release : ℕ → W → W

abbrev is_started : State → Bool
is_started started = true
is_started _ = false

module _ {W : Type 0} where
  abbrev pub run_check : Option (Device → W → Bool × W) → Device → W → Bool × W
  run_check none dev w = (true, w)
  run_check (some f) dev w = f dev w

  abbrev pub run_hook : Option (Device → W → W) → Device → W → W
  run_hook none dev w = w
  run_hook (some f) dev w = f dev w

  -- `none` is the panic of a full table.
  unfoldable pub register : Model W → Driver W → Option (Model W)
  register m d =
      if leb max_drivers (length m.drivers)
      then none
      else some (record m { drivers = m.drivers ++ (d ∷ []) })

  -- One driver for one device: bound, or given up, and what the state is then. The driver's functions
  -- neither claim resources nor look at the devices, so that the entry of a device that does not stay
  -- is not seen.
  unfoldable pub bind : Model W → Device → Driver W → Bool × Model W
  unfolding claim_all release_all
  bind m dev driver =
      let (claimed, claims) = claim_all m.claims dev.address dev.desc.resources in
      let (ok, w) = run_check driver.attach dev m.world in
      if not claimed
      then (false, record m { claims = release_all claims dev.address })
      else if not ok
      then (false, record m { claims = release_all claims dev.address; world = w })
      else (
        true,
        record m {
          claims = claims;
          devices = append_entry m.devices (record { dev = dev; driver = driver; state = started });
          world = run_hook driver.start dev w;
        },
      )

  -- The loop over the drivers.
  unfoldable pub bind_first : Model W → Device → List (Driver W) → Bool × Model W
  unfolding driver_matches bind
  bind_first m dev [] = (false, m)
  bind_first m dev (d ∷ ds) =
      let (likes, w) = run_check d.probe dev m.world in
      let probed_model = record m { world = w } in
      let (bound, m') = bind probed_model dev d in
      let skip = bind_first m dev ds in
      let after_probe = bind_first probed_model dev ds in
      let after_bind = bind_first m' dev ds in
      if not (driver_matches d.criteria dev.desc)
      then skip
      else if not likes
      then after_probe
      else if bound
      then (true, m')
      else after_bind

  -- One device.
  unfoldable pub init_device : Allocator W → Model W → DeviceDesc → Model W
  unfolding bind_first
  init_device a m desc =
      let (address, w) = a.allocate m.world in
      let created = record m { world = w } in
      let (bound, m') = bind_first created (record { address = address; desc = desc }) m.drivers in
      if address == 0
      then created
      else if bound
      then m'
      else record m' { world = a.release address m'.world }

  -- The loop over the descriptors, while there is room.
  unfoldable pub init_devices : Allocator W → Model W → List DeviceDesc → Model W
  unfolding init_device
  init_devices a m [] = m
  init_devices a m (d ∷ ds) =
      let rest = init_devices a (init_device a m d) ds in
      if ltb m.devices.count max_devices then rest else m

  -- `descs` is what the enumeration gives; `none` is the panic.
  unfoldable pub init : Allocator W → Model W → List DeviceDesc → Option (Model W)
  unfolding init_devices
  init a m descs =
      if m.initialized
      then some m
      else if ltb max_devices (length descs)
      then none
      else some (record (init_devices a m descs) { initialized = true })

  -- One round of the loop of `fl_drivers_shutdown`.
  unfoldable pub stop_device : Allocator W → BoundDevice W → Model W → Model W
  unfolding release_all
  stop_device a b m =
      let w = if is_started b.state then run_hook b.driver.stop b.dev m.world else m.world in
      record m {
        claims = release_all m.claims b.dev.address;
        world = a.release b.dev.address (run_hook b.driver.detach b.dev w);
      }

  -- The devices below `n`, the last one first.
  unfoldable pub stop_devices : Allocator W → ℕ → Model W → Model W
  unfolding stop_device
  stop_devices a zero m = m
  stop_devices a (suc n) m = stop_devices a n (stop_device a (m.devices.entry n) m)

  -- `reset` clears the DMA buffers before and the interrupts and device files after.
  unfoldable pub shutdown : Allocator W → (W → W) → (W → W) → Model W → Model W
  unfolding stop_devices
  shutdown a release_dma reset m =
      let m' = stop_devices a m.devices.count (record m { world = release_dma m.world }) in
      record m' {
        drivers = [];
        devices = record m'.devices { count = 0 };
        claims = record m'.claims { count = 0 };
        initialized = false;
        world = reset m'.world;
      }
