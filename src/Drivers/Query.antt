-- ===== src/Drivers/Query.antt =====
-- What kernel/drivers/driver_model.c tells about its devices. A device has the state `absent` and no
-- driver when it is not bound; `none` is NULL or -1.
use bailey_forbes_flinstone.Base.{
  ℕ, Bool, true, false, ◌&&◌, Option, none, some, List, [], ◌∷◌, ◌==◌, ltb, if◌then◌else◌,
}
use bailey_forbes_flinstone.Drivers.{Bus, synth, DeviceDesc, cstr_eq, driver_matches}
use bailey_forbes_flinstone.Drivers.Table.{find, find_from}
use bailey_forbes_flinstone.Drivers.Lifecycle.{State, absent, Device, Driver, Model}

abbrev is_synth : Bus → Bool
is_synth synth = true
is_synth _ = false

abbrev has_synth : List ℕ → DeviceDesc → Bool
has_synth id desc = is_synth desc.bus_type && cstr_eq desc.device_synth id

module _ {W : Type 0} where
  -- `fl_driver_registry_match`
  unfoldable pub registry_match : List (Driver W) → DeviceDesc → Option (Driver W)
  unfolding driver_matches
  registry_match [] dev = none
  registry_match (d ∷ ds) dev =
      if driver_matches d.criteria dev then some d else registry_match ds dev

  unfoldable pub device_count : Model W → ℕ
  device_count m = m.devices.count

  -- The device, its driver and its state; the name and the class stand in the driver.
  unfoldable pub get_info : Model W → ℕ → Option (Device × Driver W × State)
  get_info m index =
      if ltb index m.devices.count
      then (let b = m.devices.entry index in some (b.dev, b.driver, b.state))
      else none

  unfoldable pub device_at : Model W → ℕ → Option Device
  device_at m index = if ltb index m.devices.count then some (m.devices.entry index).dev else none

  unfoldable pub find_synth : Model W → List ℕ → Option Device
  unfolding find find_from cstr_eq
  find_synth m id = elim (find (λ b. has_synth id b.dev.desc) m.devices) [
    | none ↦ none
    | some i ↦ some (m.devices.entry i).dev
  ]

  unfoldable pub get_driver : Model W → ℕ → Option (Driver W)
  unfolding find find_from
  get_driver m dev = if dev == 0 then none else (elim (find (λ b. b.dev.address == dev) m.devices) [
    | none ↦ none
    | some i ↦ some (m.devices.entry i).driver
  ])

  unfoldable pub get_state : Model W → ℕ → State
  unfolding find find_from
  get_state m dev =
      if dev == 0 then absent else (elim (find (λ b. b.dev.address == dev) m.devices) [
        | none ↦ absent
        | some i ↦ (m.devices.entry i).state
      ])
