-- ===== src/Drivers/Lifecycle/Bound.antt =====
-- The invariant of the model: what is bound is started and fits its driver, and every claim belongs to
-- a bound device.
use bailey_forbes_flinstone.Base.{
  ℕ, ◌+◌, ◌≡◌, ◌≢◌, ◌≤◌, ◌⊎◌, ◌∙◌, refl, sym, ap, subst, arith, inl, inr, Bool, true, false, ◌||◌,
  Option, none, some, List, [], ◌∷◌, ◌==◌, leb, ltb, if◌then◌else◌, length, Bool-cases,
  Option-cases, ==_self,
}
use bailey_forbes_flinstone.Drivers.{DeviceDesc, Resource, driver_matches}
use bailey_forbes_flinstone.Drivers.Table.{
  Table, append_entry, find, AllEntries, AllEntries-append, Occurs, Occurs-append,
  Occurs-append_split,
}
use bailey_forbes_flinstone.Drivers.Resources.{
  Claim, claim_resource_desc, claim_all, release_all, resource_overlaps, max_resources,
}
use bailey_forbes_flinstone.Drivers.Resources.Claims.{IsClaims, claim_all-IsClaims}
use bailey_forbes_flinstone.Drivers.Resources.Release.{release_all_lem}
use bailey_forbes_flinstone.Drivers.Lifecycle.{
  started, Device, Driver, BoundDevice, Model, Allocator, max_devices, run_check, run_hook, bind,
  bind_first, init_device, init_devices, init,
}

-- The claims that an attempt adds are the device's.
claim_resource_desc-new :
    (t : Table Claim) (dev : ℕ) (r : Resource) (c : Claim)
    → Occurs c (claim_resource_desc t dev r).1
    → Occurs c t ⊎ (c.owner ≡ dev)
claim_resource_desc-new t dev r c = elim (Bool-cases (dev == 0 || leb max_resources t.count)) [
  | inl e ↦ unfold claim_resource_desc in rw e inl
  | inr e ↦ elim (Option-cases (find (λ x. resource_overlaps x.resource r) t)) [
    | inr (i, f) ↦ unfold claim_resource_desc in rw (e, f) inl
    | inl f ↦
        unfold claim_resource_desc in
        rw (e, f)
          (λ o. elim (Occurs-append_split t _ c o) [
            | inl old ↦ inl old
            | inr new ↦ inr (ap (λ x. x.owner) new)
          ])
  ]
]

claim_all-new :
    (t : Table Claim) (dev : ℕ) (rs : List Resource) (c : Claim)
    → Occurs c (claim_all t dev rs).1
    → Occurs c t ⊎ (c.owner ≡ dev)
unfolding claim_all
claim_all-new t dev [] c = inl
claim_all-new t dev (r ∷ rs) c = elim (Bool-cases (claim_resource_desc t dev r).0) [
  | inl e ↦ rw e (λ o. elim (claim_all-new (claim_resource_desc t dev r).1 dev rs c o) [
    | inl old ↦ claim_resource_desc-new t dev r c old
    | inr mine ↦ inr mine
  ])
  | inr e ↦ rw e (claim_resource_desc-new t dev r c)
]

-- A device's failed attempt leaves no claim that was not there.
failed-old :
    (t : Table Claim) (dev : ℕ) (rs : List Resource) (c : Claim)
    → dev ≢ 0
    → IsClaims t
    → Occurs c (release_all (claim_all t dev rs).1 dev)
    → Occurs c t
failed-old t dev rs c real ok o =
    let (claims, gone, kept) =
      release_all_lem (claim_all t dev rs).1 dev real (claim_all-IsClaims t dev rs ok) in
    elim (Bool-cases (c.owner == dev)) [
      | inl e ↦ absurd (gone c (ground arith) o)
      | inr e ↦
          let other : c.owner ≢ dev = λ z. ground arith in
          elim (claim_all-new t dev rs c ((kept c other).1 o)) [
            | inl old ↦ old
            | inr mine ↦ absurd (other mine)
          ]
    ]

module _ {W : Type 0} where
  -- The device is started and its driver fits it.
  abbrev pub Ready : BoundDevice W → Type 0
  Ready b =
      (b.state ≡ started)
      × (driver_matches b.driver.criteria b.dev.desc ≡ true)
      × (b.dev.address ≢ 0)

  -- The claim is of one of the devices.
  abbrev pub HasOwner : Table (BoundDevice W) → Claim → Type 0
  HasOwner devices c = (b : BoundDevice W) × Occurs b devices × (b.dev.address ≡ c.owner)

  -- At most `n` devices are bound, all of them are started and fit their drivers, no two claims
  -- overlap, and each is of a bound device.
  pub record IsModel (n : ℕ) (m : Model W) : Type 0 where
    pub room : m.devices.count ≤ n
    pub ready : AllEntries Ready m.devices
    pub claimed : IsClaims m.claims
    pub owners : (c : Claim) → Occurs c m.claims → HasOwner m.devices c

  IsModel-weaken : (n k : ℕ) (m : Model W) → n ≤ k → IsModel n m → IsModel k m
  IsModel-weaken n k m l ok = record {
    room = omega (arith, ok.room);
    ready = ok.ready;
    claimed = ok.claimed;
    owners = ok.owners;
  }

  HasOwner-append :
      (devices : Table (BoundDevice W)) (b : BoundDevice W) (c : Claim)
      → HasOwner devices c
      → HasOwner (append_entry devices b) c
  HasOwner-append devices b c (d, o, e) = (d, Occurs-append devices b d o, e)

  -- The attempt with one driver: either bound, or the invariant as before.
  Attempt : ℕ → Bool × Model W → Type 0
  Attempt n (true, m) = IsModel (n + 1) m
  Attempt n (false, m) = IsModel n m

  bind-Attempt :
      (n : ℕ) (m : Model W) (dev : Device) (d : Driver W)
      → dev.address ≢ 0
      → driver_matches d.criteria dev.desc ≡ true
      → IsModel n m
      → Attempt n (bind m dev d)
  unfolding Attempt
  bind-Attempt n m dev d real fits ok =
      elim (Bool-cases (claim_all m.claims dev.address dev.desc.resources).0) [
        | inr e ↦ unfold bind in rw e (gave_up _)
        | inl e ↦ elim (Bool-cases (run_check d.attach dev m.world).0) [
          | inr f ↦ unfold bind in rw (e, f) (gave_up _)
          | inl f ↦ unfold bind in rw (e, f) bound
        ]
      ]
    where
      attempt : Bool × Table Claim
      attempt = claim_all m.claims dev.address dev.desc.resources

      left : IsClaims attempt.1
      left = claim_all-IsClaims m.claims dev.address dev.desc.resources ok.claimed

      gave_up :
          (w : W) → IsModel n (record m { claims = release_all attempt.1 dev.address; world = w })
      gave_up w = record {
        room = ok.room;
        ready = ok.ready;
        claimed = (release_all_lem attempt.1 dev.address real left).0;
        owners = λ c o.
            ok.owners c (failed-old m.claims dev.address dev.desc.resources c real ok.claimed o);
      }

      entry : BoundDevice W
      entry = record { dev = dev; driver = d; state = started }

      bound : IsModel (n + 1) (record m {
        claims = attempt.1;
        devices = append_entry m.devices entry;
        world = run_hook d.start dev (run_check d.attach dev m.world).1;
      })
      bound = record {
        room = omega (arith, ok.room);
        ready = AllEntries-append Ready m.devices entry ok.ready (refl, fits, real);
        claimed = left;
        owners = λ c o. elim (claim_all-new m.claims dev.address dev.desc.resources c o) [
          | inl old ↦ HasOwner-append m.devices entry c (ok.owners c old)
          | inr mine ↦
              (entry, (m.devices.count, (omega arith), rw (==_self m.devices.count) refl), sym mine)
        ];
      }

  bind_first-Attempt :
      (n : ℕ) (m : Model W) (dev : Device) (ds : List (Driver W))
      → dev.address ≢ 0
      → IsModel n m
      → Attempt n (bind_first m dev ds)
  unfolding Attempt bind_first
  bind_first-Attempt n m dev [] real ok = ok
  bind_first-Attempt n m dev (d ∷ ds) real ok =
      elim (Bool-cases (driver_matches d.criteria dev.desc)) [
        | inr e ↦ rw e (bind_first-Attempt n m dev ds real ok)
        | inl e ↦ elim (Bool-cases (run_check d.probe dev m.world).0) [
          | inr f ↦ rw (e, f) (bind_first-Attempt n probed dev ds real probed-ok)
          | inl f ↦ elim (Bool-cases (bind probed dev d).0) [
            | inl g ↦ rw (e, f, g) (subst (λ b. Attempt n (b, (bind probed dev d).1)) g (step e))
            | inr g ↦
                rw (e, f, g)
                  (bind_first-Attempt n (bind probed dev d).1 dev ds real
                    (subst (λ b. Attempt n (b, (bind probed dev d).1)) g (step e)))
          ]
        ]
      ]
    where
      probed : Model W
      probed = record m { world = (run_check d.probe dev m.world).1 }

      probed-ok : IsModel n probed
      probed-ok = record {
        room = ok.room;
        ready = ok.ready;
        claimed = ok.claimed;
        owners = ok.owners;
      }

      step : driver_matches d.criteria dev.desc ≡ true → Attempt n (bind probed dev d)
      step e = bind-Attempt n probed dev d real e probed-ok

  IsModel-world : (n : ℕ) (m : Model W) (w : W) → IsModel n m → IsModel n (record m { world = w })
  IsModel-world n m w ok = record {
    room = ok.room;
    ready = ok.ready;
    claimed = ok.claimed;
    owners = ok.owners;
  }

  init_device-IsModel :
      (a : Allocator W) (n : ℕ) (m : Model W) (desc : DeviceDesc)
      → IsModel n m
      → IsModel (n + 1) (init_device a m desc)
  unfolding Attempt
  init_device-IsModel a n m desc ok = elim (Bool-cases ((a.allocate m.world).0 == 0)) [
    | inl e ↦ unfold init_device in rw e (IsModel-weaken n (n + 1) start (omega arith) created)
    | inr e ↦ elim (Bool-cases (bind_first start dev m.drivers).0) [
      | inl f ↦ unfold init_device in rw (e, f) (subst Then f (step (λ z. ground arith)))
      | inr f ↦
          unfold init_device in
          rw (e, f)
            (IsModel-weaken n (n + 1) ended (omega arith) (
              IsModel-world n (bind_first start dev m.drivers).1 _
                (subst Then f (step (λ z. ground arith)))))
    ]
  ]
    where
      dev : Device
      dev = record { address = (a.allocate m.world).0; desc = desc }

      start : Model W
      start = record m { world = (a.allocate m.world).1 }

      created : IsModel n start
      created = IsModel-world n m _ ok

      ended : Model W
      ended =
          let m' = (bind_first start dev m.drivers).1 in
          record m' { world = a.release (a.allocate m.world).0 m'.world }

      Then : Bool → Type 0
      Then b = Attempt n (b, (bind_first start dev m.drivers).1)

      step : dev.address ≢ 0 → Attempt n (bind_first start dev m.drivers)
      step real = bind_first-Attempt n start dev m.drivers real created

  init_devices-IsModel :
      (a : Allocator W) (m : Model W) (ds : List DeviceDesc)
      → IsModel max_devices m
      → IsModel max_devices (init_devices a m ds)
  unfolding init_devices
  init_devices-IsModel a m [] ok = ok
  init_devices-IsModel a m (d ∷ ds) ok = elim (Bool-cases (ltb m.devices.count max_devices)) [
    | inr e ↦ rw e ok
    | inl e ↦
        let tight : IsModel m.devices.count m = record {
          room = omega arith;
          ready = ok.ready;
          claimed = ok.claimed;
          owners = ok.owners;
        } in
        rw e (
          init_devices-IsModel a (init_device a m d) ds (
            IsModel-weaken (m.devices.count + 1) max_devices _ (ground arith)
              (init_device-IsModel a m.devices.count m d tight)))
  ]

  -- What `fl_drivers_init` leaves, if it does not panic.
  abbrev pub Initialized : Option (Model W) → Type 0
  Initialized none = ⊥
  Initialized (some m) = IsModel max_devices m × (m.initialized ≡ true)

  -- On a model that satisfies the invariant, with at most 32 descriptors, `fl_drivers_init` returns,
  -- whatever the drivers and the allocator do, and afterwards at most 32 devices are bound, all of
  -- them started and each by a driver that fits its descriptor, no two claims overlap, and every
  -- claim is of a bound device: an attempt that fails leaves none.
  pub init-Initialized :
      (a : Allocator W) (m : Model W) (descs : List DeviceDesc)
      → IsModel max_devices m
      → length descs ≤ max_devices
      → Initialized (init a m descs)
  init-Initialized a m descs ok few = elim (Bool-cases m.initialized) [
    | inl e ↦ subst Initialized (sym (early e)) (ok, e)
    | inr e ↦ subst Initialized (sym (ran e)) (IsModel-initialized done, refl)
  ]
    where
      late : Option (Model W)
      late =
          if ltb max_devices (length descs)
          then none
          else some (record (init_devices a m descs) { initialized = true })

      early : m.initialized ≡ true → init a m descs ≡ some m
      early e = unfold init in ap (λ (b : Bool). if b then some m else late) e

      ran :
          m.initialized ≡ false
          → init a m descs ≡ some (record (init_devices a m descs) { initialized = true })
      ran e =
          let fits : ltb max_devices (length descs) ≡ false = ground arith in
          unfold init in ap (λ (b : Bool). if b then some m else late) e ∙ (rw fits refl)

      done : IsModel max_devices (init_devices a m descs)
      done = init_devices-IsModel a m descs ok

      IsModel-initialized :
          {x : Model W}
          → IsModel max_devices x
          → IsModel max_devices (record x { initialized = true })
      IsModel-initialized h = record {
        room = h.room;
        ready = h.ready;
        claimed = h.claimed;
        owners = h.owners;
      }
