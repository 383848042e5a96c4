-- ===== src/Drivers/Tests.antt =====
-- Runs of the driver model on small tables.
use bailey_forbes_flinstone.Base.{
  ℕ, ◌+◌, ◌-◌, ◌*◌, ◌≡◌, ◌≢◌, ◌↔◌, refl, ap, arith, true, false, Option, none, some, List, [], ◌∷◌,
  update,
}
use bailey_forbes_flinstone.Drivers.{synth, ioport, irq, Resource, DeviceDesc, cstr_eq}
use bailey_forbes_flinstone.Drivers.Table.{Table, find, Occurs}
use bailey_forbes_flinstone.Drivers.Resources.{Claim, resource_overlaps, claim_all, release_all}
use bailey_forbes_flinstone.Drivers.Resources.Claims.{IsClaims, InRange, resource_overlaps_iff}
use bailey_forbes_flinstone.Drivers.Resources.Release.{
  release_all_lem, Reach, here, next, claims_all, Reach-IsClaims,
}
use bailey_forbes_flinstone.Drivers.Devfs.{Ops, Node, has_path, register, unregister, open_path}
use bailey_forbes_flinstone.Drivers.Devfs.Paths.{IsDevfs, Registers, register-Registers}
use bailey_forbes_flinstone.Drivers.Devfs.Files.{NodeOf, open_path-unregister}
use bailey_forbes_flinstone.Drivers.Dma
use bailey_forbes_flinstone.Drivers.Dma.{Record}
use bailey_forbes_flinstone.Drivers.Dma.Drain.{IsBuffers, Drained, release_all-Drained}
use bailey_forbes_flinstone.Drivers.Irq.{Slot, zero_slot, Controller, dispatch}
use bailey_forbes_flinstone.Drivers.Irq.Dispatch.{Dispatched, dispatch-Dispatched}
use bailey_forbes_flinstone.Drivers.Lifecycle.{started, Driver, Model, Allocator, max_devices, init}
use bailey_forbes_flinstone.Drivers.Lifecycle.Bound.{IsModel, Initialized, init-Initialized}

abbrev ports : ℕ → ℕ → Resource
ports start size = record { kind = ioport; start = start; size = size }

abbrev line : ℕ → Resource
line n = record { kind = irq; start = n; size = 1 }

abbrev no_claims : Table Claim
no_claims = record { entry = λ i. record { resource = ports 0 0; owner = 0 }; count = 0 }

no_claims-IsClaims : IsClaims no_claims
no_claims-IsClaims = record {
  owned = λ i l. absurd (omega arith);
  apart = λ i j l. absurd (omega arith);
  fits = omega arith;
}

-- The keyboard: its two ports and its interrupt.
abbrev keyboard : DeviceDesc
keyboard = record {
  bus_type = synth;
  class_code = 9;
  subclass = 0;
  device_compatible = [];
  device_synth = 107 ∷ 98 ∷ [];
  resources = ports 96 5 ∷ line 1 ∷ [];
}

resource_overlaps_iff_example :
    (resource_overlaps (ports 96 5) (ports 100 4) ≡ true)
    ↔ ((x : ℕ) × InRange x (ports 96 5) × InRange x (ports 100 4))
resource_overlaps_iff_example =
    resource_overlaps_iff (ports 96 5) (ports 100 4) refl refl (omega arith) (omega arith)

abbrev both : Table Claim
both = (claim_all (claim_all no_claims 7 keyboard.resources).1 8 (line 4 ∷ [])).1

both-Reach : Reach no_claims both
both-Reach =
    next (next here (claims_all no_claims 7 keyboard.resources))
      (claims_all (claim_all no_claims 7 keyboard.resources).1 8 (line 4 ∷ []))

both-IsClaims : IsClaims both
both-IsClaims = Reach-IsClaims no_claims-IsClaims both-Reach

test-both : ((both.count ≡ 3) × ((release_all both 7).count ≡ 1))
unfolding claim_all release_all
test-both = (refl, refl)

release_all_lem_example :
    let t' = release_all both 7 in
    IsClaims t'
    × ((c : Claim) → c.owner ≡ 7 → Occurs c t' → ⊥)
    × ((c : Claim) → c.owner ≢ 7 → Occurs c both ↔ Occurs c t')
release_all_lem_example = release_all_lem both 7 (λ z. omega arith) both-IsClaims

-- Device files over a state that is a number.
abbrev no_ops : Ops ℕ
no_ops = record { read = none; write = none; byte_read = none; byte_write = none; ioctl = none }

abbrev node : ℕ → Node ℕ
node n = record { path = n ∷ []; class_id = 0; dev = n; ops = no_ops }

-- The paths 0, 1 and 2.
abbrev three : Table (Node ℕ)
three = record { entry = node; count = 3 }

abbrev first_of : List ℕ → ℕ
first_of [] = 0
first_of (x ∷ xs) = x

three-IsDevfs : IsDevfs three
three-IsDevfs = record {
  distinct = λ i j hi hj ne e. ne (ap first_of e);
  short = λ i l. omega arith;
  fits = omega arith;
}

register-Registers_example : Registers three (node 5) (register three (5 ∷ []) 0 5 no_ops)
register-Registers_example = register-Registers three (5 ∷ []) 0 5 no_ops three-IsDevfs

found-first : find (has_path (0 ∷ [])) three ≡ some 0
unfolding find cstr_eq
found-first = refl

open_path-unregister_example :
    let file = open_path three (0 ∷ []) 3 in
    NodeOf three file (three.entry 0)
    × ((three.entry 0).path ≡ (0 ∷ []))
    × NodeOf (unregister three (0 ∷ [])) file (three.entry (three.count - 1))
    × ((three.entry (three.count - 1)).path ≢ (0 ∷ []))
open_path-unregister_example =
    open_path-unregister three (0 ∷ []) 3 0 three-IsDevfs found-first (omega arith)

-- Buffers at 4096 and 8192.
abbrev buffers : Table Record
buffers = record { entry = λ i. record { ptr = 4096 * (i + 1); size = 64; owner = 7 }; count = 2 }

buffers-IsBuffers : IsBuffers buffers
buffers-IsBuffers = record {
  real = λ i l z. omega arith;
  distinct = λ i j hi hj ne z. ne (omega arith);
}

release_all-Drained_example : Drained buffers (Dma.release_all buffers)
release_all-Drained_example = release_all-Drained buffers buffers-IsBuffers

-- A controller whose state counts the calls in tens and the ends in ones.
abbrev counting : Controller ℕ
counting = record { call = λ handler n ctx w. w + 10; eoi = λ n w. w + 1 }

abbrev slots : ℕ → Slot
slots = update (λ _. zero_slot) 3 (record zero_slot { handler = 1; enabled = true })

dispatch-Dispatched_example : Dispatched counting slots 3 0 (dispatch counting slots 3 0)
dispatch-Dispatched_example = dispatch-Dispatched counting slots 3 0

test-dispatch : ((dispatch counting slots 3 0).2 ≡ 11) × ((dispatch counting slots 4 0).2 ≡ 0)
unfolding dispatch
test-dispatch = (refl, refl)

-- Two devices for one driver, of which the second asks for a port of the first.
abbrev driver : Driver ℕ
driver = record {
  criteria = record {
    pci_class = 0;
    pci_subclass = 0;
    dt_compatible = none;
    synth_id = some (107 ∷ 98 ∷ []);
  };
  probe = none;
  attach = some (λ dev w. (true, w + 1));
  start = none;
  stop = none;
  detach = none;
}

abbrev counter : Allocator ℕ
counter = record { allocate = λ w. (w + 1, w + 1); release = λ address w. w }

abbrev fresh : Model ℕ
fresh = record {
  drivers = driver ∷ [];
  devices = record {
    entry = λ i. record {
      dev = record { address = 0; desc = keyboard };
      driver = driver;
      state = started;
    };
    count = 0;
  };
  claims = no_claims;
  initialized = false;
  world = 0;
}

fresh-IsModel : IsModel max_devices fresh
fresh-IsModel = record {
  room = omega arith;
  ready = λ i l. absurd (omega arith);
  claimed = no_claims-IsClaims;
  owners = λ c (i, l, e). absurd (omega arith);
}

abbrev devices_of : Option (Model ℕ) → ℕ × ℕ
devices_of none = (0, 0)
devices_of (some m) = (m.devices.count, m.claims.count)

test-init : devices_of (init counter fresh (keyboard ∷ keyboard ∷ [])) ≡ (1, 2)
unfolding init
test-init = refl

init-Initialized_example : Initialized (init counter fresh (keyboard ∷ keyboard ∷ []))
init-Initialized_example =
    init-Initialized counter fresh (keyboard ∷ keyboard ∷ []) fresh-IsModel (omega arith)
