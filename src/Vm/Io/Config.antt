-- ===== src/Vm/Io/Config.antt =====
-- The configuration space of the virtual PCI bus and the address registers of the disk.
use bailey_forbes_flinstone.Base.{
  ℕ, ◌+◌, ◌*◌, ◌/◌, ◌^◌, ◌≡◌, ◌≤◌, ◌<◌, ◌⊎◌, ◌∙◌, refl, sym, ap, arith, true, false, ◌&&◌, some,
  ◌==◌,
}
use bailey_forbes_flinstone.Vm.Io.{
  Io, World, in_pci, out_pci, pci_enabled, pci_selects, pci_fits, pci_offset, pci_reg, pci_dev,
  load_cfg, store_cfg,
}
use bailey_forbes_flinstone.Vm.Io.Handlers.{out_ide, in_ide}

pub load_cfg-store_cfg : (cfg : ℕ → ℕ) (i v : ℕ) → v < 2 ^ 32 → load_cfg (store_cfg cfg i v) i ≡ v
unfolding load_cfg store_cfg
load_cfg-store_cfg cfg i v h = ground arith

-- Every register of a configuration space fits in it.
pci_fits-true : (addr : ℕ) → pci_fits addr ≡ true
unfolding pci_fits pci_reg
pci_fits-true addr = ground arith

store_cfg-other : (cfg : ℕ → ℕ) (i v j : ℕ) → (j < i) ⊎ (i + 4 ≤ j) → store_cfg cfg i v j ≡ cfg j
unfolding store_cfg
store_cfg-other cfg i v j h = ground arith

-- Different selected registers do not meet.
pci_offset-apart :
    (a b : ℕ)
    → (pci_dev a == pci_dev b && pci_reg a == pci_reg b) ≡ false
    → (pci_offset a + 4 ≤ pci_offset b) ⊎ (pci_offset b + 4 ≤ pci_offset a)
unfolding pci_offset pci_dev pci_reg
pci_offset-apart a b h = ground arith

module _ {W : Type 0} (io : Io W) (cfg : ℕ → ℕ) where
  -- The ports with a configuration space and an address.
  abbrev pub at : ℕ → (ℕ → ℕ) → Io W
  at addr c = record io { pci_addr = addr; pci_cfg = some c }

  out_pci-eq :
      (addr v : ℕ)
      → pci_selects addr ≡ true
      → out_pci (at addr cfg) v ≡ at addr (store_cfg cfg (pci_offset addr) v)
  out_pci-eq addr v s = let f = pci_fits-true addr in unfold out_pci in rw (s, f) refl

  in_pci-eq :
      (addr : ℕ) (c : ℕ → ℕ)
      → pci_enabled addr ≡ true
      → pci_selects addr ≡ true
      → in_pci (at addr c) ≡ load_cfg c (pci_offset addr)
  in_pci-eq addr c e s = let f = pci_fits-true addr in unfold in_pci in rw (e, s, f) refl

  load_cfg-other :
      (i j v : ℕ) → (i + 4 ≤ j) ⊎ (j + 4 ≤ i) → load_cfg (store_cfg cfg i v) j ≡ load_cfg cfg j
  load_cfg-other i j v h =
      let a = store_cfg-other cfg i v j (ground arith) in
      let b = store_cfg-other cfg i v (j + 1) (ground arith) in
      let c = store_cfg-other cfg i v (j + 2) (ground arith) in
      let d = store_cfg-other cfg i v (j + 3) (ground arith) in unfold load_cfg in omega arith

  -- A write to the PCI data port at an address of bus 0 and one of the four devices, with the
  -- address enabled, is read back at that address; and a read at any other enabled and selected
  -- register, of the same device or of another, gives what it gave before.
  pub in_pci-out_pci :
      (addr v : ℕ)
      → v < 2 ^ 32
      → pci_enabled addr ≡ true
      → pci_selects addr ≡ true
      → (in_pci (out_pci (at addr cfg) v) ≡ v)
        × ((other : ℕ)
            → pci_enabled other ≡ true
            → pci_selects other ≡ true
            → (pci_dev addr == pci_dev other && pci_reg addr == pci_reg other) ≡ false
            → in_pci (record (out_pci (at addr cfg) v) { pci_addr = other })
              ≡ in_pci (at other cfg))
  in_pci-out_pci addr v h e s = (
    ap in_pci (out_pci-eq addr v s)
        ∙ in_pci-eq addr (store_cfg cfg (pci_offset addr) v) e s
        ∙ load_cfg-store_cfg cfg (pci_offset addr) v h,
    λ other e' s' apart.
        ap (λ (x : Io W). in_pci (record x { pci_addr = other })) (out_pci-eq addr v s)
        ∙ in_pci-eq other (store_cfg cfg (pci_offset addr) v) e' s'
        ∙ load_cfg-other (pci_offset addr) (pci_offset other) v (pci_offset-apart addr other apart)
        ∙ sym (in_pci-eq other cfg e' s'),
  )

-- The three address ports of the disk set the lower 24 bits of the sector number and keep its
-- upper byte, and reads of the ports give the three bytes back.
pub in_ide-out_ide :
    {W : Type 0} (w : World W) (io : Io W) (low middle high : ℕ)
    → low < 256
    → middle < 256
    → high < 256
    → let io' = out_ide w (out_ide w (out_ide w io 0x1f3 low) 0x1f4 middle) 0x1f5 high in
      (io'.ide_lba ≡ io.ide_lba / 2 ^ 24 * 2 ^ 24 + high * 2 ^ 16 + middle * 2 ^ 8 + low)
      × ((in_ide w io' 0x1f3).0 ≡ low)
      × ((in_ide w io' 0x1f4).0 ≡ middle)
      × ((in_ide w io' 0x1f5).0 ≡ high)
unfolding out_ide in_ide
in_ide-out_ide w io low middle high a b c =
    ((omega arith), (omega arith), (omega arith), (omega arith))
