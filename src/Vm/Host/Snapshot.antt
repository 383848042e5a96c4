-- ===== src/Vm/Host/Snapshot.antt =====
-- VM/devices/vm_snapshot.c: the checkpoint of the machine. `host` and its RAM are not NULL. The disk
-- image and its copy are a parameter (`Disk`), and so is the block that an allocation returns.
use bailey_forbes_flinstone.Base.{
  ℕ, ◌≡◌, ◌<◌, ◌≤◌, ◌∙◌, refl, sym, ap, subst, arith, inl, inr, Bool, true, false, Option, none,
  some, ◌==◌, ltb, not, if◌then◌else◌, Bool-cases, ==→eq,
}
use mathlib.Core.Bool.{false≢true}
use bailey_forbes_flinstone.Vm.Cpu.{Cpu, init}
use bailey_forbes_flinstone.Vm.Host.{Host}

-- The static variables of the file; `ram_copy` is `none` for NULL.
pub record Checkpoint : Type 0 where
  pub ram_copy : Option (ℕ → ℕ)
  pub ram_size : ℕ
  pub cpu_copy : Cpu
  pub kbd_copy : ℕ → ℕ
  pub kbd_head : ℕ
  pub kbd_tail : ℕ
  pub ticks_copy : ℕ
  pub has_checkpoint : Bool

abbrev pub no_checkpoint : Checkpoint
no_checkpoint = record {
  ram_copy = none;
  ram_size = 0;
  cpu_copy = init;
  kbd_copy = λ i. 0;
  kbd_head = 0;
  kbd_tail = 0;
  ticks_copy = 0;
  has_checkpoint = false;
}

-- `vm_disk_is_active`, `vm_disk_snapshot_save` and `vm_disk_snapshot_restore` over the disk and its
-- copy.
pub record Disk (D : Type 0) : Type 0 where
  pub is_active : D → Bool
  pub save_copy : D → D
  pub restore_copy : D → D

-- `asm_mem_copy(to, from, size)` from the start of both.
unfoldable pub copy_over : (ℕ → ℕ) → (ℕ → ℕ) → ℕ → ℕ → ℕ
copy_over to from size i = if ltb i size then from i else to i

-- The block to copy to: one of another size is given back, and a missing one is allocated.
unfoldable pub obtain_block :
    Option (ℕ → ℕ) → Option (ℕ → ℕ) → Checkpoint → ℕ → Option (ℕ → ℕ) × Checkpoint
obtain_block (some ram) block c size = (some ram, c)
obtain_block none none c size = (none, record c { ram_copy = none })
obtain_block none (some ram) c size = (some ram, record c { ram_copy = some ram; ram_size = size })

unfoldable pub ensure_block : Option (ℕ → ℕ) → Checkpoint → ℕ → Option (ℕ → ℕ) × Checkpoint
unfolding obtain_block
ensure_block block c size =
    obtain_block (if c.ram_size == size then c.ram_copy else none) block c size

module _ {D : Type 0} (disk : Disk D) where
  -- The part of `vm_snapshot_save` behind the allocation; `false` is -1.
  unfoldable pub copy_state : Host → D → Option (ℕ → ℕ) × Checkpoint → Bool × Checkpoint × D
  unfolding copy_over
  copy_state host d (none, c) = (false, c, d)
  copy_state host d (some to, c) = (
    true,
    record {
      ram_copy = some (copy_over to host.mem.ram host.mem.size);
      ram_size = c.ram_size;
      cpu_copy = host.cpu;
      kbd_copy = host.kbd_queue;
      kbd_head = host.kbd_head;
      kbd_tail = host.kbd_tail;
      ticks_copy = host.vm_ticks;
      has_checkpoint = true;
    },
    if disk.is_active d then disk.save_copy d else d,
  )

  unfoldable pub save : Option (ℕ → ℕ) → Host → Checkpoint → D → Bool × Checkpoint × D
  unfolding ensure_block copy_state
  save block host c d =
      if host.mem.size == 0
      then (false, c, d)
      else copy_state host d (ensure_block block c host.mem.size)

  unfoldable pub restore : Host → Checkpoint → D → Bool × Host × D
  unfolding copy_over
  restore host c d = elim c.ram_copy [
    | none ↦ (false, host, d)
    | some ram ↦
        if not c.has_checkpoint
        then (false, host, d)
        else if not (host.mem.size == c.ram_size)
        then (false, host, d)
        else (
          true,
          record host {
            mem = record host.mem { ram = copy_over host.mem.ram ram host.mem.size };
            cpu = c.cpu_copy;
            kbd_queue = c.kbd_copy;
            kbd_head = c.kbd_head;
            kbd_tail = c.kbd_tail;
            vm_ticks = c.ticks_copy;
          },
          if disk.is_active d then disk.restore_copy d else d,
        )
  ]

unfoldable pub shutdown : Checkpoint → Checkpoint
shutdown c = record c { ram_copy = none; ram_size = 0; has_checkpoint = false }

-- What a restore of `saved` into `host` is to give.
abbrev pub Restored : Host → Host → Bool × Host → Type 0
Restored saved host (ok, host') =
    (ok ≡ true)
    × ((i : ℕ) → i < saved.mem.size → host'.mem.ram i ≡ saved.mem.ram i)
    × ((i : ℕ) → saved.mem.size ≤ i → host'.mem.ram i ≡ host.mem.ram i)
    × (host'.cpu ≡ saved.cpu)
    × (host'.kbd_queue ≡ saved.kbd_queue)
    × (host'.kbd_head ≡ saved.kbd_head)
    × (host'.kbd_tail ≡ saved.kbd_tail)
    × (host'.vm_ticks ≡ saved.vm_ticks)
    × (host'.paused ≡ host.paused)

-- The block that `save` ends up with has the size of the RAM.
abbrev HasSize : ℕ → Option (ℕ → ℕ) × Checkpoint → Type 0
HasSize size (none, c) = Unit
HasSize size (some ram, c) = c.ram_size ≡ size

fresh-HasSize :
    (block : Option (ℕ → ℕ)) (c : Checkpoint) (size : ℕ)
    → HasSize size (obtain_block none block c size)
unfolding obtain_block
fresh-HasSize none c size = tt
fresh-HasSize (some ram) c size = refl

obtain_block-HasSize :
    (old block : Option (ℕ → ℕ)) (c : Checkpoint) (size : ℕ)
    → c.ram_size ≡ size
    → HasSize size (obtain_block old block c size)
unfolding obtain_block
obtain_block-HasSize none block c size e = fresh-HasSize block c size
obtain_block-HasSize (some ram) block c size e = e

ensure_block-HasSize :
    (block : Option (ℕ → ℕ)) (c : Checkpoint) (size : ℕ) → HasSize size (ensure_block block c size)
ensure_block-HasSize block c size = elim (Bool-cases (c.ram_size == size)) [
  | inl e ↦ at true e (obtain_block-HasSize c.ram_copy block c size (==→eq c.ram_size size e))
  | inr e ↦ at false e (fresh-HasSize block c size)
]
  where
    at :
        (b : Bool)
        → (c.ram_size == size) ≡ b
        → HasSize size (obtain_block (if b then c.ram_copy else none) block c size)
        → HasSize size (ensure_block block c size)
    at b e h =
        unfold ensure_block in
        subst
          (λ (t : Bool). HasSize size (obtain_block (if t then c.ram_copy else none) block c size))
          (sym e) h

module _ {D : Type 0} (disk : Disk D) (saved host : Host) (d d' : D) where
  restore-copy_state :
      (r : Option (ℕ → ℕ) × Checkpoint)
      → HasSize saved.mem.size r
      → host.mem.size ≡ saved.mem.size
      → (copy_state disk saved d r).0 ≡ true
      → let (ok, host', _) = restore disk host (copy_state disk saved d r).1 d' in
        Restored saved host (ok, host')
  unfolding copy_state restore
  restore-copy_state (none, c) size same h = absurd (false≢true h)
  restore-copy_state (some to, c) size same h =
      let fits : (host.mem.size == c.ram_size) ≡ true = ground (arith, same, size) in
      rw fits (
        refl,
        (λ i l. ground (arith, same)),
        (λ i l. ground (arith, same)),
        refl,
        refl,
        refl,
        refl,
        refl,
        refl,
      )

-- When `vm_snapshot_save` succeeds, a later `vm_snapshot_restore` succeeds for every host whose RAM
-- has the same size, whatever ran in between, and gives back the saved RAM, byte for byte, the
-- vCPU, the queue of scancodes and the ticks; what lies behind the RAM and whether the machine is
-- paused stay as they are then.
pub restore-save :
    {D : Type 0} (disk : Disk D) (block : Option (ℕ → ℕ)) (saved host : Host) (c : Checkpoint)
    (d d' : D)
    → host.mem.size ≡ saved.mem.size
    → (save disk block saved c d).0 ≡ true
    → let (ok, host', _) = restore disk host (save disk block saved c d).1 d' in
      Restored saved host (ok, host')
restore-save disk block saved host c d d' same h = elim (Bool-cases (saved.mem.size == 0)) [
  | inl e ↦ absurd (false≢true (sym (ap (λ r. r.0) (save-empty e)) ∙ h))
  | inr e ↦
      subst (λ r. Restored saved host ((restore disk host r.1 d').0, (restore disk host r.1 d').1))
        (sym (save-copy e))
        (restore-copy_state disk saved host d d' (ensure_block block c saved.mem.size)
          (ensure_block-HasSize block c saved.mem.size) same
          (sym (ap (λ r. r.0) (save-copy e)) ∙ h))
]
  where
    save-empty : (saved.mem.size == 0) ≡ true → save disk block saved c d ≡ (false, c, d)
    save-empty e = unfold save in rw e refl

    save-copy :
        (saved.mem.size == 0) ≡ false
        → save disk block saved c d ≡ copy_state disk saved d (ensure_block block c saved.mem.size)
    save-copy e = unfold save in rw e refl
