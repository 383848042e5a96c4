-- ===== src/Vm/Host.antt =====
-- VM/devices/vm_host.c: the host of the machine, which owns its RAM, its vCPU and the queue of
-- scancodes. `host` and `out` are not NULL.
pub mod Keyboard
pub mod Snapshot
use bailey_forbes_flinstone.Base.{
  ℕ, ◌+◌, ◌*◌, ◌%◌, ◌^◌, Bool, true, false, Option, none, some, List, [], ◌∷◌, map, ◌==◌, leb,
  length, if◌then◌else◌, update,
}
use bailey_forbes_flinstone.Vm.Mem.{Mem, write, write_bytes, clear}
use bailey_forbes_flinstone.Vm.Cpu.{Cpu, init}

abbrev pub kbd_queue_size : ℕ
kbd_queue_size = 32

abbrev guest_ram_size : ℕ
guest_ram_size = 16 * 1024 * 1024

abbrev guest_load_addr : ℕ
guest_load_addr = 0x7c00

abbrev guest_vga_base : ℕ
guest_vga_base = 0xb8000

-- `vm_host_t`
pub record Host : Type 0 where
  pub mem : Mem
  pub cpu : Cpu
  pub kbd_queue : ℕ → ℕ
  pub kbd_head : ℕ
  pub kbd_tail : ℕ
  pub vm_ticks : ℕ
  pub running : Bool
  pub paused : Bool

-- `s_minimal_guest`: for each character a load into AL and an output to the port 0xF8.
abbrev say : List ℕ → List ℕ
say [] = 0xF4 ∷ []
say (c ∷ cs) = 0xB0 ∷ c ∷ 0xE6 ∷ 0xF8 ∷ say cs

abbrev pub minimal_guest : List ℕ
minimal_guest =
    say
      (0x46 ∷ 0x6c ∷ 0x69 ∷ 0x6e ∷ 0x73 ∷ 0x74 ∷ 0x6f ∷ 0x6e ∷ 0x65 ∷ 0x20 ∷ 0x56 ∷ 0x4d ∷ 10 ∷ [])

-- `s_vga_msg`: words with the attribute 7, lowest byte first.
abbrev vga_words : List ℕ → List ℕ
vga_words [] = []
vga_words (c ∷ cs) = c ∷ 7 ∷ vga_words cs

abbrev pub vga_msg : List ℕ
vga_msg =
    vga_words
      (0x46 ∷ 0x6c ∷ 0x69 ∷ 0x6e ∷ 0x73 ∷ 0x74 ∷ 0x6f ∷ 0x6e ∷ 0x65 ∷ 0x20 ∷ 0x56 ∷ 0x4d ∷ [])

unfoldable pub write_vga : Mem → Mem
unfolding write_bytes
write_vga mem =
    if leb (guest_vga_base + length vga_msg) mem.size
    then record mem { ram = write_bytes mem.ram guest_vga_base vga_msg }
    else mem

abbrev pub boot_cpu : Cpu → Cpu
boot_cpu cpu = record cpu { eip = 0; cs = 0x07c0 }

-- `none` is -1; `block` is what the allocation of the guest RAM returns.
unfoldable pub create : Option (ℕ → ℕ) → Option Host
unfolding clear write write_vga init
create none = none
create (some block) =
    let mem = clear (record { ram = block; size = guest_ram_size }) in
    let (ok, loaded) = write mem guest_load_addr minimal_guest in
    if ok
    then some (record {
      mem = write_vga loaded;
      cpu = boot_cpu init;
      kbd_queue = λ i. 0;
      kbd_head = 0;
      kbd_tail = 0;
      vm_ticks = 0;
      running = true;
      paused = false;
    })
    else none

unfoldable pub tick_advance : Host → ℕ → Host
tick_advance host step = record host { vm_ticks = (host.vm_ticks + step) % 2 ^ 64 }

-- `false` is -1.
unfoldable pub kbd_push : Host → ℕ → Bool × Host
kbd_push host scancode =
    let next = (host.kbd_tail + 1) % kbd_queue_size in
    if next == host.kbd_head then (false, host) else (
      true,
      record host { kbd_queue = update host.kbd_queue host.kbd_tail scancode; kbd_tail = next },
    )

-- `none` is -1.
unfoldable pub kbd_pop : Host → Option ℕ × Host
kbd_pop host = if host.kbd_head == host.kbd_tail then (none, host) else (
  some (host.kbd_queue host.kbd_head),
  record host { kbd_head = (host.kbd_head + 1) % kbd_queue_size },
)

unfoldable pub pause : Host → Host
pause host = record host { paused = true }

unfoldable pub resume : Host → Host
resume host = record host { paused = false }

unfoldable pub reset : Host → Host
unfolding clear write write_vga init
reset host =
    let loaded = (write (clear host.mem) guest_load_addr minimal_guest).1 in
    record host {
      mem = write_vga loaded;
      cpu = record (boot_cpu init) { halted = false };
      paused = false;
    }
