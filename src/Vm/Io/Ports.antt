-- ===== src/Vm/Io/Ports.antt =====
-- The bridge from the ports to the system calls: its 64-bit arguments and their pointers.
use bailey_forbes_flinstone.Base.{
  ℕ, ◌+◌, ◌-◌, ◌*◌, ◌/◌, ◌%◌, ◌^◌, ◌≡◌, ◌≤◌, ◌<◌, ◌⊎◌, refl, arith, inl, inr, ◌==◌, ltb, leb,
  Bool-cases,
}
use bailey_forbes_flinstone.Vm.Mem.{Mem}
use bailey_forbes_flinstone.Vm.Io.{
  number, pointer, sys_arg_to_host_ptr, write_port_width, write_port_high_width, low32, high32,
  merge_port_width,
}

-- A slot of 64 bits is filled by one 4-byte write to its low port and one to its high port, in
-- either order, whatever it held; and a 1-byte write changes the lowest byte alone.
pub write_port_width-halves :
    (slot lo hi : ℕ)
    → lo < 2 ^ 32
    → hi < 2 ^ 32
    → slot < 2 ^ 64
    → (write_port_high_width (write_port_width slot lo 4) hi 4 ≡ hi * 2 ^ 32 + lo)
      × (write_port_width (write_port_high_width slot hi 4) lo 4 ≡ hi * 2 ^ 32 + lo)
      × (write_port_width slot lo 1 ≡ slot / 2 ^ 8 * 2 ^ 8 + lo % 2 ^ 8)
unfolding write_port_width write_port_high_width low32 high32 merge_port_width
write_port_width-halves slot lo hi a b c = ((omega arith), (omega arith), (omega arith))

-- A range of the guest RAM, at an argument and with a length of at most 64 bits.
abbrev pub InRam : Mem → ℕ → ℕ → Type 0
InRam mem arg len = (0 < len) × (arg + len ≤ mem.size)

-- The pointer that the bridge makes of an argument is that of the argument exactly when the whole
-- range is not empty and lies in the RAM, and NULL otherwise, with no overflow for any length.
pub sys_arg_to_host_ptr_lem :
    (mem : Mem) (arg len : ℕ)
    → (InRam mem arg len × (sys_arg_to_host_ptr mem arg len ≡ pointer arg))
      ⊎ ((InRam mem arg len → ⊥) × (sys_arg_to_host_ptr mem arg len ≡ number 0))
sys_arg_to_host_ptr_lem mem arg len = elim (Bool-cases (len == 0)) [
  | inl e ↦ inr ((λ h. ground (arith, h)), unfold sys_arg_to_host_ptr in rw e refl)
  | inr e ↦ elim (Bool-cases (leb mem.size arg)) [
    | inl f ↦ inr ((λ h. ground (arith, h)), unfold sys_arg_to_host_ptr in rw (e, f) refl)
    | inr f ↦ elim (Bool-cases (ltb (mem.size - arg) len)) [
      | inl g ↦ inr ((λ h. ground (arith, h)), unfold sys_arg_to_host_ptr in rw (e, f, g) refl)
      | inr g ↦
          inl (((ground arith), (ground arith)), unfold sys_arg_to_host_ptr in rw (e, f, g) refl)
    ]
  ]
]
