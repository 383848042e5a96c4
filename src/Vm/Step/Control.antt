-- ===== src/Vm/Step/Control.antt =====
-- Where control goes after one instruction.
use bailey_forbes_flinstone.Base.{
  ℕ, ◌+◌, ◌^◌, ◌≡◌, ◌≤◌, ◌<◌, ◌∙◌, refl, ap, arith, Bool, true, not, Option, none, some, inl, inr,
  Bool-cases, if◌then◌else◌, u8, u32,
}
use bailey_forbes_flinstone.Vm.Decode.{Instr, Opcode, jmp, jz, jnz, plain_op, decode, sign_extend8}
use bailey_forbes_flinstone.Vm.Exec.{Devices, Machine, zero_flag, execute, dispatch, jump}
use bailey_forbes_flinstone.Vm.Step.{advance, fetch_phys, may_fetch, perform, step}

-- The relative jumps and their first bytes.
pub data Branch : Type 0 where
  always if_zero if_not_zero : Branch

abbrev pub first_byte : Branch → ℕ
first_byte always = 0xEB
first_byte if_zero = 0x74
first_byte if_not_zero = 0x75

abbrev pub opcode_of : Branch → Opcode
opcode_of always = jmp
opcode_of if_zero = jz
opcode_of if_not_zero = jnz

abbrev pub taken : Branch → Bool → Bool
taken always zf = true
taken if_zero zf = zf
taken if_not_zero zf = not zf

-- What the code adds to `eip` for a taken jump beside the displacement.
abbrev pub length_added : Branch → ℕ
length_added always = 2
length_added _ = 4

decode-branch :
    (b : Branch) (ram : ℕ → ℕ) (addr size : ℕ)
    → addr + 16 ≤ size
    → size < 2 ^ 32
    → ram addr ≡ first_byte b
    → decode ram addr size ≡ some (plain_op (opcode_of b) (sign_extend8 (ram (addr + 1))) 2)
unfolding decode
decode-branch always ram addr size h hs e =
    let w : u32 (addr + 1) ≡ addr + 1 = omega arith in rw (e, w) (ground arith)
decode-branch if_zero ram addr size h hs e =
    let w : u32 (addr + 1) ≡ addr + 1 = omega arith in rw (e, w) (ground arith)
decode-branch if_not_zero ram addr size h hs e =
    let w : u32 (addr + 1) ≡ addr + 1 = omega arith in rw (e, w) (ground arith)

sign_extend8_twice : (b : ℕ) → b < 256 → sign_extend8 (u8 (sign_extend8 b)) ≡ sign_extend8 b
unfolding sign_extend8
sign_extend8_twice b h = ground arith

module _ {S : Type 0} (d : Devices S) (junk : ℕ → ℕ) (m : Machine S) where
  abbrev jumped : ℕ → ℕ → Machine S
  jumped disp n = record m { cpu = record m.cpu { eip = u32 (m.cpu.eip + disp + n) } }

  jump-eq :
      (op : Opcode) (disp : ℕ)
      → disp < 256
      → jump m.cpu (plain_op op (sign_extend8 disp) 2) ≡ (jumped (sign_extend8 disp) 2).cpu
  unfolding jump
  jump-eq op disp h =
      ap (λ (n : ℕ). record m.cpu { eip = u32 (m.cpu.eip + n + 2) }) (sign_extend8_twice disp h)

  execute-jmp :
      (i : Instr) → i.op ≡ jmp → execute d junk m i ≡ some (record m { cpu = jump m.cpu i })
  unfolding execute
  execute-jmp i e = ap (λ o. dispatch d junk o m i) e

  execute-jz :
      (i : Instr)
      → i.op ≡ jz
      → execute d junk m i ≡ some (if zero_flag m.cpu then record m { cpu = jump m.cpu i } else m)
  unfolding execute
  execute-jz i e = ap (λ o. dispatch d junk o m i) e

  execute-jnz :
      (i : Instr)
      → i.op ≡ jnz
      → execute d junk m i ≡ some (if zero_flag m.cpu then m else record m { cpu = jump m.cpu i })
  unfolding execute
  execute-jnz i e = ap (λ o. dispatch d junk o m i) e

  pub perform-some :
      (i : Instr) (m' : Machine S)
      → execute d junk m i ≡ some m'
      → perform d junk m i ≡ some (record m' { cpu = advance m'.cpu i })
  unfolding perform
  perform-some i m' e =
      ap
        (λ (o : Option (Machine S)). elim o [
          | none ↦ none
          | some m₁ ↦ some (record m₁ { cpu = advance m₁.cpu i })
        ])
        e

  perform-branch :
      (b : Branch) (disp : ℕ)
      → disp < 256
      → perform d junk m (plain_op (opcode_of b) (sign_extend8 disp) 2)
        ≡ some (record m {
          cpu = record m.cpu {
            eip =
                if taken b (zero_flag m.cpu)
                then u32 (m.cpu.eip + sign_extend8 disp + length_added b)
                else u32 (m.cpu.eip + 2);
          };
        })
  unfolding advance
  perform-branch always disp h =
      perform-some (plain_op jmp (sign_extend8 disp) 2) _
        (execute-jmp (plain_op jmp (sign_extend8 disp) 2) refl)
      ∙ ap (λ c. some (record m { cpu = c })) (jump-eq jmp disp h)
  perform-branch if_zero disp h = elim (Bool-cases (zero_flag m.cpu)) [
    | inl z ↦ rw z (
        perform-some i _
          (execute-jz i refl ∙ ap (λ b. some (if b then record m { cpu = jump m.cpu i } else m)) z)
        ∙ ap (λ c. some (record m { cpu = record c { eip = u32 (c.eip + 2) } })) (jump-eq jz disp h)
        ∙ ap (λ (n : ℕ). some (record m { cpu = record m.cpu { eip = n } })) (omega arith))
    | inr z ↦ rw z (
        perform-some i _
          (execute-jz i refl ∙ ap (λ b. some (if b then record m { cpu = jump m.cpu i } else m)) z))
  ]
    where
      i : Instr
      i = plain_op jz (sign_extend8 disp) 2
  perform-branch if_not_zero disp h = elim (Bool-cases (zero_flag m.cpu)) [
    | inl z ↦ rw z (
        perform-some i _ (
          execute-jnz i refl ∙ ap (λ b. some (if b then m else record m { cpu = jump m.cpu i })) z))
    | inr z ↦ rw z (
        perform-some i _
          (execute-jnz i refl ∙ ap (λ b. some (if b then m else record m { cpu = jump m.cpu i })) z)
        ∙ ap (λ c. some (record m { cpu = record c { eip = u32 (c.eip + 2) } }))
            (jump-eq jnz disp h)
        ∙ ap (λ (n : ℕ). some (record m { cpu = record m.cpu { eip = n } })) (omega arith))
  ]
    where
      i : Instr
      i = plain_op jnz (sign_extend8 disp) 2

  -- One step at a relative jump with displacement `disp`: an untaken JZ or JNZ goes on behind its
  -- two bytes and a taken JMP goes to `disp` from there, but a taken JZ or JNZ goes two bytes
  -- further than that, since `execute` and `vm_run_step` both add the length. (Physical addresses
  -- in the RAM, with 16 bytes left there.)
  pub step-branch :
      (b : Branch)
      → fetch_phys m + 16 ≤ m.mem.size
      → m.mem.size < 2 ^ 32
      → m.mem.ram (fetch_phys m) ≡ first_byte b
      → m.mem.ram (fetch_phys m + 1) < 256
      → let disp = sign_extend8 (m.mem.ram (fetch_phys m + 1)) in
        step d junk m
        ≡ some (record m {
          cpu = record m.cpu {
            eip =
                if taken b (zero_flag m.cpu)
                then u32 (m.cpu.eip + disp + length_added b)
                else u32 (m.cpu.eip + 2);
          };
        })
  unfolding step
  step-branch b inside small first byte =
      let g : may_fetch m.mem.size (fetch_phys m) ≡ true = unfold may_fetch in ground arith in
      rw (g, decode-branch b m.mem.ram (fetch_phys m) m.mem.size inside small first)
        (perform-branch b (m.mem.ram (fetch_phys m + 1)) byte)
