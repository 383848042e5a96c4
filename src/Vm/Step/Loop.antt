-- ===== src/Vm/Step/Loop.antt =====
-- The loop of `vm_run_step` as a sequence of steps.
use bailey_forbes_flinstone.Base.{
  ℕ, zero, suc, ◌+◌, ◌≡◌, ◌≤◌, ◌⊎◌, ◌∙◌, refl, sym, subst, ap, arith, Bool, true, false, Option,
  none, some, inl, inr, Bool-cases, Option-cases,
}
use bailey_forbes_flinstone.Vm.Exec.{Devices, Machine}
use bailey_forbes_flinstone.Vm.Step.{step, run_from, run_step}

module _ {S : Type 0} (d : Devices S) (junk : ℕ → ℕ) where
  -- `k` instructions, none of them behind a HLT.
  pub data Steps : ℕ → Machine S → Machine S → Type 0 where
    stay : {m : Machine S} → Steps 0 m m
    next :
        {k : ℕ} {m m' m'' : Machine S}
        → m.cpu.halted ≡ false
        → step d junk m ≡ some m'
        → Steps k m' m''
        → Steps (suc k) m m''

  -- Why the loop ends after `k` of at most `n` instructions.
  abbrev pub Ended : ℕ → ℕ → Machine S → Type 0
  Ended n k m = (k ≡ n) ⊎ ((m.cpu.halted ≡ true) ⊎ (step d junk m ≡ none))

  abbrev Ran : ℕ → ℕ → Machine S → ℕ × Machine S → Type 0
  Ran n c m (count, m') = (k : ℕ) × (count ≡ c + k) × (k ≤ n) × Steps k m m' × Ended n k m'

  Ended-suc : (n k : ℕ) (m : Machine S) → Ended n k m → Ended (suc n) (suc k) m
  Ended-suc n k m (inl e) = inl (ap suc e)
  Ended-suc n k m (inr e) = inr e

  Ran-next :
      (n c : ℕ) (m m' : Machine S) (r : ℕ × Machine S)
      → m.cpu.halted ≡ false
      → step d junk m ≡ some m'
      → Ran n (c + 1) m' r
      → Ran (suc n) c m r
  Ran-next n c m m' r h e (k, count, bound, steps, ended) =
      (suc k, (omega arith), (omega arith), next h e steps, Ended-suc n k r.1 ended)

  abbrev after : ℕ → ℕ → Machine S → Option (Machine S) → ℕ × Machine S
  after n c m o = elim o [ none ↦ (c, m) | some m' ↦ run_from d junk n m' (c + 1) ]

  run_from-suc :
      (n : ℕ) (m : Machine S) (c : ℕ)
      → run_from d junk (suc n) m c
        ≡ elim m.cpu.halted [ true ↦ (c, m) | false ↦ after n c m (step d junk m) ]
  unfolding run_from
  run_from-suc n m c = refl

  run_from-Ran : (n : ℕ) (m : Machine S) (c : ℕ) → Ran n c m (run_from d junk n m c)
  run_from-Ran zero m c = unfold run_from in (0, (omega arith), (omega arith), stay, inl refl)
  run_from-Ran (suc n) m c = elim (Bool-cases m.cpu.halted) [
    | inl h ↦
        subst (Ran (suc n) c m)
          (sym (
            run_from-suc n m c
            ∙ ap (λ (b : Bool). elim b [ true ↦ (c, m) | false ↦ after n c m (step d junk m) ]) h))
          (0, (omega arith), (omega arith), stay, inr (inl h))
    | inr h ↦
        subst (Ran (suc n) c m)
          (sym (
            run_from-suc n m c
            ∙ ap (λ (b : Bool). elim b [ true ↦ (c, m) | false ↦ after n c m (step d junk m) ]) h))
          (elim (Option-cases (step d junk m)) [
            | inl e ↦
                subst (Ran (suc n) c m) (sym (ap (after n c m) e))
                  (0, (omega arith), (omega arith), stay, inr (inr e))
            | inr (m', e) ↦
                subst (Ran (suc n) c m) (sym (ap (after n c m) e))
                  (Ran-next n c m m' _ h e (run_from-Ran n m' (c + 1)))
          ])
  ]

  -- `vm_run_step` always ends. The count that it returns is the number of instructions performed,
  -- at most `max_instructions` of them, one step of the machine after the other and none behind a
  -- HLT; and it ends only because the limit is reached, the processor is halted, or the fetch
  -- guard, the decoder or the executor refuses the next instruction.
  pub run_step-Steps :
      (m : Machine S) (max_instructions : ℕ)
      → let (count, m') = run_step d junk m max_instructions in
        (count ≤ max_instructions) × Steps count m m' × Ended max_instructions count m'
  unfolding run_step
  run_step-Steps m n = unzero (run_from-Ran n m 0)
    where
      unzero :
          Ran n 0 m (run_from d junk n m 0)
          → ((run_from d junk n m 0).0 ≤ n)
            × Steps (run_from d junk n m 0).0 m (run_from d junk n m 0).1
            × Ended n (run_from d junk n m 0).0 (run_from d junk n m 0).1
      unzero (k, e, bound, steps, ended) =
          let e' : k ≡ (run_from d junk n m 0).0 = omega arith in
          subst
            (λ count.
              (count ≤ n)
              × Steps count m (run_from d junk n m 0).1
              × Ended n count (run_from d junk n m 0).1)
            e' (bound, steps, ended)
