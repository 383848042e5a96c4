-- ===== src/Vm/Sched/Ends.antt =====
-- The end of `vm_run_cycles`.
use bailey_forbes_flinstone.Base.{
  ℕ, zero, suc, ◌+◌, ◌*◌, ◌-◌, ◌^◌, ◌≡◌, ◌≤◌, ◌<◌, ◌⊎◌, ◌∙◌, refl, sym, subst, arith, inl, inr,
  Bool, true, false, Option, none, some, Bool-cases,
}
use mathlib.Core.Bool.{false≢true}
use bailey_forbes_flinstone.Vm.Sched.{Tasks, Run, run_cycles}
use bailey_forbes_flinstone.Vm.Sched.Cycles.{cycle}
use bailey_forbes_flinstone.Vm.Sched.Loop.{
  goes_on, cycles_from, view, finished, run_cycles-cycles_from,
}

module _ {W : Type 0} (t : Tasks W) where
  -- What the loops rely on: a reset leaves no reset pending, and the pointer to the host that the
  -- ports get does not touch the CPU.
  pub record IsTasks : Type 0 where
    pub reset_done : (w : W) → t.reset_requested (t.reset_host (t.clear_reset w)) ≡ false
    pub host_apart : (on : Bool) (w : W) → t.is_halted (t.set_host on w) ≡ t.is_halted w

  -- How the loop of at most `max_cycles` cycles ends.
  abbrev Stopped : ℕ → Option (ℕ × W) → Type 0
  Stopped max_cycles none = ⊥
  Stopped max_cycles (some (c, w)) = (c ≤ max_cycles) × ((c ≡ max_cycles) ⊎ (t.is_halted w ≡ true))

  end_reason :
      (n c : ℕ) (w : W) → c ≤ n → goes_on t (some n) (c, w) ≡ false → Stopped n (some (c, w))
  end_reason n c w l e = elim (Bool-cases (t.is_halted w)) [
    | inl h ↦ (l, inr h)
    | inr h ↦ (l, inl (ground (arith, e)))
  ]

  stop-now :
      (max_cycles fuel : ℕ) (s : ℕ × W)
      → s.0 ≤ max_cycles
      → goes_on t (some max_cycles) s ≡ false
      → Stopped max_cycles (cycles_from t (some max_cycles) fuel s)
  unfolding cycles_from
  stop-now n zero (c, w) l e = rw e (end_reason n c w l e)
  stop-now n (suc fuel) (c, w) l e = rw e (end_reason n c w l e)

  -- The fuel is two passes for each cycle that is left, and one for a reset that is pending.
  abbrev Enough : ℕ → ℕ → ℕ × W → Type 0
  Enough n fuel (c, w) =
      ((t.reset_requested w ≡ false) × (2 * (n - c) ≤ fuel)) ⊎ (2 * (n - c) + 1 ≤ fuel)

  Enough-some : (n fuel : ℕ) (s : ℕ × W) → Enough n fuel s → 2 * (n - s.0) ≤ fuel
  Enough-some n fuel (c, w) (inl (x, l)) = l
  Enough-some n fuel (c, w) (inr l) = omega arith

  cycles_from-Stopped :
      IsTasks
      → (n : ℕ) → n < 2 ^ 32
      → (fuel : ℕ) (s : ℕ × W) → s.0 ≤ n
      → Enough n fuel s
      → Stopped n (cycles_from t (some n) fuel s)
  unfolding cycles_from
  cycles_from-Stopped laws n small zero (c, w) l enough =
      let none_left = Enough-some n zero (c, w) enough in
      let e : goes_on t (some n) (c, w) ≡ false = ground arith in rw e (end_reason n c w l e)
  cycles_from-Stopped laws n small (suc fuel) (c, w) l enough =
      elim (Bool-cases (goes_on t (some n) (c, w))) [
        | inr e ↦ rw e (end_reason n c w l e)
        | inl e ↦ elim (Bool-cases (t.reset_requested w)) [
          | inl f ↦
              rw (e, f)
                (cycles_from-Stopped laws n small fuel (c, t.reset_host (t.clear_reset w)) l
                  (reset_left f enough))
          | inr f ↦ elim (Bool-cases (t.is_halted (t.run_cpu w))) [
            | inl h ↦ rw (e, f, h) (stop-now n fuel (c, t.run_cpu w) l (rw h refl))
            | inr h ↦
                let below : c < n = ground arith in
                let passes = Enough-some n (suc fuel) (c, w) enough in
                rw (e, f)
                  (cycles_from-Stopped laws n small fuel (cycle t (c, w)) (rw h (omega arith))
                    (rw h (inr (omega arith))))
          ]
        ]
      ]
    where
      reset_left :
          t.reset_requested w ≡ true
          → Enough n (suc fuel) (c, w)
          → Enough n fuel (c, t.reset_host (t.clear_reset w))
      reset_left f (inl (no_reset, enough)) = absurd (false≢true (sym no_reset ∙ f))
      reset_left f (inr enough) = inl (laws.reset_done w, omega arith)

  -- How a run of at most `max_cycles` cycles ends.
  abbrev pub Ends : ℕ → Option (Run W) → Type 0
  Ends max_cycles none = ⊥
  Ends max_cycles (some r) =
      (r.cycles ≤ max_cycles) × ((r.cycles ≡ max_cycles) ⊎ (t.is_halted r.world ≡ true))

  -- If a reset leaves no reset pending and the pointer to the host does not touch the CPU,
  -- `vm_run_cycles` for fewer than 2^32 cycles returns, after two passes of its loop for each cycle
  -- and one more at the most, and then it has run all the cycles or the CPU has halted.
  pub run_cycles-Ends :
      IsTasks
      → (max_cycles : ℕ) → max_cycles < 2 ^ 32
      → (w : W) → Ends max_cycles (run_cycles t (2 * max_cycles + 1) max_cycles w)
  run_cycles-Ends laws n small w = from_view (run_cycles t (2 * n + 1) n w) (
      subst (Stopped n) (sym (run_cycles-cycles_from t (2 * n + 1) n w).0) (
        from_finished (cycles_from t (some n) (2 * n + 1) (0, t.set_host true w)) (
          cycles_from-Stopped laws n small (2 * n + 1) (0, t.set_host true w) (omega arith)
            (inr (omega arith)))))
    where
      from_finished : (o : Option (ℕ × W)) → Stopped n o → Stopped n (finished t o)
      from_finished none s = s
      from_finished (some (c, u)) (l, inl all) = (l, inl all)
      from_finished (some (c, u)) (l, inr halted) = (l, inr (laws.host_apart false u ∙ halted))

      from_view : (o : Option (Run W)) → Stopped n (view t o) → Ends n o
      from_view none s = s
      from_view (some r) s = s
