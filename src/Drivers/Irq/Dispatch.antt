-- ===== src/Drivers/Irq/Dispatch.antt =====
-- Which interrupts reach a handler.
use bailey_forbes_flinstone.Base.{
  ℕ, ◌+◌, ◌≡◌, ◌≢◌, ◌<◌, ◌⊎◌, refl, arith, inl, inr, Bool, true, false, ◌||◌, not, ◌==◌, leb, ltb,
  Bool-cases, ==_self, u64,
}
use bailey_forbes_flinstone.Drivers.Irq.{Slot, Controller, dispatch, irq_eoi, max_irq}

module _ {W : Type 0} (c : Controller W) where
  -- What a dispatch of the interrupt returns and leaves.
  abbrev pub Dispatched : (ℕ → Slot) → ℕ → W → Bool × (ℕ → Slot) × W → Type 0
  Dispatched slots n w (true, slots', w') =
      let s = slots n in
      (n < max_irq)
      × (s.enabled ≡ true)
      × (s.handler ≢ 0)
      × (w' ≡ c.eoi n (c.call s.handler n s.ctx w))
      × (slots' n ≡ record s {
        dispatch_count = u64 (s.dispatch_count + 1);
        eoi_count = u64 (s.eoi_count + 1);
      })
      × ((k : ℕ) → k ≢ n → slots' k ≡ slots k)
  Dispatched slots n w (false, slots', w') =
      ((max_irq ≡ n) ⊎ (max_irq < n) ⊎ ((slots n).enabled ≡ false) ⊎ ((slots n).handler ≡ 0))
      × (slots' ≡ slots)
      × (w' ≡ w)

  -- An interrupt that is dispatched is valid and enabled and has a handler, which is called exactly
  -- once with the number and its context, then the interrupt is ended, both are counted, modulo
  -- 2^64, and no other slot changes; one that is refused is invalid, disabled or without a handler,
  -- and nothing changes.
  pub dispatch-Dispatched :
      (slots : ℕ → Slot) (n : ℕ) (w : W) → Dispatched slots n w (dispatch c slots n w)
  dispatch-Dispatched slots n w = elim (Bool-cases (leb max_irq n)) [
    | inl e ↦ unfold dispatch in rw e (ground arith, refl, refl)
    | inr e ↦ elim (Bool-cases (not (slots n).enabled || (slots n).handler == 0)) [
      | inl f ↦ unfold dispatch in rw (e, f) (ground arith, refl, refl)
      | inr f ↦
          let valid : ltb n max_irq ≡ true = ground arith in
          unfold dispatch in
          unfold irq_eoi in
          rw (e, f, valid)
            (
              (ground arith),
              (ground arith),
              (λ z. ground arith),
              refl,
              (rw (==_self n) refl),
              λ k ne. let other : (n == k) ≡ false = ground (arith, ne) in rw other refl,
            )
    ]
  ]
