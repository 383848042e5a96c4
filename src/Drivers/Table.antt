-- ===== src/Drivers/Table.antt =====
-- The tables of kernel/drivers/driver_model.c: a C array of which the first `count` entries are in
-- use, where an entry is removed by moving the last one to its place. Entries behind `count` keep
-- what they held.
use bailey_forbes_flinstone.Base.{
  ℕ, zero, suc, ◌+◌, ◌-◌, ◌≡◌, ◌≢◌, ◌≤◌, ◌<◌, ◌⊎◌, ◌∙◌, refl, sym, ap, subst, arith, inl, inr, Bool,
  true, false, Option, none, some, ◌==◌, if◌then◌else◌, update, Bool-cases, ==→eq, ==_self,
}

pub record Table (A : Type 0) : Type 0 where
  pub entry : ℕ → A
  pub count : ℕ

module _ {A : Type 0} where
  -- `table[count++] = a`
  abbrev pub append_entry : Table A → A → Table A
  append_entry t a = record { entry = update t.entry t.count a; count = t.count + 1 }

  -- `table[i] = table[count - 1]; count--;`
  abbrev pub remove_entry : Table A → ℕ → Table A
  remove_entry t i = record {
    entry = update t.entry i (t.entry (t.count - 1));
    count = t.count - 1;
  }

  -- The first place from `i` on, with `n` entries left, whose entry passes the test.
  unfoldable pub find_from : (A → Bool) → (ℕ → A) → ℕ → ℕ → Option ℕ
  find_from test entry zero i = none
  find_from test entry (suc n) i =
      let rest = find_from test entry n (i + 1) in if test (entry i) then some i else rest

  unfoldable pub find : (A → Bool) → Table A → Option ℕ
  unfolding find_from
  find test t = find_from test t.entry t.count 0

  -- Every entry in use has the property.
  abbrev pub AllEntries : (A → Type 0) → Table A → Type 0
  AllEntries P t = (i : ℕ) → i < t.count → P (t.entry i)

  -- Any two entries in use are related.
  abbrev pub Pairwise : (A → A → Type 0) → Table A → Type 0
  Pairwise R t = (i j : ℕ) → i < t.count → j < t.count → i ≢ j → R (t.entry i) (t.entry j)

  -- The entry is in use somewhere.
  abbrev pub Occurs : A → Table A → Type 0
  Occurs a t = (i : ℕ) × (i < t.count) × (t.entry i ≡ a)

  abbrev pub Finds : (A → Bool) → (ℕ → A) → ℕ → ℕ → Option ℕ → Type 0
  Finds test entry n i none = (j : ℕ) → i ≤ j → j < i + n → test (entry j) ≡ false
  Finds test entry n i (some k) =
      (i ≤ k)
      × (k < i + n)
      × (test (entry k) ≡ true)
      × ((j : ℕ) → i ≤ j → j < k → test (entry j) ≡ false)

  Finds-next :
      (test : A → Bool) (entry : ℕ → A) (n i : ℕ) (o : Option ℕ)
      → test (entry i) ≡ false
      → Finds test entry n (i + 1) o
      → Finds test entry (suc n) i o
  Finds-next test entry n i none h f = λ j l u. elim (Bool-cases (i == j)) [
    | inl e ↦ subst (λ x. test (entry x) ≡ false) (==→eq i j e) h
    | inr e ↦ f j (ground arith) (omega arith)
  ]
  Finds-next test entry n i (some k) h (a, b, c, f) = (
    (omega arith),
    (omega arith),
    c,
    λ j l u. elim (Bool-cases (i == j)) [
      | inl e ↦ subst (λ x. test (entry x) ≡ false) (==→eq i j e) h
      | inr e ↦ f j (ground arith) u
    ],
  )

  find_from-Finds :
      (test : A → Bool) (entry : ℕ → A) (n i : ℕ) → Finds test entry n i (find_from test entry n i)
  unfolding find_from
  find_from-Finds test entry zero i = λ j l u. absurd (omega arith)
  find_from-Finds test entry (suc n) i = elim (Bool-cases (test (entry i))) [
    | inl e ↦ rw e ((omega arith), (omega arith), e, λ j l u. absurd (omega arith))
    | inr e ↦ rw e (Finds-next test entry n i _ e (find_from-Finds test entry n (i + 1)))
  ]

  -- What the search of a table finds.
  pub find-Finds : (test : A → Bool) (t : Table A) → Finds test t.entry t.count 0 (find test t)
  unfolding find
  find-Finds test t = find_from-Finds test t.entry t.count 0

  pub AllEntries-append :
      (P : A → Type 0) (t : Table A) (a : A)
      → AllEntries P t
      → P a
      → AllEntries P (append_entry t a)
  AllEntries-append P t a all h i l = elim (Bool-cases (t.count == i)) [
    | inl e ↦ rw e h
    | inr e ↦ rw e (all i (ground arith))
  ]

  pub AllEntries-remove :
      (P : A → Type 0) (t : Table A) (k : ℕ)
      → k < t.count
      → AllEntries P t
      → AllEntries P (remove_entry t k)
  AllEntries-remove P t k h all i l = elim (Bool-cases (k == i)) [
    | inl e ↦ rw e (all (t.count - 1) (omega arith))
    | inr e ↦ rw e (all i (omega arith))
  ]

  pub Pairwise-append :
      (R : A → A → Type 0) (t : Table A) (a : A)
      → Pairwise R t
      → AllEntries (λ b. R a b × R b a) t
      → Pairwise R (append_entry t a)
  Pairwise-append R t a pairs all i j hi hj ne = elim (Bool-cases (t.count == i)) [
    | inl e ↦ elim (Bool-cases (t.count == j)) [
      | inl e' ↦ absurd (ground (arith, ne))
      | inr e' ↦ rw (e, e') (all j (ground arith)).0
    ]
    | inr e ↦ elim (Bool-cases (t.count == j)) [
      | inl e' ↦ rw (e, e') (all i (ground arith)).1
      | inr e' ↦ rw (e, e') (pairs i j (ground arith) (ground arith) ne)
    ]
  ]

  pub Pairwise-remove :
      (R : A → A → Type 0) (t : Table A) (k : ℕ)
      → k < t.count
      → Pairwise R t
      → Pairwise R (remove_entry t k)
  Pairwise-remove R t k h pairs i j hi hj ne = elim (Bool-cases (k == i)) [
    | inl e ↦ elim (Bool-cases (k == j)) [
      | inl e' ↦ absurd (ground (arith, ne))
      | inr e' ↦ rw (e, e') (pairs (t.count - 1) j (omega arith) (omega arith) (λ z. omega arith))
    ]
    | inr e ↦ elim (Bool-cases (k == j)) [
      | inl e' ↦ rw (e, e') (pairs i (t.count - 1) (omega arith) (omega arith) (λ z. omega arith))
      | inr e' ↦ rw (e, e') (pairs i j (omega arith) (omega arith) ne)
    ]
  ]

  -- What the removal leaves was there, and all but the removed entry is left.
  pub Occurs-remove :
      (t : Table A) (k : ℕ) (a : A) → k < t.count → Occurs a (remove_entry t k) → Occurs a t
  Occurs-remove t k a h (i, l, e) = elim (Bool-cases (k == i)) [
    | inl s ↦ (t.count - 1, (omega arith), sym (rw s refl) ∙ e)
    | inr s ↦ (i, (omega arith), sym (rw s refl) ∙ e)
  ]

  pub Occurs-remove_other :
      (t : Table A) (k : ℕ) (a : A)
      → k < t.count
      → t.entry k ≢ a
      → Occurs a t
      → Occurs a (remove_entry t k)
  Occurs-remove_other t k a h ne (i, l, e) = elim (Bool-cases (i == t.count - 1)) [
    | inl last ↦
        let i' = ==→eq i (t.count - 1) last in
        let k' : k ≢ i = λ s. ne (ap t.entry s ∙ e) in
        (k, ground (arith, k'), (rw (==_self k) refl) ∙ ap t.entry (sym i') ∙ e)
    | inr inner ↦
        let k' : k ≢ i = λ s. ne (ap t.entry s ∙ e) in
        let other : (k == i) ≡ false = ground (arith, k') in
        (i, (ground arith), (rw other refl) ∙ e)
  ]

  -- What the table has after an entry is added.
  pub Occurs-append : (t : Table A) (n m : A) → Occurs m t → Occurs m (append_entry t n)
  Occurs-append t n m (i, l, e) =
      let other : (t.count == i) ≡ false = ground arith in (i, (omega arith), (rw other refl) ∙ e)

  pub Occurs-append_split :
      (t : Table A) (n m : A) → Occurs m (append_entry t n) → Occurs m t ⊎ (m ≡ n)
  Occurs-append_split t n m (i, l, e) = elim (Bool-cases (t.count == i)) [
    | inl s ↦ inr (sym (sym (rw s refl) ∙ e))
    | inr s ↦ inl (i, (ground arith), sym (rw s refl) ∙ e)
  ]
