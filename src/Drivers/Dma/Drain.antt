-- ===== src/Drivers/Dma/Drain.antt =====
-- All buffers go back to the allocator.
use bailey_forbes_flinstone.Base.{
  ℕ, zero, suc, ◌-◌, ◌≡◌, ◌≢◌, ◌<◌, ◌∙◌, refl, sym, ap, ap₂, subst, arith, inl, inr, Bool, true,
  false, Option, none, some, List, [], ◌∷◌, ◌==◌, Bool-cases, ==→eq, ==_self,
}
use mathlib.Core.Bool.{false≢true}
use bailey_forbes_flinstone.Drivers.Table.{
  Table, remove_entry, AllEntries, AllEntries-remove, Pairwise, Pairwise-remove, find, Finds,
  find-Finds,
}
use bailey_forbes_flinstone.Drivers.Dma.{Record, free, given_back, release_from, release_all}

-- No two records have the same address, and none has NULL.
pub record IsBuffers (t : Table Record) : Type 0 where
  pub real : AllEntries (λ r. r.ptr ≢ 0) t
  pub distinct : Pairwise (λ a b. a.ptr ≢ b.ptr) t

-- The addresses of the first `n` records, the last one first.
pub addresses : (ℕ → Record) → ℕ → List ℕ
addresses entry zero = []
addresses entry (suc n) = (entry n).ptr ∷ addresses entry n

addresses-congruence :
    (f g : ℕ → Record) (n : ℕ) → ((i : ℕ) → i < n → f i ≡ g i) → addresses f n ≡ addresses g n
unfolding addresses
addresses-congruence f g zero h = refl
addresses-congruence f g (suc n) h =
    ap₂ (λ (r : Record) rs. r.ptr ∷ rs) (h n (omega arith))
      (addresses-congruence f g n (λ i l. h i (omega arith)))

-- The last record is the only one with its address.
find-last :
    (t : Table Record) (n : ℕ)
    → t.count ≡ suc n
    → IsBuffers t
    → find (λ r. r.ptr == (t.entry n).ptr) t ≡ some n
find-last t n c ok = from_found (find same t) (find-Finds same t)
  where
    same : Record → Bool
    same r = r.ptr == (t.entry n).ptr

    from_found : (o : Option ℕ) → Finds same t.entry t.count 0 o → o ≡ some n
    from_found none f =
        absurd (false≢true (sym (f n (omega arith) (omega arith)) ∙ ==_self (t.entry n).ptr))
    from_found (some k) (a, b, e, before) = elim (Bool-cases (k == n)) [
      | inl s ↦ ap some (==→eq k n s)
      | inr s ↦ absurd (
          ok.distinct k n (omega arith) (omega arith) (λ z. ground arith)
            (==→eq (t.entry k).ptr (t.entry n).ptr e))
    ]

free-last :
    (t : Table Record) (n : ℕ)
    → t.count ≡ suc n
    → IsBuffers t
    → free t (t.entry n).ptr ≡ (some ((t.entry n).ptr, (t.entry n).size), remove_entry t n)
free-last t n c ok = take_out ∙ ap outcome (find-last t n c ok)
  where
    ptr : ℕ
    ptr = (t.entry n).ptr

    outcome : Option ℕ → Option (ℕ × ℕ) × Table Record
    outcome none = (none, t)
    outcome (some i) = (some (ptr, (t.entry i).size), remove_entry t i)

    outcome-eq :
        (o : Option ℕ)
        → ◌≡◌ {A = Option (ℕ × ℕ) × Table Record}
            (elim o [
              | none ↦ (none, t)
              | some i ↦ (some (ptr, (t.entry i).size), remove_entry t i)
            ])
            (outcome o)
    outcome-eq none = refl
    outcome-eq (some i) = refl

    take_out : free t ptr ≡ outcome (find (λ r. r.ptr == ptr) t)
    take_out =
        let e : (ptr == 0) ≡ false = let real = ok.real n (omega arith) in ground (arith, real) in
        unfold free in rw e (outcome-eq (find (λ r. r.ptr == ptr) t))

-- What the release of all buffers gives back and leaves.
abbrev pub Drained : Table Record → Option (List ℕ × Table Record) → Type 0
Drained t none = ⊥
Drained t (some (rs, u)) = (rs ≡ addresses t.entry t.count) × (u.count ≡ 0)

release_from-Drained :
    (n : ℕ) (t : Table Record) → t.count ≡ n → IsBuffers t → Drained t (release_from n t)
unfolding release_from
release_from-Drained zero t c ok =
    let e : (t.count == 0) ≡ true = ground arith in rw e ((unfold addresses in rw c refl), c)
release_from-Drained (suc n) t c ok =
    let some_left : (t.count == 0) ≡ false = ground arith in
    let last : t.count - 1 ≡ n = omega arith in
    rw some_left (
      subst After (sym (ap (λ i. free t (t.entry i).ptr) last ∙ free-last t n c ok))
        (add_last (release_from n smaller) (release_from-Drained n smaller last smaller-ok)))
  where
    smaller : Table Record
    smaller = remove_entry t n

    smaller-ok : IsBuffers smaller
    smaller-ok = record {
      real = AllEntries-remove (λ r. r.ptr ≢ 0) t n (omega arith) ok.real;
      distinct = Pairwise-remove (λ a b. a.ptr ≢ b.ptr) t n (omega arith) ok.distinct;
    }

    with_given : Option (ℕ × ℕ) → Option (List ℕ × Table Record) → Option (List ℕ × Table Record)
    with_given given o = elim o [ none ↦ none | some (rs, u) ↦ some (given_back given rs, u) ]

    After : Option (ℕ × ℕ) × Table Record → Type 0
    After r = Drained t (with_given r.0 (release_from n r.1))

    untouched : (i : ℕ) → i < n → smaller.entry i ≡ t.entry i
    untouched i l = let other : (n == i) ≡ false = ground arith in rw other refl

    add_last :
        (o : Option (List ℕ × Table Record))
        → Drained smaller o
        → Drained t (with_given (some ((t.entry n).ptr, (t.entry n).size)) o)
    add_last none d = d
    add_last (some (rs, u)) (given, empty) = (
      (unfold given_back in
            ap (λ (xs : List ℕ). (t.entry n).ptr ∷ xs)
              (given
                ∙ ap (addresses smaller.entry) (omega arith)
                ∙ addresses-congruence smaller.entry t.entry n untouched))
          ∙ (unfold addresses in rw c refl),
      empty,
    )

-- In a table with different addresses, none of which is NULL, `fl_dma_release_all` ends, and it
-- gives back the address of every record once, the last record first, and leaves no record.
pub release_all-Drained : (t : Table Record) → IsBuffers t → Drained t (release_all t)
unfolding release_all
release_all-Drained t ok = release_from-Drained t.count t refl ok
