-- ===== src/Sys/Vrt/Handles.antt =====
-- What the handles of the table mean.
use bailey_forbes_flinstone.Base.{
  ℕ, zero, suc, ◌+◌, ◌≡◌, ◌≢◌, ◌≤◌, ◌<◌, refl, sym, ap, subst, arith, inl, inr, Bool, true, false,
  ◌||◌, Option, none, some, List, ◌==◌, leb, if◌then◌else◌, update, Bool-cases, ==→eq, ==_self,
}
use bailey_forbes_flinstone.Sys.Vrt.{
  Vrt, Entry, Kind, max_handles, path_field, find_free, alloc, free, get,
}

-- The outcome of a search of `n` entries from `i` on.
abbrev Found : ℕ → (ℕ → Entry) → ℕ → Option ℕ → Type 0
Found n table i none = (j : ℕ) → i ≤ j → j < i + n → (table j).resource ≢ 0
Found n table i (some h) =
    (i ≤ h)
    × (h < i + n)
    × ((table h).resource ≡ 0)
    × ((j : ℕ) → i ≤ j → j < h → (table j).resource ≢ 0)

Found-next :
    (n : ℕ) (table : ℕ → Entry) (i : ℕ) (o : Option ℕ)
    → (table i).resource ≢ 0
    → Found n table (i + 1) o
    → Found (suc n) table i o
Found-next n table i none used f = λ j l u. elim (Bool-cases (i == j)) [
  | inl e ↦ subst (λ k. (table k).resource ≢ 0) (==→eq i j e) used
  | inr e ↦ f j (ground arith) (omega arith)
]
Found-next n table i (some h) used (a, b, c, f) = (
  (omega arith),
  (omega arith),
  c,
  λ j l u. elim (Bool-cases (i == j)) [
    | inl e ↦ subst (λ k. (table k).resource ≢ 0) (==→eq i j e) used
    | inr e ↦ f j (ground arith) u
  ],
)

find_free-Found : (n : ℕ) (table : ℕ → Entry) (i : ℕ) → Found n table i (find_free n table i)
unfolding find_free
find_free-Found zero table i = λ j l u. absurd (omega arith)
find_free-Found (suc n) table i = elim (Bool-cases ((table i).resource == 0)) [
  | inl e ↦ rw e ((omega arith), (omega arith), ==→eq _ 0 e, λ j l u. absurd (omega arith))
  | inr e ↦ rw e (
      Found-next n table i (find_free n table (i + 1)) (λ z. ground arith)
        (find_free-Found n table (i + 1)))
]

abbrev pub Allocated : Vrt → Entry → Option ℕ × Vrt → Type 0
Allocated v entry (none, v') = (v' ≡ v) × ((h : ℕ) → h < max_handles → (v.table h).resource ≢ 0)
Allocated v entry (some h, v') =
    (h < max_handles)
    × (get v h ≡ none)
    × ((j : ℕ) → j < h → (v.table j).resource ≢ 0)
    × (get v' h ≡ some entry)
    × ((j : ℕ) → h ≢ j → v'.table j ≡ v.table j)
    × (get (free v' h) h ≡ none)

module _ (v : Vrt) (entry : Entry) where
  abbrev with_entry : ℕ → Vrt
  with_entry h = record v { table = update v.table h entry }

  abbrev placed : Option ℕ → Option ℕ × Vrt
  placed o = elim o [ none ↦ (none, v) | some h ↦ (some h, with_entry h) ]

  get-placed : (h : ℕ) → h < max_handles → entry.resource ≢ 0 → get (with_entry h) h ≡ some entry
  get-placed h u real =
      let same : (update v.table h entry) h ≡ entry = rw (==_self h) refl in
      let inside : (leb max_handles h || ((update v.table h entry) h).resource == 0) ≡ false =
        rw same (ground (arith, real)) in
      unfold get in rw (inside, same) refl

  get-freed : (h : ℕ) → h < max_handles → get (free (with_entry h) h) h ≡ none
  get-freed h u =
      let inside : leb max_handles h ≡ false = ground arith in
      let self = ==_self h in unfold free in unfold get in rw (inside, self) refl

  placed-Allocated :
      (o : Option ℕ)
      → entry.resource ≢ 0
      → Found max_handles v.table 0 o
      → Allocated v entry (placed o)
  placed-Allocated none real f = (refl, λ h u. f h (omega arith) (omega arith))
  placed-Allocated (some h) real (a, b, c, f) = (
    (omega arith),
    unused,
    (λ j u. f j (omega arith) u),
    get-placed h (omega arith) real,
    (λ j ne. ground arith),
    get-freed h (omega arith),
  )
    where
      empty : ((v.table h).resource == 0) ≡ true
      empty = rw c refl

      unused : get v h ≡ none
      unused =
          let inside : leb max_handles h ≡ false = ground arith in
          unfold get in rw (inside, empty) refl

module _ (v : Vrt) (kind : Kind) (resource : ℕ) (path : Option (List ℕ)) (size : ℕ) where
  abbrev stored : Entry
  stored = record { kind = kind; resource = resource; path = path_field path; size = size }

  -- `vrt_alloc` in an initialised table, of a resource that is not NULL, hands out the lowest
  -- handle that is not in use, for which `vrt_get` then gives what was stored and after `vrt_free`
  -- nothing, and leaves every other entry alone; it fails only if all 256 handles are in use.
  pub alloc-Allocated :
      v.inited ≡ true
      → resource ≢ 0
      → Allocated v
          (record { kind = kind; resource = resource; path = path_field path; size = size })
          (alloc v kind resource path size)
  alloc-Allocated ready real = subst (Allocated v stored) (sym accepted) (
      placed-Allocated v stored (find_free max_handles v.table 0) real
        (find_free-Found max_handles v.table 0))
    where
      accepted : alloc v kind resource path size ≡ placed v stored (find_free max_handles v.table 0)
      accepted =
          unfold alloc in
          ap
            (λ (b : Bool).
              if b then placed v stored (find_free max_handles v.table 0) else (none, v))
            ready
