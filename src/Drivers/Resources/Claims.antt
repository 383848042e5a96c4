-- ===== src/Drivers/Resources/Claims.antt =====
-- No two claims of the table meet.
use bailey_forbes_flinstone.Base.{
  ℕ, ◌+◌, ◌^◌, ◌≡◌, ◌≢◌, ◌≤◌, ◌<◌, ◌↔◌, ◌∙◌, subst, arith, inl, inr, true, false, ◌||◌, none, List,
  [], ◌∷◌, ◌==◌, leb, Bool-cases, Option-cases,
}
use bailey_forbes_flinstone.Drivers.{
  Resource, ResourceKind, irq, kind_number, same_kind, DeviceDesc,
}
use bailey_forbes_flinstone.Drivers.Table.{
  Table, append_entry, AllEntries, Pairwise, Pairwise-append, AllEntries-append, find, Finds,
  find-Finds,
}
use bailey_forbes_flinstone.Drivers.Resources.{
  Claim, resource_overlaps, claim_resource_desc, claim_all, claim, nth_of_kind, max_resources,
}

abbrev pub Apart : Claim → Claim → Type 0
Apart a b = resource_overlaps a.resource b.resource ≡ false

-- Every claim has an owner, and no two overlap.
pub record IsClaims (t : Table Claim) : Type 0 where
  pub owned : AllEntries (λ c. c.owner ≢ 0) t
  pub apart : Pairwise Apart t
  pub fits : t.count ≤ max_resources

resource_overlaps_sym : (a b : Resource) → resource_overlaps a b ≡ resource_overlaps b a
unfolding resource_overlaps
resource_overlaps_sym a b = ground arith

-- The addresses of a resource of a kind other than IRQ.
abbrev pub InRange : ℕ → Resource → Type 0
InRange x r = (r.start ≤ x) × (x < r.start + r.size)

-- Two resources of one kind other than IRQ, whose ranges end within the 64-bit space, overlap for
-- the code exactly when some address lies in both.
pub resource_overlaps_iff :
    (a b : Resource)
    → same_kind a.kind b.kind ≡ true
    → (kind_number a.kind == kind_number irq) ≡ false
    → a.start + a.size ≤ 2 ^ 64
    → b.start + b.size ≤ 2 ^ 64
    → (resource_overlaps a b ≡ true) ↔ ((x : ℕ) × InRange x a × InRange x b)
resource_overlaps_iff a b same other fa fb = (there, back)
  where
    meet :
        resource_overlaps a b ≡ true
        → (a.start < b.start + b.size) × (b.start < a.start + a.size) × (0 < a.size) × (0 < b.size)
    meet = unfold resource_overlaps in λ h. ground arith

    there : resource_overlaps a b ≡ true → (x : ℕ) × InRange x a × InRange x b
    there h =
        let m = meet h in
        elim (Bool-cases (leb a.start b.start)) [
          | inl e ↦ (b.start, ((ground arith), m.1), ((omega arith), (omega (arith, m))))
          | inr e ↦ (a.start, ((omega arith), (omega (arith, m))), ((ground arith), m.0))
        ]

    back : (x : ℕ) × InRange x a × InRange x b → resource_overlaps a b ≡ true
    back (x, ia, ib) = unfold resource_overlaps in ground arith

claim_resource_desc-IsClaims :
    (t : Table Claim) (dev : ℕ) (r : Resource)
    → IsClaims t
    → IsClaims (claim_resource_desc t dev r).1
claim_resource_desc-IsClaims t dev r ok =
    elim (Bool-cases (dev == 0 || leb max_resources t.count)) [
      | inl e ↦ unfold claim_resource_desc in rw e ok
      | inr e ↦ elim (Option-cases (find (λ c. resource_overlaps c.resource r) t)) [
        | inr (i, f) ↦ unfold claim_resource_desc in rw (e, f) ok
        | inl f ↦ unfold claim_resource_desc in rw (e, f) (added e f)
      ]
    ]
  where
    added :
        (dev == 0 || leb max_resources t.count) ≡ false
        → find (λ c. resource_overlaps c.resource r) t ≡ none
        → IsClaims (append_entry t (record { resource = r; owner = dev }))
    added e f = record {
      owned = AllEntries-append (λ c. c.owner ≢ 0) t _ ok.owned (λ z. ground arith);
      apart = Pairwise-append Apart t _ ok.apart (λ i l.
          let free = none_overlaps i l in
          (resource_overlaps_sym r (t.entry i).resource ∙ free, free));
      fits = ground arith;
    }
      where
        none_overlaps : AllEntries (λ c. resource_overlaps c.resource r ≡ false) t
        none_overlaps i l =
            subst (Finds (λ c. resource_overlaps c.resource r) t.entry t.count 0) f
              (find-Finds (λ c. resource_overlaps c.resource r) t) i (omega arith) (omega arith)

pub claim_all-IsClaims :
    (t : Table Claim) (dev : ℕ) (rs : List Resource) → IsClaims t → IsClaims (claim_all t dev rs).1
unfolding claim_all
claim_all-IsClaims t dev [] ok = ok
claim_all-IsClaims t dev (r ∷ rs) ok =
    let step = claim_resource_desc-IsClaims t dev r ok in
    elim (Bool-cases (claim_resource_desc t dev r).0) [
      | inl e ↦ rw e (claim_all-IsClaims (claim_resource_desc t dev r).1 dev rs step)
      | inr e ↦ rw e step
    ]

pub claim-IsClaims :
    (t : Table Claim) (dev : ℕ) (desc : DeviceDesc) (kind : ResourceKind) (index : ℕ)
    → IsClaims t
    → IsClaims (claim t dev desc kind index).1
claim-IsClaims t dev desc kind index ok = elim (Bool-cases (dev == 0)) [
  | inl e ↦ unfold claim in rw e ok
  | inr e ↦ elim (Option-cases (nth_of_kind kind index desc.resources)) [
    | inl f ↦ unfold claim in rw (e, f) ok
    | inr (r, f) ↦ unfold claim in rw (e, f) (claim_resource_desc-IsClaims t dev r ok)
  ]
]
