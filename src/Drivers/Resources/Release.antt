-- ===== src/Drivers/Resources/Release.antt =====
-- What a release takes from the table and what it leaves.
use bailey_forbes_flinstone.Base.{
  ℕ, zero, suc, ◌+◌, ◌≡◌, ◌≢◌, ◌≤◌, ◌<◌, ◌↔◌, ◌∙◌, sym, ap, subst, arith, inl, inr, false, List,
  ◌⊎◌, ◌==◌, ltb, Bool-cases, ==→eq,
}
use bailey_forbes_flinstone.Drivers.{
  Resource, ResourceKind, irq, kind_number, same_kind, DeviceDesc,
}
use bailey_forbes_flinstone.Drivers.Table.{
  Table, remove_entry, AllEntries, AllEntries-remove, Pairwise-remove, Occurs, Occurs-remove,
  Occurs-remove_other,
}
use bailey_forbes_flinstone.Drivers.Resources.{Claim, release_from, release_all, claim, claim_all}
use bailey_forbes_flinstone.Drivers.Resources.Claims.{
  IsClaims, Apart, InRange, claim-IsClaims, claim_all-IsClaims,
}

-- What the loop at `i` leaves of the claims of `t`, where those before `i` are not the device's.
record Released (dev : ℕ) (t t' : Table Claim) : Type 0 where
  none_left : AllEntries (λ c. c.owner ≢ dev) t'
  others_kept : (c : Claim) → c.owner ≢ dev → Occurs c t → Occurs c t'
  none_new : (c : Claim) → Occurs c t' → Occurs c t
  claims : IsClaims t → IsClaims t'

remove-IsClaims : (t : Table Claim) (i : ℕ) → i < t.count → IsClaims t → IsClaims (remove_entry t i)
remove-IsClaims t i l ok = record {
  owned = AllEntries-remove (λ c. c.owner ≢ 0) t i l ok.owned;
  apart = Pairwise-remove Apart t i l ok.apart;
  fits = omega (arith, ok.fits);
}

Before : ℕ → Table Claim → ℕ → Type 0
Before dev t i = (j : ℕ) → j < i → j < t.count → (t.entry j).owner ≢ dev

Released-self :
    (dev : ℕ) (t : Table Claim) (i : ℕ) → t.count ≤ i → Before dev t i → Released dev t t
unfolding Before
Released-self dev t i l before = record {
  none_left = λ j h. before j (omega arith) h;
  others_kept = λ c ne o. o;
  none_new = λ c o. o;
  claims = λ ok. ok;
}

release_from-Released :
    (fuel : ℕ) (t : Table Claim) (dev i : ℕ)
    → t.count ≤ fuel + i
    → Before dev t i
    → Released dev t (release_from fuel t dev i)
unfolding release_from Before
release_from-Released zero t dev i enough before = Released-self dev t i (omega arith) before
release_from-Released (suc fuel) t dev i enough before = elim (Bool-cases (ltb i t.count)) [
  | inr e ↦ rw e (Released-self dev t i (ground arith) before)
  | inl e ↦ elim (Bool-cases ((t.entry i).owner == dev)) [
    | inl o ↦
        let l : i < t.count = ground arith in
        let mine : (t.entry i).owner ≡ dev = ==→eq _ dev o in
        let rest =
          release_from-Released fuel (remove_entry t i) dev i (omega arith) (λ j a b.
            let ne : (i == j) ≡ false = ground arith in rw ne (before j a (omega arith))) in
        rw (e, o)
          (record {
            none_left = rest.none_left;
            others_kept = λ c ne oc.
                rest.others_kept c ne
                  (Occurs-remove_other t i c l (λ z. ne (sym (ap (λ x. x.owner) z) ∙ mine)) oc);
            none_new = λ c oc. Occurs-remove t i c l (rest.none_new c oc);
            claims = λ ok. rest.claims (remove-IsClaims t i l ok);
          })
    | inr o ↦
        rw (e, o)
          (release_from-Released fuel t dev (i + 1) (omega arith) (λ j a b.
            elim (Bool-cases (i == j)) [
              | inl s ↦ subst (λ x. (t.entry x).owner ≢ dev) (==→eq i j s) (λ z. ground arith)
              | inr s ↦ before j (ground arith) b
            ]))
  ]
]

-- `fl_resource_release_all` for a device that is not NULL leaves no claim of the device, keeps
-- every claim of every other device, adds none, and keeps the claims apart.
pub release_all_lem :
    (t : Table Claim) (dev : ℕ)
    → dev ≢ 0
    → IsClaims t
    → let t' = release_all t dev in
      IsClaims t'
      × ((c : Claim) → c.owner ≡ dev → Occurs c t' → ⊥)
      × ((c : Claim) → c.owner ≢ dev → Occurs c t ↔ Occurs c t')
release_all_lem t dev real ok =
    let r =
      release_from-Released t.count t dev 0 (omega arith)
        (unfold Before in λ j a. absurd (omega arith)) in
    let e : (dev == 0) ≡ false = ground arith in
    unfold release_all in
    rw e (
      r.claims ok,
      (λ c mine (i, l, s). r.none_left i l (ap (λ x. x.owner) s ∙ mine)),
      (λ c ne. (r.others_kept c ne, r.none_new c)),
    )

-- The operations on the table, in any order.
pub data Step : Table Claim → Table Claim → Type 0 where
  claims_one :
      (t : Table Claim) (dev : ℕ) (desc : DeviceDesc) (kind : ResourceKind) (index : ℕ)
      → Step t (claim t dev desc kind index).1
  claims_all : (t : Table Claim) (dev : ℕ) (rs : List Resource) → Step t (claim_all t dev rs).1
  releases : (t : Table Claim) (dev : ℕ) → Step t (release_all t dev)

pub data Reach (s : Table Claim) : Table Claim → Type 0 where
  here : Reach s s
  next : {t u : Table Claim} → Reach s t → Step t u → Reach s u

release_all-IsClaims : (t : Table Claim) (dev : ℕ) → IsClaims t → IsClaims (release_all t dev)
release_all-IsClaims t dev ok = elim (Bool-cases (dev == 0)) [
  | inl e ↦ unfold release_all in rw e ok
  | inr e ↦ (release_all_lem t dev (λ z. ground arith) ok).0
]

Step-IsClaims : {t u : Table Claim} → Step t u → IsClaims t → IsClaims u
Step-IsClaims (claims_one t dev desc kind index) ok = claim-IsClaims t dev desc kind index ok
Step-IsClaims (claims_all t dev rs) ok = claim_all-IsClaims t dev rs ok
Step-IsClaims (releases t dev) ok = release_all-IsClaims t dev ok

-- The invariant, in which no two claims overlap by the test of the code, is kept by every order of
-- steps.
pub Reach-IsClaims : {s t : Table Claim} → IsClaims s → Reach s t → IsClaims t
Reach-IsClaims ok here = ok
Reach-IsClaims ok (next r step) = Step-IsClaims step (Reach-IsClaims ok r)

-- Different kinds, different interrupt lines, or ranges without a common address.
abbrev pub Disjoint : Resource → Resource → Type 0
Disjoint a b =
    (same_kind a.kind b.kind ≡ false)
    ⊎ ((kind_number a.kind ≡ kind_number irq) × (a.start ≢ b.start))
    ⊎ ((x : ℕ) → InRange x a → InRange x b → ⊥)
