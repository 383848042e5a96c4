-- ===== src/Vfs/Chain.antt =====
-- kernel/core/vfs/fs_chain.c: the validators that an operation has to pass. A chain is the list of its
-- nodes from the head on. A validator is what it returns for the path, 0 for a pass.
use bailey_forbes_flinstone.Base.{
  ℕ, ◌≡◌, ◌≢◌, ◌⊎◌, refl, ap, arith, inl, inr, Bool, true, List, [], ◌∷◌, ◌++◌, ◌==◌, if◌then◌else◌,
  Bool-cases, ==→eq,
}

-- `allocated` says whether `malloc` returns a node.
unfoldable pub add : {V : Type 0} → List V → V → Bool → List V
add chain v allocated = if allocated then v ∷ chain else chain

unfoldable pub run : {V : Type 0} → List V → (V → ℕ) → ℕ
run [] result = 0
run (v ∷ chain) result = if result v == 0 then run chain result else result v

-- Every validator of the list passes.
abbrev pub AllPass : {V : Type 0} → List V → (V → ℕ) → Type 0
AllPass [] result = Unit
AllPass (v ∷ vs) result = (result v ≡ 0) × AllPass vs result

-- The chain stops at a validator with every one before it passing.
abbrev pub StopsAt : {V : Type 0} → List V → (V → ℕ) → ℕ → Type 0
StopsAt {V} chain result r =
    (before : List V) × (v : V) × (after : List V) × (chain ≡ before ++ (v ∷ after))
    × AllPass before result
    × (result v ≡ r)
    × (r ≢ 0)

-- The result of `fs_chain_run` is 0 exactly if every validator passes, and otherwise what the first
-- one returns that does not, those after it having no part in it.
pub run_cases :
    {V : Type 0} (chain : List V) (result : V → ℕ)
    → (AllPass chain result × (run chain result ≡ 0)) ⊎ StopsAt chain result (run chain result)
unfolding run
run_cases [] result = inl (tt, refl)
run_cases (v ∷ chain) result = elim (Bool-cases (result v == 0)) [
  | inl e ↦ rw e (passed e (run_cases chain result))
  | inr e ↦ rw e (inr ([], v, chain, refl, tt, refl, λ z. ground arith))
]
  where
    passed :
        (result v == 0) ≡ true
        → (AllPass chain result × (run chain result ≡ 0)) ⊎ StopsAt chain result (run chain result)
        → (AllPass (v ∷ chain) result × (run chain result ≡ 0))
          ⊎ StopsAt (v ∷ chain) result (run chain result)
    passed e (inl (all, z)) = inl ((==→eq (result v) 0 e, all), z)
    passed e (inr (before, w, after, split, all, at, ne)) =
        inr (v ∷ before, w, after, ap (λ xs. v ∷ xs) split, (==→eq (result v) 0 e, all), at, ne)
