-- ===== src/Vfs/Policy/Prefix.antt =====
-- The test of a path, by the bytes of the two paths.
use bailey_forbes_flinstone.Base.{
  ℕ, ◌≡◌, ◌⊎◌, ◌∙◌, refl, ap, ap₂, arith, inl, inr, true, List, [], ◌∷◌, ◌++◌, ◌==◌, Bool-cases,
  ==→eq, ==_self,
}
use bailey_forbes_flinstone.Vfs.Policy.{slash, starts_with, ends_component, covers}

-- The path is `p` itself, or `p` with a slash and more behind it.
abbrev pub IsBelow : List ℕ → List ℕ → Type 0
IsBelow p path = (path ≡ p) ⊎ ((rest : List ℕ) × (path ≡ p ++ (slash ∷ rest)))

ends_component-IsBelow : (path : List ℕ) → ends_component path ≡ true → IsBelow [] path
unfolding ends_component
ends_component-IsBelow [] h = inl refl
ends_component-IsBelow (c ∷ cs) h = inr (cs, ap (λ x. x ∷ cs) (==→eq c slash h))

IsBelow-cons : (a b : ℕ) (p path : List ℕ) → a ≡ b → IsBelow p path → IsBelow (b ∷ p) (a ∷ path)
IsBelow-cons a b p path e (inl h) = inl (ap₂ ◌∷◌ e h)
IsBelow-cons a b p path e (inr (rest, h)) = inr (rest, ap₂ ◌∷◌ e h)

pub covers-IsBelow : (p path : List ℕ) → covers p path ≡ true → IsBelow p path
unfolding covers starts_with
covers-IsBelow [] path h = ends_component-IsBelow path h
covers-IsBelow (b ∷ p) [] h = absurd (ground arith)
covers-IsBelow (b ∷ p) (a ∷ path) h = elim (Bool-cases (a == b)) [
  | inl e ↦
      IsBelow-cons a b p path (==→eq a b e) (covers-IsBelow p path (unfold covers in ground arith))
  | inr e ↦ absurd (ground arith)
]

covers_below_rest : (p rest : List ℕ) → covers p (p ++ (slash ∷ rest)) ≡ true
unfolding covers starts_with ends_component
covers_below_rest [] rest = refl
covers_below_rest (b ∷ p) rest = let c = covers_below_rest p rest in ground (arith, ==_self b)

covers_self : (p : List ℕ) → covers p p ≡ true
unfolding covers starts_with ends_component
covers_self [] = refl
covers_self (b ∷ p) = let c = covers_self p in ground (arith, ==_self b)

pub covers_below : (p path : List ℕ) → IsBelow p path → covers p path ≡ true
covers_below p path (inl e) = ap (covers p) e ∙ covers_self p
covers_below p path (inr (rest, e)) = ap (covers p) e ∙ covers_below_rest p rest
