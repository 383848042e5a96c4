-- ===== src/Mm/Arena/Blocks.antt =====
-- Lists of blocks that do not meet, from which one is taken.
use bailey_forbes_flinstone.Base.{List, [], ◌∷◌}

module _ {A : Type 0} where
  -- Every element has the property.
  abbrev pub Each : (A → Type 0) → List A → Type 0
  Each P [] = Unit
  Each P (x ∷ xs) = P x × Each P xs

  -- Every element is related to all that follow it.
  abbrev pub Pairs : (A → A → Type 0) → List A → Type 0
  Pairs R [] = Unit
  Pairs R (x ∷ xs) = Each (R x) xs × Pairs R xs

  -- The first list without the element is the second.
  pub data Picks (x : A) : List A → List A → Type 0 where
    first : (xs : List A) → Picks x (x ∷ xs) xs
    later : (y : A) {ys zs : List A} → Picks x ys zs → Picks x (y ∷ ys) (y ∷ zs)

  pub Each-map : (P Q : A → Type 0) → ((x : A) → P x → Q x) → (xs : List A) → Each P xs → Each Q xs
  Each-map P Q f [] e = tt
  Each-map P Q f (x ∷ xs) (p, e) = (f x p, Each-map P Q f xs e)

  pub Each-zip :
      (P Q S : A → Type 0)
      → ((x : A) → P x → Q x → S x)
      → (xs : List A) → Each P xs
      → Each Q xs
      → Each S xs
  Each-zip P Q S f [] e d = tt
  Each-zip P Q S f (x ∷ xs) (p, e) (q, d) = (f x p q, Each-zip P Q S f xs e d)

  pub Each-Picks :
      (P : A → Type 0) {x : A} {xs rest : List A} → Picks x xs rest → Each P xs → P x × Each P rest
  Each-Picks P (first xs) (p, e) = (p, e)
  Each-Picks P (later y pick) (p, e) = let (px, e') = Each-Picks P pick e in (px, (p, e'))

  pub Pairs-Picks :
      (R : A → A → Type 0)
      → ((x y : A) → R x y → R y x)
      → {x : A} {xs rest : List A} → Picks x xs rest
      → Pairs R xs
      → Each (R x) rest × Pairs R rest
  Pairs-Picks R flip (first xs) (e, p) = (e, p)
  Pairs-Picks R flip {x} (later y pick) (e, p) =
      let (e', p') = Pairs-Picks R flip pick p in
      let (yx, erest) = Each-Picks (R y) pick e in ((flip y x yx, e'), (erest, p'))
