-- ===== src/Base/Lists.antt =====
-- Lists measured and searched by native numbers.
use Prim.Native.Nat.{ℕ, zero, suc, ◌+◌, ◌≤◌, min}
use mathlib.Core.Path.{◌≡◌, refl, ap}
use mathlib.Core.Bool.{Bool, true, false, ◌||◌, false≢true}
use mathlib.Core.Logic.{inl, inr}
use mathlib.Core.Option.{Option, none, some}
use mathlib.Core.List.{List, [], ◌∷◌, ◌++◌}
use native.Mathlib.Omega.{arith}
use bailey_forbes_flinstone.Base.Tests.{◌==◌, Bool-cases}

module _ {ℓ} {A : Type ℓ} where
  abbrev pub length : List A → ℕ
  length [] = 0
  length (x ∷ xs) = suc (length xs)

  abbrev pub get_elem? : List A → ℕ → Option A
  get_elem? [] i = none
  get_elem? (x ∷ xs) zero = some x
  get_elem? (x ∷ xs) (suc i) = get_elem? xs i

  abbrev pub take : ℕ → List A → List A
  take zero xs = []
  take (suc n) [] = []
  take (suc n) (x ∷ xs) = x ∷ take n xs

  abbrev pub drop : ℕ → List A → List A
  drop zero xs = xs
  drop (suc n) [] = []
  drop (suc n) (x ∷ xs) = drop n xs

  abbrev pub replicate : ℕ → A → List A
  replicate zero a = []
  replicate (suc n) a = a ∷ replicate n a

  pub length-append : (xs ys : List A) → length (xs ++ ys) ≡ length xs + length ys
  length-append [] ys = omega arith
  length-append (x ∷ xs) ys = omega (arith, length-append xs ys)

  pub length-take : (n : ℕ) (xs : List A) → length (take n xs) ≡ min n (length xs)
  length-take zero xs = omega arith
  length-take (suc n) [] = omega arith
  length-take (suc n) (x ∷ xs) = omega (arith, length-take n xs)

  pub take-append-drop : (n : ℕ) (xs : List A) → take n xs ++ drop n xs ≡ xs
  take-append-drop zero xs = refl
  take-append-drop (suc n) [] = refl
  take-append-drop (suc n) (x ∷ xs) = ap (λ ys. x ∷ ys) (take-append-drop n xs)

  pub take_all : (n : ℕ) (xs : List A) → length xs ≤ n → take n xs ≡ xs
  take_all zero [] l = refl
  take_all zero (x ∷ xs) l = absurd (omega arith)
  take_all (suc n) [] l = refl
  take_all (suc n) (x ∷ xs) l = ap (λ ys. x ∷ ys) (take_all n xs (omega arith))

-- Membership of numbers, as a test.
abbrev pub mem : ℕ → List ℕ → Bool
mem a [] = false
mem a (x ∷ xs) = x == a || mem a xs

-- No number occurs twice.
abbrev pub Distinct : List ℕ → Type 0
Distinct [] = Unit
Distinct (x ∷ xs) = (mem x xs ≡ false) × Distinct xs

pub mem-append : (a : ℕ) (xs ys : List ℕ) → mem a (xs ++ ys) ≡ (mem a xs || mem a ys)
mem-append a [] ys = refl
mem-append a (x ∷ xs) ys = ground (arith, mem-append a xs ys)

pub Distinct-append :
    (xs ys : List ℕ)
    → Distinct (xs ++ ys)
    → Distinct xs × Distinct ys × ((a : ℕ) → mem a xs ≡ true → mem a ys ≡ false)
Distinct-append [] ys d = (tt, d, λ a h. absurd (omega (arith, false≢true h)))
Distinct-append (x ∷ xs) ys (o, d) =
    let (l, r, apart) = Distinct-append xs ys d in
    let o' = rw mem-append at o in ((ground arith, l), r, λ a h. ground (arith, apart a))

pub Distinct-drop :
    (xs : List ℕ) (s : ℕ) (ys : List ℕ)
    → Distinct (xs ++ (s ∷ ys))
    → Distinct (xs ++ ys) × (mem s (xs ++ ys) ≡ false)
Distinct-drop [] s ys (o, d) = (d, o)
Distinct-drop (x ∷ xs) s ys (o, d) =
    let (d', o') = Distinct-drop xs s ys d in
    let m = mem-append x xs (s ∷ ys) in
    let m' = mem-append x xs ys in ((ground arith, d'), ground arith)

pub mem-split :
    (s : ℕ) (xs : List ℕ) → mem s xs ≡ true → (us : List ℕ) × (vs : List ℕ) × (xs ≡ us ++ (s ∷ vs))
mem-split s [] h = absurd (false≢true h)
mem-split s (x ∷ xs) h = elim (Bool-cases (x == s)) [
  | inl e ↦ ([], xs, ground arith)
  | inr n ↦ let (us, vs, p) = mem-split s xs (ground arith) in (x ∷ us, vs, ap (λ ys. x ∷ ys) p)
]

pub Distinct-snoc :
    (xs : List ℕ) (s : ℕ) → mem s xs ≡ false → Distinct xs → Distinct (xs ++ (s ∷ []))
Distinct-snoc [] s o d = (refl, tt)
Distinct-snoc (x ∷ xs) s o (p, d) =
    (ground (arith, mem-append x xs (s ∷ [])), Distinct-snoc xs s (ground arith) d)
