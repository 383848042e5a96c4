-- ===== src/Base/Rings.antt =====
-- A window of `n` elements of a C array of `size` elements that is used as a ring.
use Prim.Native.Nat.{ℕ, zero, suc, ◌+◌, ◌-◌, ◌%◌, ◌≤◌, ◌<◌}
use mathlib.Core.Path.{◌≡◌, refl, ap, ap₂, ◌∙◌}
use mathlib.Core.Logic.{◌≢◌, inl, inr}
use mathlib.Core.List.{List, [], ◌∷◌, ◌++◌}
use native.Mathlib.Omega.{arith}
use native.Mathlib.Nat.{mod_self, mod-eq_of_lt}
use bailey_forbes_flinstone.Base.Tests.{if◌then◌else◌, Bool-cases, leb}
use bailey_forbes_flinstone.Base.Lists.{length}

-- The index behind `i`: `(i + 1) % size`, without the division.
abbrev pub wrap : ℕ → ℕ → ℕ
wrap size i = if leb size i then i - size else i

-- How far `j` is behind `h`.
abbrev pub distance : ℕ → ℕ → ℕ → ℕ
distance size h j = if leb h j then j - h else j + size - h

pub mod-wrap : (size i : ℕ) → i < size → (i + 1) % size ≡ wrap size (i + 1)
mod-wrap size i h = elim (Bool-cases (leb size (i + 1))) [
  | inl e ↦
      let same : i + 1 ≡ size = ground arith in
      ap (λ n. n % size) same ∙ mod_self size ∙ ground arith
  | inr n ↦ mod-eq_of_lt (ground arith) ∙ ground arith
]

module _ {ℓ} {A : Type ℓ} where
  abbrev pub gather : (ℕ → A) → ℕ → ℕ → ℕ → List A
  gather a size h zero = []
  gather a size h (suc n) = a h ∷ gather a size (wrap size (h + 1)) n

  pub length-gather : (a : ℕ → A) (size h n : ℕ) → length (gather a size h n) ≡ n
  length-gather a size h zero = refl
  length-gather a size h (suc n) = ap suc (length-gather a size (wrap size (h + 1)) n)

  -- The window is extended at its end.
  pub gather-snoc :
      (a : ℕ → A) (size h n : ℕ)
      → h < size
      → n < size
      → gather a size h (suc n) ≡ gather a size h n ++ (a (wrap size (h + n)) ∷ [])
  gather-snoc a size h zero i l = ap (λ j. a j ∷ []) (ground arith)
  gather-snoc a size h (suc n) i l =
      ap (λ xs. a h ∷ xs)
        (gather-snoc a size (wrap size (h + 1)) n (ground arith) (omega arith)
          ∙ ap (λ j. gather a size (wrap size (h + 1)) n ++ (a j ∷ [])) (ground arith))

  -- Two arrays that differ at most outside the window have the same window.
  pub gather_cong :
      (a b : ℕ → A) (size h n j : ℕ)
      → h < size
      → j < size
      → n ≤ distance size h j
      → ((i : ℕ) → i < size → i ≢ j → a i ≡ b i)
      → gather a size h n ≡ gather b size h n
  gather_cong a b size h zero j i l far same = refl
  gather_cong a b size h (suc n) j i l far same =
      ap₂ ◌∷◌ (same h i (λ e. ground arith))
        (gather_cong a b size (wrap size (h + 1)) n j (ground arith) l (ground arith) same)
