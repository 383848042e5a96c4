-- ===== src/Base/Arrays.antt =====
-- A C array as the function from its indices to its elements.
use Prim.Native.Nat.{ℕ}
use bailey_forbes_flinstone.Base.Tests.{◌==◌, if◌then◌else◌}

-- `a[i] = v`
abbrev pub update {ℓ} : {A : Type ℓ} → (ℕ → A) → ℕ → A → ℕ → A
update a i v j = if i == j then v else a j
