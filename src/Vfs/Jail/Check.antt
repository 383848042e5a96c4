-- ===== src/Vfs/Jail/Check.antt =====
-- Which paths the jail of kernel/core/vfs/fs_jail.c lets through, told by the components of the paths.
use bailey_forbes_flinstone.Base.{
  ℕ, ◌≡◌, ◌⊎◌, Bool, true, false, Option, none, some, List, [], ◌∷◌, ◌++◌,
}
use bailey_forbes_flinstone.Vfs.Policy.{slash}
use bailey_forbes_flinstone.Vfs.Policy.Below.{ArePlain, path_of, IsPrefix}
use bailey_forbes_flinstone.Vfs.Jail.{Jail, under_jail, check_above}

-- The path whose components, from the last one to the first, are given.
abbrev pub path_up : List (List ℕ) → List ℕ
path_up [] = []
path_up (s ∷ ss) = path_up ss ++ (slash ∷ s)

module _ (realpath : List ℕ → Option (List ℕ)) where
  -- The canonical path of a path, or if it does not exist of the nearest directory above it that
  -- does, of those that have a component.
  abbrev pub nearest : List (List ℕ) → Option (List ℕ)
  nearest [] = none
  nearest (s ∷ ss) = elim (realpath (path_up (s ∷ ss))) [
    | some canon ↦ some canon
    | none ↦ nearest ss
  ]

  abbrev verdict : Jail → Option (List ℕ) → Bool
  verdict j none = false
  verdict j (some canon) = under_jail j canon

  abbrev go_on : ℕ → Jail → List ℕ → Option (List ℕ) → Option Bool
  go_on fuel j path (some canon) = some (under_jail j canon)
  go_on fuel j path none = check_above realpath fuel j path

  -- What the jail says to the canonical path of an existing file or directory: the components of the
  -- root are its first ones, or they are not. Without such a path it says no.
  abbrev pub Judged : List (List ℕ) → Option (List ℕ) → Option Bool → Type 0
  Judged root none verdict = verdict ≡ some false
  Judged root (some canon) verdict =
      (cs : List (List ℕ)) × (canon ≡ path_of cs)
      × (((verdict ≡ some true) × IsPrefix root cs)
          ⊎ ((verdict ≡ some false) × (IsPrefix root cs → ⊥)))

  -- `realpath` gives absolute paths, without an end in a slash but for "/", whose one component is
  -- empty.
  abbrev pub GivesAbsolute : Type 0
  GivesAbsolute =
      (path canon : List ℕ)
      → realpath path ≡ some canon
      → (cs : List (List ℕ)) × (canon ≡ path_of cs) × ArePlain cs
