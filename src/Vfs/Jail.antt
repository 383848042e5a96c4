-- ===== src/Vfs/Jail.antt =====
-- kernel/core/vfs/fs_jail.c: which paths lie in the directory that the machine may use. `realpath` of
-- the C library is a parameter, `none` where the path does not exist.
pub mod Check
use bailey_forbes_flinstone.Base.{
  ℕ, zero, suc, ◌+◌, ◌*◌, Bool, true, false, ◌&&◌, not, Option, none, some, List, [], ◌∷◌, ◌++◌,
  ◌==◌, leb, ltb, if◌then◌else◌, length,
}
use bailey_forbes_flinstone.Vfs.Policy.{slash, covers}

-- The size of the buffers, twice JAIL_ROOT_MAX.
abbrev pub buffer_size : ℕ
buffer_size = 2 * 4096

-- The static variables; the root is `[]` where there is none, and has no slash at its end.
pub record Jail : Type 0 where
  pub vm_mode : Bool
  pub root : List ℕ
  pub cwd : List ℕ

unfoldable pub is_active : Jail → Bool
is_active j = j.vm_mode && ltb 0 (length j.root)

-- The end of the root without slashes, but for the first byte.
unfoldable pub trim_root : List ℕ → List ℕ
trim_root [] = []
trim_root (c ∷ cs) = c ∷ trim_rest cs
  where
    trim_rest : List ℕ → List ℕ
    trim_rest [] = []
    trim_rest (d ∷ ds) =
        let rest = trim_rest ds in
        elim rest [ [] ↦ (if d == slash then [] else d ∷ []) | e ∷ es ↦ d ∷ e ∷ es ]

unfoldable pub under_jail : Jail → List ℕ → Bool
unfolding covers
under_jail j canon = covers j.root canon

-- The path from the root of the host; `none` where it does not fit the buffer.
unfoldable pub absolute : Jail → List ℕ → Option (List ℕ)
absolute j [] = none
absolute j (c ∷ cs) =
    if c == slash
    then (if leb buffer_size (length (c ∷ cs)) then none else some (c ∷ cs))
    else if leb buffer_size (length (j.cwd ++ (slash ∷ c ∷ cs)))
    then none
    else some (j.cwd ++ (slash ∷ c ∷ cs))

-- `strrchr(path, '/')`: the path before its last slash, `none` without a slash.
unfoldable pub cut_last : List ℕ → Option (List ℕ)
cut_last [] = none
cut_last (c ∷ cs) = elim (cut_last cs) [
  | some before ↦ some (c ∷ before)
  | none ↦ if c == slash then some [] else none
]

module _ (realpath : List ℕ → Option (List ℕ)) where
  -- The loop for a path that does not exist; `none` means that the fuel ran out.
  unfoldable pub check_above : ℕ → Jail → List ℕ → Option Bool
  unfolding cut_last under_jail
  check_above zero j path = none
  check_above (suc fuel) j path = elim (cut_last path) [
    | none ↦ some false
    | some [] ↦ some false
    | some (c ∷ cs) ↦ elim (realpath (c ∷ cs)) [
      | some canon ↦ some (under_jail j canon)
      | none ↦ check_above fuel j (c ∷ cs)
    ]
  ]

  -- `true` is 0 and `false` is -1; the path is not NULL.
  unfoldable pub check_path : ℕ → Jail → List ℕ → Option Bool
  unfolding is_active absolute check_above under_jail
  check_path fuel j path = if not (is_active j) then some true else (elim (absolute j path) [
    | none ↦ some false
    | some ab ↦ elim (realpath ab) [
      | some canon ↦ some (under_jail j canon)
      | none ↦ check_above fuel j ab
    ]
  ])
