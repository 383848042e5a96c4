-- ===== src/Vfs/Policy.antt =====
-- kernel/core/vfs/fs_policy.c: paths under which nothing may be written. A C string is the list of its
-- bytes without the terminator; the paths fit in FS_PATH_MAX.
pub mod Prefix
pub mod Below
use bailey_forbes_flinstone.Base.{
  ℕ, zero, suc, ◌+◌, Bool, true, false, ◌&&◌, ◌||◌, not, Option, none, some, List, [], ◌∷◌, ◌++◌,
  ◌==◌, ltb, length, drop, if◌then◌else◌,
}

abbrev pub slash : ℕ
slash = 47

abbrev max_protected : ℕ
max_protected = 16

-- `strncmp(path, p, strlen(p)) == 0`
unfoldable pub starts_with : List ℕ → List ℕ → Bool
starts_with path [] = true
starts_with [] (b ∷ p) = false
starts_with (a ∷ path) (b ∷ p) = a == b && starts_with path p

-- `path[len] == '\0' || path[len] == '/'`
unfoldable pub ends_component : List ℕ → Bool
ends_component [] = true
ends_component (c ∷ cs) = c == slash

-- One round of the loop of `protected_can_write`.
unfoldable pub covers : List ℕ → List ℕ → Bool
unfolding starts_with ends_component
covers p path = starts_with path p && ends_component (drop (length p) path)

unfoldable pub can_write : List (List ℕ) → List ℕ → Bool
unfolding covers
can_write [] path = true
can_write (p ∷ ps) path = if covers p path then false else can_write ps path

unfoldable pub can_delete : List (List ℕ) → List ℕ → Bool
unfolding can_write
can_delete ps path = can_write ps path

unfoldable pub can_read : List (List ℕ) → List ℕ → Bool
unfolding starts_with
can_read [] path = true
can_read (p ∷ ps) path = if starts_with path p then true else can_read ps path

unfoldable pub add : List (List ℕ) → List ℕ → List (List ℕ)
add ps path = if ltb (length ps) max_protected then ps ++ (path ∷ []) else ps
