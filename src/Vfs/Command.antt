-- ===== src/Vfs/Command.antt =====
-- kernel/core/vfs/fs_command.c: the commands with their undo. A text is the list of its bytes without
-- the terminator; an allocation that a command needs for a copy of a text succeeds.
use bailey_forbes_flinstone.Base.{
  ℕ, ◌-◌, Bool, true, false, Option, none, some, List, [], ◌∷◌, ◌==◌, if◌then◌else◌, take,
}
use bailey_forbes_flinstone.Vfs.Provider.{Provider, path_max}

-- CMD_STR_MAX
abbrev pub cmd_str_max : ℕ
cmd_str_max = 4096

-- `cmd_impl_t` and `cmd_write_impl_t` with their tables of functions
pub data Command : Type 0 where
  creates_file creates_dir deletes : List ℕ → Command
  moves : List ℕ → List ℕ → Command
  writes : List ℕ → List ℕ → Option (List ℕ) → Command

-- `strncpy(path, p, FS_PATH_MAX - 1)` into zeroed memory
unfoldable pub kept_path : List ℕ → List ℕ
kept_path p = take (path_max - 1) p

-- The part of a text that C sees as a string.
unfoldable pub c_string : List ℕ → List ℕ
c_string [] = []
c_string (c ∷ cs) = if c == 0 then [] else c ∷ c_string cs

-- `none` where `calloc` returns NULL
unfoldable pub cmd_create_file : List ℕ → Bool → Option Command
unfolding kept_path
cmd_create_file path true = some (creates_file (kept_path path))
cmd_create_file path false = none

unfoldable pub cmd_create_dir : List ℕ → Bool → Option Command
unfolding kept_path
cmd_create_dir path true = some (creates_dir (kept_path path))
cmd_create_dir path false = none

unfoldable pub cmd_delete : List ℕ → Bool → Option Command
unfolding kept_path
cmd_delete path true = some (deletes (kept_path path))
cmd_delete path false = none

unfoldable pub cmd_move : List ℕ → List ℕ → Bool → Option Command
unfolding kept_path
cmd_move from to true = some (moves (kept_path from) (kept_path to))
cmd_move from to false = none

unfoldable pub cmd_write_text : List ℕ → List ℕ → Bool → Option Command
unfolding kept_path
cmd_write_text path content true = some (writes (kept_path path) content none)
cmd_write_text path content false = none

-- `if (n >= 0) c->old_content = strdup(prev);`
abbrev pub saved_content : Option (List ℕ) → Option (List ℕ) → Option (List ℕ)
saved_content none old = old
saved_content (some prev) old = some (c_string prev)

module _ {S : Type 0} (p : Provider S) where
  -- The result, the command after it and the store.
  unfoldable pub execute : Command → S → Bool × Command × S
  unfolding c_string
  execute (creates_file path) s = let (ok, s') = p.create_file path s in (ok, creates_file path, s')
  execute (creates_dir path) s = let (ok, s') = p.create_dir path s in (ok, creates_dir path, s')
  execute (deletes path) s = let (ok, s') = p.delete_path path s in (ok, deletes path, s')
  execute (moves from to) s = let (ok, s') = p.move_path from to s in (ok, moves from to, s')
  execute (writes path new old) s =
      let (prev, s₁) = p.read_text path cmd_str_max s in
      let (ok, s₂) = p.write_text path new s₁ in (ok, writes path new (saved_content prev old), s₂)

  unfoldable pub undo : Command → S → Bool × S
  undo (creates_file path) s = p.delete_path path s
  undo (creates_dir path) s = p.delete_path path s
  undo (deletes path) s = (false, s)
  undo (moves from to) s = p.move_path to from s
  undo (writes path new none) s = (false, s)
  undo (writes path new (some old)) s = p.write_text path old s
