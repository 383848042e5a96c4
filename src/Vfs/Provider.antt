-- ===== src/Vfs/Provider.antt =====
-- kernel/core/vfs/fs_provider.c: what a store of files offers, the wrappers of its table of functions,
-- and the provider in memory. The provider on the host's files is a parameter. A file is its path; a
-- store has the state `S`; `none` and `false` are -1.
use bailey_forbes_flinstone.Base.{ℕ, Bool, false, Option, none, some, List, []}

-- FS_PATH_MAX
abbrev pub path_max : ℕ
path_max = 256

-- `fs_node_t`
pub record Node : Type 0 where
  pub name : List ℕ
  pub path : List ℕ
  pub is_dir : Bool
  pub size : ℕ

-- `fs_provider_vtable_t`; a text that is read has fewer bytes than the size that is given.
pub record Provider (S : Type 0) : Type 0 where
  pub list_entries : List ℕ → S → Option (List Node) × S
  pub read_text : List ℕ → ℕ → S → Option (List ℕ) × S
  pub write_text : List ℕ → List ℕ → S → Bool × S
  pub create_file : List ℕ → S → Bool × S
  pub create_dir : List ℕ → S → Bool × S
  pub delete_path : List ℕ → S → Bool × S
  pub move_path : List ℕ → List ℕ → S → Bool × S
  pub get_metadata : List ℕ → S → Option Node × S

-- `fs_memory_provider_create`
unfoldable pub memory_provider : {S : Type 0} → Provider S
memory_provider = record {
  list_entries = λ path s. (some [], s);
  read_text = λ path size s. (none, s);
  write_text = λ path content s. (false, s);
  create_file = λ path s. (false, s);
  create_dir = λ path s. (false, s);
  delete_path = λ path s. (false, s);
  move_path = λ from to s. (false, s);
  get_metadata = λ path s. (none, s);
}
