-- ===== src/Vfs/HostVfs.antt =====
-- kernel/core/vfs/vfs.c, the file system over a provider. A true argument `allocated` says that the
-- copy of a text got its memory; the handle of an open file is its path.
use bailey_forbes_flinstone.Base.{
  ℕ, ◌+◌, Bool, false, Option, none, some, List, [], ◌∷◌, ltb, leb, if◌then◌else◌, length,
}
use bailey_forbes_flinstone.Vfs.Provider.{Provider, Node}
use bailey_forbes_flinstone.Vfs.Command.{c_string}

-- The names that fit in the buffer, from the offset on.
unfoldable pub names_from : List Node → ℕ → ℕ → List (List ℕ)
names_from [] off names_len = []
names_from (n ∷ ns) off names_len =
    let with_name = n.name ∷ names_from ns (off + length n.name + 1) names_len in
    let without = names_from ns off names_len in
    if ltb off names_len
    then (if leb (off + length n.name + 1) names_len then with_name else without)
    else []

module _ {S : Type 0} (p : Provider S) where
  unfoldable pub read : List ℕ → ℕ → S → Option (List ℕ) × S
  read path size s = p.read_text path size s

  unfoldable pub write : List ℕ → List ℕ → Bool → S → Bool × S
  unfolding c_string
  write path buf allocated s = if allocated then p.write_text path (c_string buf) s else (false, s)

  -- The names and the count.
  unfoldable pub listed : Option (List Node) × S → ℕ → Option (List (List ℕ) × ℕ) × S
  unfolding names_from
  listed (none, s) names_len = (none, s)
  listed (some nodes, s) names_len = (some (names_from nodes 0 names_len, length nodes), s)

  unfoldable pub list_names : List ℕ → ℕ → S → Option (List (List ℕ) × ℕ) × S
  unfolding listed
  list_names path names_len s = listed (p.list_entries path s) names_len
