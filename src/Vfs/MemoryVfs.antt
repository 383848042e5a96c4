-- ===== src/Vfs/MemoryVfs.antt =====
-- kernel/core/vfs/vfs.c, the file system in memory: at most 64 texts by their keys. The handle of an
-- open file is its path; a key is a path without its terminator, and `none` and `false` are -1.
pub mod RoundTrip
use bailey_forbes_flinstone.Base.{
  ℕ, zero, suc, ◌+◌, ◌-◌, min, Bool, true, false, ◌&&◌, Option, none, some, List, [], ◌∷◌, ◌++◌,
  ◌==◌, leb, ltb, if◌then◌else◌, length, take,
}
use bailey_forbes_flinstone.Drivers.{cstr_eq}

-- MEM_VFS_MAX_ENTRIES, and the size of a key with its terminator
abbrev pub max_entries : ℕ
max_entries = 64

abbrev pub key_size : ℕ
key_size = 128

-- `mem_vfs_entry_t`; `none` is a value that is NULL.
pub record Entry : Type 0 where
  pub key : List ℕ
  pub val : Option (List ℕ)

unfoldable pub open_path : List ℕ → Option (List ℕ)
open_path path = some path

unfoldable pub read : List Entry → List ℕ → ℕ → Option (List ℕ)
unfolding cstr_eq
read [] path size = none
read (e ∷ es) path size =
    let later = read es path size in
    if cstr_eq e.key path
    then (elim e.val [ none ↦ later | some v ↦ some (take size v) ])
    else later

-- The loop of `mem_write`; `none` where no key is the path. `allocated` says whether the block for
-- the copy is there.
unfoldable pub overwrite : List Entry → List ℕ → List ℕ → Bool → Option (List Entry)
unfolding cstr_eq
overwrite [] path buf allocated = none
overwrite (e ∷ es) path buf allocated =
    let later = overwrite es path buf allocated in
    if cstr_eq e.key path
    then some (record e { val = if allocated then some buf else none } ∷ es)
    else (elim later [ none ↦ none | some es' ↦ some (e ∷ es') ])

unfoldable pub kept_key : List ℕ → List ℕ
kept_key path = take (key_size - 1) path

unfoldable pub add : List Entry → List ℕ → List ℕ → Bool → Bool × List Entry
unfolding kept_key
add es path buf allocated =
    if leb max_entries (length es)
    then (false, es)
    else if allocated
    then (true, es ++ (record { key = kept_key path; val = some buf } ∷ []))
    else (false, es)

unfoldable pub write : List Entry → List ℕ → List ℕ → Bool → Bool × List Entry
unfolding overwrite add
write es path buf allocated = elim (overwrite es path buf allocated) [
  | none ↦ add es path buf allocated
  | some es' ↦ (allocated, es')
]

-- The keys that fit in the buffer, from the offset on, and the count.
unfoldable pub list_from : List Entry → ℕ → ℕ → List (List ℕ)
list_from [] off names_len = []
list_from (e ∷ es) off names_len =
    let with_key = e.key ∷ list_from es (off + length e.key + 1) names_len in
    let without = list_from es off names_len in
    if ltb off names_len
    then (if leb (off + length e.key + 1) names_len then with_key else without)
    else []

unfoldable pub list_keys : List Entry → ℕ → List (List ℕ) × ℕ
unfolding list_from
list_keys es names_len = (list_from es 0 names_len, length es)
