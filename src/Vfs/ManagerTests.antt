-- ===== src/Vfs/ManagerTests.antt =====
-- The file manager on a store in memory, the file system in memory, and the jail.
use bailey_forbes_flinstone.Base.{
  ℕ, ◌-◌, ◌≡◌, ◌≢◌, ◌∙◌, refl, sym, arith, inl, inr, true, Option, none, some, List, [], ◌∷◌,
  if◌then◌else◌, take, Bool-cases,
}
use mathlib.Core.Option.{map}
use bailey_forbes_flinstone.Drivers.{cstr_eq}
use bailey_forbes_flinstone.Drivers.Devfs.Paths.{cstr_eq_sound, cstr_eq_self}
use bailey_forbes_flinstone.Vfs.Provider.{Provider}
use bailey_forbes_flinstone.Vfs.Jail.{Jail, check_path}
use bailey_forbes_flinstone.Vfs.MemoryVfs
use bailey_forbes_flinstone.Vfs.MemoryVfs.{Entry}
use bailey_forbes_flinstone.Vfs.MemoryVfs.RoundTrip.{Wrote, write-Wrote}
use bailey_forbes_flinstone.Vfs.Command.{c_string}
use bailey_forbes_flinstone.Vfs.Manager.{
  Manager, check_policy_write, create_file, save_text, undo_last,
}
use bailey_forbes_flinstone.Vfs.Manager.Store.{IsStore, Edit, saves, Undoable}
use bailey_forbes_flinstone.Vfs.Manager.Undo.{perform}

abbrev texts : List Entry
texts = record { key = 97 ∷ []; val = some (1 ∷ 2 ∷ []) } ∷ []

write-Wrote_example : Wrote texts (98 ∷ []) (3 ∷ []) (MemoryVfs.write texts (98 ∷ []) (3 ∷ []) true)
write-Wrote_example = write-Wrote texts (98 ∷ []) (3 ∷ []) (omega arith)

-- The jail "/j", which exists, and the path "/j/x", which does not.
abbrev jail : Jail
jail = record { vm_mode = true; root = 47 ∷ 106 ∷ []; cwd = 47 ∷ [] }

abbrev resolve : List ℕ → Option (List ℕ)
resolve path = if cstr_eq path (47 ∷ 106 ∷ []) then some (47 ∷ 106 ∷ []) else none

abbrev inside : List ℕ
inside = 47 ∷ 106 ∷ 47 ∷ 120 ∷ []

test-inside : check_path resolve 5 jail inside ≡ some true
unfolding check_path cstr_eq
test-inside = refl

abbrev Files : Type 0
Files = List ℕ → Option (List ℕ)

abbrev set : Files → List ℕ → Option (List ℕ) → Files
set s path v q = if cstr_eq q path then v else s q

-- A store that never fails.
abbrev store : Provider Files
store = record {
  list_entries = λ path s. (some [], s);
  read_text = λ path size s. (map (take (size - 1)) (s path), s);
  write_text = λ path new s. (true, set s path (some new));
  create_file = λ path s. (true, set s path (some []));
  create_dir = λ path s. (true, s);
  delete_path = λ path s. (true, set s path none);
  move_path = λ from to s. (true, set (set s to (s from)) from none);
  get_metadata = λ path s. (none, s);
}

set_self : (s : Files) (path : List ℕ) (v : Option (List ℕ)) → set s path v path ≡ v
set_self s path v = rw (cstr_eq_self path) refl

set_other :
    (s : Files) (path : List ℕ) (v : Option (List ℕ)) (q : List ℕ) → q ≢ path → set s path v q ≡ s q
set_other s path v q ne = elim (Bool-cases (cstr_eq q path)) [
  | inl e ↦ absurd (ne (cstr_eq_sound q path e))
  | inr e ↦ rw e refl
]

abbrev contents : Files → List ℕ → Option (List ℕ)
contents s = s

store-IsStore : IsStore store contents
store-IsStore = record {
  read_gives = λ path size s. refl;
  read_keeps = λ path size s q. refl;
  write_sets = λ path new s ok. set_self s path (some new);
  write_keeps = λ path new s q ne. set_other s path (some new) q ne;
  create_keeps = λ path s q ne. set_other s path (some []) q ne;
  delete_clears = λ path s ok. set_self s path none;
  delete_keeps = λ path s q ne. set_other s path none q ne;
  move_moves = λ from to s ne ok. (
    set_other (set s to (s from)) from none to (λ z. ne (sym z)) ∙ set_self s to (s from),
    set_self (set s to (s from)) from none,
  );
  move_keeps =
      λ from to s q a b. set_other (set s to (s from)) from none q a ∙ set_other s to (s from) q b;
}

-- The file "a" has the text "old".
abbrev path_a : List ℕ
path_a = 97 ∷ []

abbrev old_text : List ℕ
old_text = 111 ∷ 108 ∷ 100 ∷ []

abbrev files : Files
files = set (λ q. none) path_a (some old_text)

abbrev manager : Manager Files
manager = record {
  store = files;
  policy = none;
  delete_chain = [];
  write_chain = check_policy_write ∷ [];
  undo_stack = [];
  events = [];
}

abbrev edit : Edit
edit = saves path_a (110 ∷ [])

text-whole : c_string old_text ≡ old_text
unfolding c_string
text-whole = refl

edit-Undoable : Undoable store contents files edit
edit-Undoable = (
  (omega arith),
  (old_text, set_self (λ q. none) path_a (some old_text), (omega arith), text-whole),
)

saved : (perform store contents manager edit true).0 ≡ true
unfolding save_text
saved = refl

undone : (undo_last store (perform store contents manager edit true).1).0 ≡ true
unfolding save_text undo_last cstr_eq
undone = refl

-- A file that is created over one that exists is empty, and its undo deletes it.
over_existing : Manager Files
over_existing = (create_file store manager path_a true).1

test-create :
    ((over_existing.store path_a ≡ some [])
      × ((undo_last store over_existing).1.store path_a ≡ none))
unfolding create_file undo_last over_existing cstr_eq
test-create = (refl, refl)
