-- ===== src/Vfs/Manager/Store.antt =====
-- What the commands and their undo do to a store.
use bailey_forbes_flinstone.Base.{
  ℕ, ◌-◌, ◌≡◌, ◌≢◌, ◌<◌, ◌∙◌, sym, ap, ap₂, subst, arith, true, Option, none, some, List, length,
  take, take_all,
}
use mathlib.Core.Option.{map}
use bailey_forbes_flinstone.Vfs.Provider.{Provider, path_max}
use bailey_forbes_flinstone.Vfs.Command.{
  Command, creates_file, moves, writes, kept_path, cmd_str_max, c_string, saved_content, execute,
  undo,
}

abbrev Short : List ℕ → Type 0
Short path = length path < path_max

kept_path-Short : (path : List ℕ) → Short path → kept_path path ≡ path
kept_path-Short path l = unfold kept_path in take_all (path_max - 1) path (omega arith)

-- A store whose files have the given contents, `none` for no file: what the calls do that succeed.
-- The files of a host are such a store only where different paths name different files.
pub record IsStore {S : Type 0} (p : Provider S) (contents : S → List ℕ → Option (List ℕ))
    : Type 0 where
  pub read_gives :
      (path : List ℕ) (size : ℕ) (s : S)
      → (p.read_text path size s).0 ≡ map (take (size - 1)) (contents s path)
  pub read_keeps :
      (path : List ℕ) (size : ℕ) (s : S) (q : List ℕ)
      → contents (p.read_text path size s).1 q ≡ contents s q
  pub write_sets :
      (path new : List ℕ) (s : S)
      → (p.write_text path new s).0 ≡ true
      → contents (p.write_text path new s).1 path ≡ some new
  pub write_keeps :
      (path new : List ℕ) (s : S) (q : List ℕ)
      → q ≢ path
      → contents (p.write_text path new s).1 q ≡ contents s q
  pub create_keeps :
      (path : List ℕ) (s : S) (q : List ℕ)
      → q ≢ path
      → contents (p.create_file path s).1 q ≡ contents s q
  pub delete_clears :
      (path : List ℕ) (s : S)
      → (p.delete_path path s).0 ≡ true
      → contents (p.delete_path path s).1 path ≡ none
  pub delete_keeps :
      (path : List ℕ) (s : S) (q : List ℕ)
      → q ≢ path
      → contents (p.delete_path path s).1 q ≡ contents s q
  pub move_moves :
      (from to : List ℕ) (s : S)
      → from ≢ to
      → (p.move_path from to s).0 ≡ true
      → (contents (p.move_path from to s).1 to ≡ contents s from)
        × (contents (p.move_path from to s).1 from ≡ none)
  pub move_keeps :
      (from to : List ℕ) (s : S) (q : List ℕ)
      → q ≢ from
      → q ≢ to
      → contents (p.move_path from to s).1 q ≡ contents s q

-- The calls that can be undone.
pub data Edit : Type 0 where
  saves : List ℕ → List ℕ → Edit
  creates : List ℕ → Edit
  relocates : List ℕ → List ℕ → Edit

-- The command of an edit.
abbrev pub command_of : Edit → Command
command_of (saves path content) = writes (kept_path path) content none
command_of (creates path) = creates_file (kept_path path)
command_of (relocates from to) = moves (kept_path from) (kept_path to)

module _ {S : Type 0} (p : Provider S) (contents : S → List ℕ → Option (List ℕ)) where
  -- A text of at most 4095 bytes without a zero byte is overwritten, or nothing is.
  abbrev pub Undoable : S → Edit → Type 0
  Undoable s (saves path content) =
      Short path
      × ((old : List ℕ) × (contents s path ≡ some old)
          × (length old < cmd_str_max)
          × (c_string old ≡ old))
  Undoable s (creates path) = Short path × (contents s path ≡ none)
  Undoable s (relocates from to) = Short from × Short to × (from ≢ to) × (contents s to ≡ none)

  abbrev pub Same : S → S → List ℕ → Type 0
  Same s s' q = contents s' q ≡ contents s q

  abbrev pub Restored : Edit → S → S → Type 0
  Restored (saves path content) s s' = Same s s' path × ((q : List ℕ) → q ≢ path → Same s s' q)
  Restored (creates path) s s' = Same s s' path × ((q : List ℕ) → q ≢ path → Same s s' q)
  Restored (relocates from to) s s' =
      Same s s' from × Same s s' to × ((q : List ℕ) → q ≢ from → q ≢ to → Same s s' q)

  -- The same command with the whole path.
  abbrev whole_command : Edit → Command
  whole_command (saves path content) = writes path content none
  whole_command (creates path) = creates_file path
  whole_command (relocates from to) = moves from to

  command_of-whole : (s : S) (e : Edit) → Undoable s e → whole_command e ≡ command_of e
  command_of-whole s (saves path content) (short, u) =
      ap (λ (x : List ℕ). writes x content none) (sym (kept_path-Short path short))
  command_of-whole s (creates path) (short, u) = ap creates_file (sym (kept_path-Short path short))
  command_of-whole s (relocates from to) (short, short', ne, u) =
      ap₂ moves (sym (kept_path-Short from short)) (sym (kept_path-Short to short'))

  -- Where a command and its undo succeed, the store is as before.
  abbrev pub Reverts : S → Edit → Command → Type 0
  Reverts s e cmd =
      let done = execute p cmd s in
      done.0 ≡ true → (undo p done.1 done.2).0 ≡ true → Restored e s (undo p done.1 done.2).1

  module _ (laws : IsStore p contents) where
    saves-Reverts :
        (s : S) (path content old : List ℕ)
        → contents s path ≡ some old
        → length old < cmd_str_max
        → c_string old ≡ old
        → Reverts s (saves path content) (writes path content none)
    unfolding execute undo
    saves-Reverts s path content old has fits text = subst After (sym read_all) (λ ok back. (
      subst (λ (x : List ℕ). contents (p.write_text path x written).1 path ≡ contents s path)
          (sym text)
          (laws.write_sets path old written
              (subst (λ (x : List ℕ). (p.write_text path x written).0 ≡ true) text back)
            ∙ sym has),
      λ q ne.
          laws.write_keeps path (c_string old) written q ne
          ∙ laws.write_keeps path content unread q ne
          ∙ laws.read_keeps path cmd_str_max s q,
    ))
      where
        unread : S
        unread = (p.read_text path cmd_str_max s).1

        written : S
        written = (p.write_text path content unread).1

        read_all : (p.read_text path cmd_str_max s).0 ≡ some old
        read_all =
            laws.read_gives path cmd_str_max s
            ∙ ap (map (take (cmd_str_max - 1))) has
            ∙ ap some (take_all (cmd_str_max - 1) old (omega arith))

        After : Option (List ℕ) → Type 0
        After prev =
            (p.write_text path content unread).0 ≡ true
            → (undo p (writes path content (saved_content prev none)) written).0 ≡ true
            → Restored (saves path content) s
                (undo p (writes path content (saved_content prev none)) written).1

    whole-Reverts : (s : S) (e : Edit) → Undoable s e → Reverts s e (whole_command e)
    unfolding execute undo
    whole-Reverts s (saves path content) (short, (old, has, fits, text)) =
        saves-Reverts s path content old has fits text
    whole-Reverts s (creates path) (short, absent) = λ ok back. (
      laws.delete_clears path (p.create_file path s).1 back ∙ sym absent,
      λ q ne. laws.delete_keeps path (p.create_file path s).1 q ne ∙ laws.create_keeps path s q ne,
    )
    whole-Reverts s (relocates from to) (short, short', ne, absent) = λ ok back.
        let s' = (p.move_path from to s).1 in
        let (moved, gone) = laws.move_moves from to s ne ok in
        let (back_again, gone_again) = laws.move_moves to from s' (λ e. ne (sym e)) back in
        (
          back_again ∙ moved,
          gone_again ∙ sym absent,
          λ q a b. laws.move_keeps to from s' q b a ∙ laws.move_keeps from to s q a b,
        )

    pub command_of-Reverts : (s : S) (e : Edit) → Undoable s e → Reverts s e (command_of e)
    command_of-Reverts s e can =
        subst (Reverts s e) (command_of-whole s e can) (whole-Reverts s e can)
