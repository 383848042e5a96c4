-- ===== src/Vfs/Manager/Undo.antt =====
-- What the undo of the file manager gives back.
use bailey_forbes_flinstone.Base.{
  ℕ, ◌≡◌, ◌<◌, refl, sym, ap, subst, arith, inl, inr, Bool, true, false, not, Option, some, List,
  [], ◌∷◌, ◌==◌, ltb, if◌then◌else◌, length, Bool-cases,
}
use mathlib.Core.Bool.{false≢true}
use bailey_forbes_flinstone.Vfs.Chain
use bailey_forbes_flinstone.Vfs.Provider.{Provider}
use bailey_forbes_flinstone.Vfs.Manager.{publish}
use bailey_forbes_flinstone.Vfs.Events.{EventType, file_saved, file_created}
use bailey_forbes_flinstone.Vfs.Command.{
  Command, moves, kept_path, cmd_create_file, cmd_move, cmd_write_text, execute, undo,
}
use bailey_forbes_flinstone.Vfs.Manager.{
  Manager, undo_stack_max, validate, push_undo, run_command, save_text, create_file, move,
  undo_last,
}
use bailey_forbes_flinstone.Vfs.Manager.Store.{
  IsStore, Edit, saves, creates, relocates, Undoable, Restored, command_of, command_of-Reverts,
}

module _ {S : Type 0} (p : Provider S) (contents : S → List ℕ → Option (List ℕ)) where
  abbrev pub perform : Manager S → Edit → Bool → Bool × Manager S
  perform m (saves path content) allocated = save_text p m path content allocated
  perform m (creates path) allocated = create_file p m path allocated
  perform m (relocates from to) allocated = move p m from to allocated

  -- The command that an edit leaves on the undo stack, and the store.
  Pushed : Manager S → Command → S → Bool × Manager S → Type 0
  Pushed m cmd s (ok, m') = (m'.store ≡ s) × (m'.undo_stack ≡ cmd ∷ m.undo_stack)

  run_command-Pushed :
      (m : Manager S) (cmd : Command)
      → length m.undo_stack < undo_stack_max
      → (run_command p m (some cmd)).0 ≡ true
      → ((execute p cmd m.store).0 ≡ true)
        × Pushed m (execute p cmd m.store).1 (execute p cmd m.store).2 (run_command p m (some cmd))
  unfolding Pushed run_command
  run_command-Pushed m cmd room = elim (Bool-cases (execute p cmd m.store).0) [
    | inr e ↦ rw e (λ ok. absurd (false≢true ok))
    | inl e ↦
        let fits : ltb (length m.undo_stack) undo_stack_max ≡ true = ground arith in
        rw e (λ ok. (refl, unfold push_undo in rw fits (refl, refl)))
  ]

  Pushes : Manager S → Edit → Bool × Manager S → Type 0
  Pushes m e r =
      let done = execute p (command_of e) m.store in (done.0 ≡ true) × Pushed m done.1 done.2 r

  -- A command that was made, whose success is published.
  abbrev then_publish : Bool × Manager S → EventType → List ℕ → Bool × Manager S
  then_publish (ok, m') kind path = if ok then (true, publish m' kind path) else (false, m')

  published-Pushes :
      (m : Manager S) (e : Edit) (kind : EventType) (path : List ℕ)
      → length m.undo_stack < undo_stack_max
      → (then_publish (run_command p m (some (command_of e))) kind path).0 ≡ true
      → Pushes m e (then_publish (run_command p m (some (command_of e))) kind path)
  unfolding Pushes Pushed publish
  published-Pushes m e kind path room =
      elim (Bool-cases (run_command p m (some (command_of e))).0) [
        | inr f ↦ rw f (λ ok. absurd (false≢true ok))
        | inl f ↦ rw f (λ ok. run_command-Pushed m (command_of e) room f)
      ]

  saves-Pushes :
      (m : Manager S) (path content : List ℕ) (allocated : Bool)
      → length m.undo_stack < undo_stack_max
      → (save_text p m path content allocated).0 ≡ true
      → Pushes m (saves path content) (save_text p m path content allocated)
  unfolding Pushes Pushed save_text cmd_write_text run_command
  saves-Pushes m path content false room =
      elim (Bool-cases (not (Chain.run m.write_chain (validate m.policy path) == 0))) [
        | inl e ↦ rw e (λ ok. absurd (false≢true ok))
        | inr e ↦ rw e (λ ok. absurd (false≢true ok))
      ]
  saves-Pushes m path content true room =
      elim (Bool-cases (not (Chain.run m.write_chain (validate m.policy path) == 0))) [
        | inl e ↦ rw e (λ ok. absurd (false≢true ok))
        | inr e ↦ rw e (published-Pushes m (saves path content) file_saved path room)
      ]

  creates-Pushes :
      (m : Manager S) (path : List ℕ) (allocated : Bool)
      → length m.undo_stack < undo_stack_max
      → (create_file p m path allocated).0 ≡ true
      → Pushes m (creates path) (create_file p m path allocated)
  unfolding Pushes Pushed create_file cmd_create_file run_command
  creates-Pushes m path false room = λ ok. absurd (false≢true ok)
  creates-Pushes m path true room = published-Pushes m (creates path) file_created path room

  relocates-Pushes :
      (m : Manager S) (from to : List ℕ) (allocated : Bool)
      → length m.undo_stack < undo_stack_max
      → (move p m from to allocated).0 ≡ true
      → Pushes m (relocates from to) (move p m from to allocated)
  unfolding Pushes Pushed move cmd_move run_command
  relocates-Pushes m from to false room = λ ok. absurd (false≢true ok)
  relocates-Pushes m from to true room =
      run_command-Pushed m (moves (kept_path from) (kept_path to)) room

  perform-Pushes :
      (m : Manager S) (e : Edit) (allocated : Bool)
      → length m.undo_stack < undo_stack_max
      → (perform m e allocated).0 ≡ true
      → Pushes m e (perform m e allocated)
  perform-Pushes m (saves path content) allocated room = saves-Pushes m path content allocated room
  perform-Pushes m (creates path) allocated room = creates-Pushes m path allocated room
  perform-Pushes m (relocates from to) allocated room = relocates-Pushes m from to allocated room

  -- What an undo of the command on top does.
  undo_last-eq :
      (m : Manager S) (cmd : Command) (rest : List Command)
      → m.undo_stack ≡ cmd ∷ rest
      → undo_last p m
        ≡ ((undo p cmd m.store).0, record m { store = (undo p cmd m.store).1; undo_stack = rest })
  undo_last-eq m cmd rest e =
      unfold undo_last in
      ap
        (λ (cs : List Command). elim cs as (λ _. Bool × Manager S) [
          | [] ↦ (false, m)
          | c ∷ cs' ↦
              let (ok, s) = undo p c m.store in (ok, record m { store = s; undo_stack = cs' })
        ])
        e

  module _ (laws : IsStore p contents) where
    -- If the undo stack has room, the store does what it says, and neither call fails, then `fm_undo`
    -- after `fm_save_text` over a text of at most 4095 bytes without a zero byte, `fm_create_file`
    -- at a path without a file, or `fm_move` to such a path, with paths of at most 255 bytes, gives
    -- every file its contents from before and leaves the undo stack as it was.
    pub undo_last-perform :
        (m : Manager S) (e : Edit) (allocated : Bool)
        → length m.undo_stack < undo_stack_max
        → Undoable p contents m.store e
        → let (ok, m') = perform m e allocated in
          let (undone, m'') = undo_last p m' in
          ok ≡ true
          → undone ≡ true
          → Restored p contents e m.store m''.store × (m''.undo_stack ≡ m.undo_stack)
    unfolding Pushes Pushed
    undo_last-perform m e allocated room can ok back =
        let (ran, (store, stack)) = perform-Pushes m e allocated room ok in
        let reverts = command_of-Reverts p contents laws m.store e can ran in
        let at_store = subst AfterUndo (sym store) reverts in
        subst Result (sym (undo_last-eq after done.1 m.undo_stack stack)) (λ b. (at_store b, refl))
          back
      where
        after : Manager S
        after = (perform m e allocated).1

        done : Bool × Command × S
        done = execute p (command_of e) m.store

        AfterUndo : S → Type 0
        AfterUndo s = (undo p done.1 s).0 ≡ true → Restored p contents e m.store (undo p done.1 s).1

        Result : Bool × Manager S → Type 0
        Result (undone, m'') =
            undone ≡ true
            → Restored p contents e m.store m''.store × (m''.undo_stack ≡ m.undo_stack)
