-- ===== src/Vfs/Manager.antt =====
-- kernel/core/vfs/fs_facade.c: the file manager. The undo stack is the list of its commands, the last
-- one first; what the handlers of events do is left to `Events.publish`, and the manager keeps the
-- events that it published. A true argument `allocated` says that the command got its memory.
pub mod Store
pub mod Undo
use bailey_forbes_flinstone.Base.{
  ℕ, ◌+◌, ◌-◌, ◌^◌, Bool, true, false, not, Option, none, some, List, [], ◌∷◌, ◌++◌, ◌==◌, ltb,
  if◌then◌else◌, length,
}
use bailey_forbes_flinstone.Vfs.Policy
use bailey_forbes_flinstone.Vfs.Policy.{can_write, can_delete}
use bailey_forbes_flinstone.Vfs.Chain
use bailey_forbes_flinstone.Vfs.Provider.{Provider, Node}
use bailey_forbes_flinstone.Vfs.Events.{
  EventType, file_created, file_deleted, file_saved, dir_created, Event,
}
use bailey_forbes_flinstone.Vfs.Command.{
  Command, kept_path, cmd_create_file, cmd_create_dir, cmd_delete, cmd_move, cmd_write_text,
  execute, undo,
}

-- FS_UNDO_STACK_MAX
abbrev pub undo_stack_max : ℕ
undo_stack_max = 32

-- `check_policy_delete` and `check_policy_write`
pub data Validator : Type 0 where
  check_policy_delete check_policy_write : Validator

-- `file_manager_service_t` with its store; the policy is the list of its protected paths.
pub record Manager (S : Type 0) : Type 0 where
  pub store : S
  pub policy : Option (List (List ℕ))
  pub delete_chain : List Validator
  pub write_chain : List Validator
  pub undo_stack : List Command
  pub events : List Event

-- -1
abbrev denied : ℕ
denied = 2 ^ 32 - 1

unfoldable pub validate : Option (List (List ℕ)) → List ℕ → Validator → ℕ
unfolding can_delete can_write
validate none path v = 0
validate (some ps) path check_policy_delete = if can_delete ps path then 0 else denied
validate (some ps) path check_policy_write = if can_write ps path then 0 else denied

module _ {S : Type 0} where
  unfoldable pub create : S → Manager S
  unfolding Chain.add
  create s = record {
    store = s;
    policy = none;
    delete_chain = Chain.add [] check_policy_delete true;
    write_chain = Chain.add [] check_policy_write true;
    undo_stack = [];
    events = [];
  }

  unfoldable pub push_undo : Manager S → Command → Manager S
  push_undo m cmd =
      if ltb (length m.undo_stack) undo_stack_max
      then record m { undo_stack = cmd ∷ m.undo_stack }
      else m

  unfoldable pub publish : Manager S → EventType → List ℕ → Manager S
  unfolding kept_path
  publish m kind path = record m {
    events = m.events ++ (record { kind = kind; path = kept_path path } ∷ []);
  }

  module _ (p : Provider S) where
    -- A command that was made is run, and kept if it succeeds.
    unfoldable pub run_command : Manager S → Option Command → Bool × Manager S
    unfolding execute push_undo
    run_command m none = (false, m)
    run_command m (some cmd) =
        let (ok, done, s) = execute p cmd m.store in
        let m' = record m { store = s } in if ok then (true, push_undo m' done) else (false, m')

    unfoldable pub save_text : Manager S → List ℕ → List ℕ → Bool → Bool × Manager S
    unfolding publish Chain.run validate run_command cmd_write_text
    save_text m path content allocated =
        let (ok, m') = run_command m (cmd_write_text path content allocated) in
        if not (Chain.run m.write_chain (validate m.policy path) == 0)
        then (false, m)
        else if ok
        then (true, publish m' file_saved path)
        else (false, m')

    unfoldable pub create_file : Manager S → List ℕ → Bool → Bool × Manager S
    unfolding publish run_command cmd_create_file
    create_file m path allocated =
        let (ok, m') = run_command m (cmd_create_file path allocated) in
        if ok then (true, publish m' file_created path) else (false, m')

    unfoldable pub create_dir : Manager S → List ℕ → Bool → Bool × Manager S
    unfolding publish run_command cmd_create_dir
    create_dir m path allocated =
        let (ok, m') = run_command m (cmd_create_dir path allocated) in
        if ok then (true, publish m' dir_created path) else (false, m')

    -- A delete runs its command and does not keep it.
    unfoldable pub run_delete : Manager S → Option Command → Bool × Manager S
    unfolding execute
    run_delete m none = (false, m)
    run_delete m (some cmd) =
        let (ok, done, s) = execute p cmd m.store in (ok, record m { store = s })

    unfoldable pub delete : Manager S → List ℕ → Bool → Bool × Manager S
    unfolding publish Chain.run validate run_delete cmd_delete
    delete m path allocated =
        let (ok, m') = run_delete m (cmd_delete path allocated) in
        if not (Chain.run m.delete_chain (validate m.policy path) == 0)
        then (false, m)
        else if ok
        then (true, publish m' file_deleted path)
        else (false, m')

    unfoldable pub move : Manager S → List ℕ → List ℕ → Bool → Bool × Manager S
    unfolding run_command cmd_move
    move m from to allocated = run_command m (cmd_move from to allocated)

    unfoldable pub undo_last : Manager S → Bool × Manager S
    unfolding undo
    undo_last m = elim m.undo_stack [
      | [] ↦ (false, m)
      | cmd ∷ rest ↦
          let (ok, s) = undo p cmd m.store in (ok, record m { store = s; undo_stack = rest })
    ]

    unfoldable pub list_entries : Manager S → List ℕ → Option (List Node) × Manager S
    list_entries m path = let (r, s) = p.list_entries path m.store in (r, record m { store = s })

    unfoldable pub read_text : Manager S → List ℕ → ℕ → Option (List ℕ) × Manager S
    read_text m path size =
        let (r, s) = p.read_text path size m.store in (r, record m { store = s })

  unfoldable pub undo_available : Manager S → ℕ
  undo_available m = length m.undo_stack
