-- ===== src/Vfs/Events.antt =====
-- kernel/core/vfs/fs_events.c: who hears of a change to the files. A handler acts on a state `W`.
use bailey_forbes_flinstone.Base.{ℕ, List, [], ◌∷◌, ◌++◌, ◌==◌, leb, if◌then◌else◌, length}

-- MAX_HANDLERS
abbrev pub max_handlers : ℕ
max_handlers = 16

-- `fs_event_type_t`
pub data EventType : Type 0 where
  file_created file_deleted file_saved dir_created dir_deleted dir_changed : EventType

abbrev pub type_number : EventType → ℕ
type_number file_created = 0
type_number file_deleted = 1
type_number file_saved = 2
type_number dir_created = 3
type_number dir_deleted = 4
type_number dir_changed = 5

-- `fs_event_t`
pub record Event : Type 0 where
  pub kind : EventType
  pub path : List ℕ

-- `handler_entry_t`
pub record Handler (W : Type 0) : Type 0 where
  pub kind : EventType
  pub handle : Event → W → W

module _ {W : Type 0} where
  unfoldable pub subscribe : List (Handler W) → EventType → (Event → W → W) → List (Handler W)
  subscribe hs kind handle =
      if leb max_handlers (length hs)
      then hs
      else hs ++ (record { kind = kind; handle = handle } ∷ [])

  unfoldable pub publish : List (Handler W) → Event → W → W
  publish [] ev w = w
  publish (h ∷ hs) ev w =
      if type_number h.kind == type_number ev.kind
      then publish hs ev (h.handle ev w)
      else publish hs ev w
