-- ===== src/Sys/Syscall/Closed.antt =====
-- Handles that are closed, or of the wrong kind.
use bailey_forbes_flinstone.Base.{ℕ, ◌≡◌, ◌≢◌, ◌⊎◌, Bool, true, false, Option, none, some, List}
use bailey_forbes_flinstone.Ipc.{Build, kernel, hosted, failed, waits, done}
use bailey_forbes_flinstone.Ipc.Pipe
use bailey_forbes_flinstone.Ipc.Msgq
use bailey_forbes_flinstone.Sys.Vrt.{Vrt, Kind, pipe, msgq, Entry, free}
use bailey_forbes_flinstone.Sys.Syscall.{
  Call, pipe_read, pipe_write, msgq_send, msgq_recv, close, Kernel, Outside, dispatch, Result,
}

-- The calls that take a handle.
pub data OfHandle : Call → Type 0 where
  reads : OfHandle pipe_read
  writes : OfHandle pipe_write
  sends : OfHandle msgq_send
  receives : OfHandle msgq_recv
  closes : OfHandle close

-- The kernel with a handle freed.
abbrev pub freed : Kernel → ℕ → Kernel
freed k h = record k { vrt = free k.vrt h }

-- Every call on the handle is refused and changes nothing.
abbrev pub Refuses : Build → Outside → Kernel → (ℕ → ℕ) → ℕ → Type 0
Refuses build outside k mem h =
    (c : Call)
    → OfHandle c
    → (a1 a2 a3 : ℕ) → dispatch build outside k mem c h a1 a2 a3 ≡ (failed, k, mem)

-- What can be closed, and how many callers wait for it.
abbrev pub closable : Kind → Bool
closable pipe = true
closable msgq = true
closable _ = false

abbrev pub waiting : Kernel → Kind → ℕ → ℕ
waiting k pipe a = (k.pipes a).waiters
waiting k msgq a = (k.msgqs a).waiters
waiting k _ a = 0

-- Whether a destroy has to wait: only the hosted build does, while someone waits.
abbrev pub Waits : Build → Kernel → Entry → Type 0
Waits kernel k e = ⊥
Waits hosted k e = waiting k e.kind e.resource ≢ 0

abbrev pub Refused : Kernel → (ℕ → ℕ) → Result → Type 0
Refused k mem r = r ≡ (failed, k, mem)

-- The call waits, and the table is as it was.
abbrev pub Blocked : Kernel → (ℕ → ℕ) → Result → Type 0
Blocked k mem r = (k' : Kernel) × (r ≡ (waits, k', mem)) × (k'.vrt ≡ k.vrt)

abbrev pub Freed : Kernel → (ℕ → ℕ) → ℕ → Result → Type 0
Freed k mem h r = r ≡ (done 0, freed k h, mem)

-- The end of a close of an entry.
abbrev pub Ends : Build → Kernel → (ℕ → ℕ) → ℕ → Entry → Result → Type 0
Ends build k mem h e r =
    ((closable e.kind ≡ false) × Refused k mem r)
    ⊎ ((closable e.kind ≡ true)
        × ((Waits build k e × Blocked k mem r) ⊎ ((Waits build k e → ⊥) × Freed k mem h r)))

module _ (outside : Outside) (k : Kernel) (mem : ℕ → ℕ) (h : ℕ) (path : List ℕ) (size a : ℕ) where
  abbrev entry_of : Kind → Entry
  entry_of kind = record { kind = kind; resource = a; path = path; size = size }

-- The end of a close of a handle, from what the table has for it.
abbrev pub Closes : Build → Kernel → (ℕ → ℕ) → ℕ → Option Entry → Result → Type 0
Closes build k mem h none r = Refused k mem r
Closes build k mem h (some e) r = Ends build k mem h e r
