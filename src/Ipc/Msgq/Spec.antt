-- ===== src/Ipc/Msgq/Spec.antt =====
-- What the operations on the message queues of kernel/core/sys/ipc.c promise, and runs of both.
use bailey_forbes_flinstone.Base.{
  ℕ, ◌+◌, ◌-◌, ◌*◌, ◌≡◌, ◌≤◌, ◌<◌, Bool, true, false, Option, none, some, List, [], ◌∷◌, ◌++◌, ◌==◌,
  ltb, leb, if◌then◌else◌, length, take, drop, gather, wrap,
}
use bailey_forbes_flinstone.Vm.Mem.{read_bytes}
use bailey_forbes_flinstone.Ipc.{Build, kernel, hosted, Outcome, failed, waits, done, refuses}
use bailey_forbes_flinstone.Ipc.Msgq.{
  Msgq, block_size, send, receive, resume_receive, finish_destroy, begin_destroy,
}
use bailey_forbes_flinstone.Ipc.Msgq.Slots.{padded}

-- The fields of a queue fit together, and its messages fit the block that was asked for.
pub record IsMsgq (q : Msgq) : Type 0 where
  pub head_inside : q.head < q.max_messages
  pub tail_inside : q.tail < q.max_messages
  pub fits : q.len ≤ q.max_messages
  pub tail_at : q.tail ≡ wrap q.max_messages (q.head + q.len)
  pub block_fits : q.max_messages * q.message_size ≤ block_size q.max_messages q.message_size

abbrev pub slot_of : Msgq → ℕ → List ℕ
slot_of q i = read_bytes q.buf (i * q.message_size) q.message_size

-- The messages that wait, the oldest first.
abbrev pub messages : Msgq → List (List ℕ)
messages q = gather (slot_of q) q.max_messages q.head q.len

-- What a queue promises: a list of at most `capacity` messages, each filled up with zeros.
pub record Spec : Type 0 where
  pub capacity : ℕ
  pub message_size : ℕ
  pub waiting : List (List ℕ)
  pub closing : Bool
  pub waiters : ℕ

abbrev pub abstract_of : Msgq → Spec
abstract_of q = record {
  capacity = q.max_messages;
  message_size = q.message_size;
  waiting = messages q;
  closing = q.closing;
  waiters = q.waiters;
}

abbrev pub abstract_of_live : Option Msgq → Option Spec
abstract_of_live none = none
abstract_of_live (some q) = some (abstract_of q)

-- The calls, and the two wake-ups: of a receiver that waits, with whether its wait ended with an
-- error or at the deadline, and of the caller of `msgq_destroy` that waits for the receivers.
pub data Op : Type 0 where
  send_message : List ℕ → Op
  receive_message : ℕ → ℕ → Op
  wake_receiver : ℕ → Bool → Op
  destroy : Op
  wake_destroyer : Op

-- `nobody` answers a wake-up when no one waits, and `undefined` what is done to a freed queue.
pub data Reply : Type 0 where
  sent : Bool → Reply
  received : Outcome (List ℕ) → Reply
  draining freed nobody undefined : Reply

abbrev pub left : {S : Type 0} → Option S → Reply × Option S
left none = (freed, none)
left (some s) = (draining, some s)

abbrev pub first_or_none : ℕ → List (List ℕ) → List ℕ
first_or_none n [] = []
first_or_none n (m ∷ ms) = take n m

module _ (build : Build) where
  abbrev pub spec_send : Spec → List ℕ → Bool × Spec
  spec_send s msg =
      if length msg == 0
      then (false, s)
      else if ltb s.message_size (length msg)
      then (false, s)
      else if refuses build s.closing
      then (false, s)
      else if leb s.capacity (length s.waiting)
      then (false, s)
      else (true, record s { waiting = s.waiting ++ (padded s.message_size msg ∷ []) })

  abbrev pub spec_on_empty : Build → Spec → ℕ → Outcome (List ℕ) × Spec
  spec_on_empty kernel s timeout = (failed, s)
  spec_on_empty hosted s timeout =
      if timeout == 0
      then (failed, s)
      else if s.closing
      then (failed, s)
      else (waits, record s { waiters = s.waiters + 1 })

  abbrev pub spec_take : Spec → ℕ → ℕ → Outcome (List ℕ) × Spec
  spec_take s size timeout =
      if length s.waiting == 0
      then spec_on_empty build s timeout
      else (done (first_or_none size s.waiting), record s { waiting = drop 1 s.waiting })

  abbrev pub spec_receive : Spec → ℕ → ℕ → Outcome (List ℕ) × Spec
  spec_receive s size timeout =
      if size == 0
      then (failed, s)
      else if refuses build s.closing
      then (failed, s)
      else spec_take s size timeout

  abbrev pub spec_resume : Spec → ℕ → Bool → Outcome (List ℕ) × Spec
  spec_resume s size true = (failed, s)
  spec_resume s size false = spec_take s size 1

  -- A freed queue is `none`; the kernel frees at once, the hosted build when no receiver waits.
  abbrev pub spec_finish : Spec → Option Spec
  spec_finish s = if s.waiters == 0 then none else some s

  abbrev pub spec_destroy : Build → Spec → Option Spec
  spec_destroy kernel s = none
  spec_destroy hosted s = spec_finish (record s { closing = true })

  abbrev pub perform : Op → Msgq → Reply × Option Msgq
  perform (send_message msg) q = let (r, q') = send build q msg in (sent r, some q')
  perform (receive_message size timeout) q =
      let (r, q') = receive build q size timeout in (received r, some q')
  perform (wake_receiver size ended) q =
      let (r, q') = resume_receive build q size ended in
      if q.waiters == 0 then (nobody, some q) else (received r, some q')
  perform destroy q = left (begin_destroy build q)
  perform wake_destroyer q = if q.closing then left (finish_destroy q) else (nobody, some q)

  abbrev pub spec_perform : Op → Spec → Reply × Option Spec
  spec_perform (send_message msg) s = let (r, s') = spec_send s msg in (sent r, some s')
  spec_perform (receive_message size timeout) s =
      let (r, s') = spec_receive s size timeout in (received r, some s')
  spec_perform (wake_receiver size ended) s =
      let (r, s') = spec_resume (record s { waiters = s.waiters - 1 }) size ended in
      if s.waiters == 0 then (nobody, some s) else (received r, some s')
  spec_perform destroy s = left (spec_destroy build s)
  spec_perform wake_destroyer s = if s.closing then left (spec_finish s) else (nobody, some s)

  -- The replies to a sequence of calls and wake-ups.
  abbrev pub run : Option Msgq → List Op → List Reply
  run o [] = []
  run none (op ∷ ops) = undefined ∷ run none ops
  run (some q) (op ∷ ops) = let (r, o) = perform op q in r ∷ run o ops

  abbrev pub spec_run : Option Spec → List Op → List Reply
  spec_run o [] = []
  spec_run none (op ∷ ops) = undefined ∷ spec_run none ops
  spec_run (some s) (op ∷ ops) = let (r, o) = spec_perform op s in r ∷ spec_run o ops
