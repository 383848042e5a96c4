-- ===== src/Ipc/Msgq/Trace.antt =====
-- A message queue against its abstract specification, over every sequence of calls.
use bailey_forbes_flinstone.Base.{
  ℕ, ◌+◌, ◌-◌, ◌*◌, ◌≡◌, ◌∙◌, refl, sym, ap, ap₂, arith, inl, inr, Bool, true, false, Option, none,
  some, List, [], ◌∷◌, ◌==◌, ltb, leb, if◌then◌else◌, length, drop, Bool-cases, length-gather,
}
use bailey_forbes_flinstone.Ipc.{Build, kernel, hosted, done, refuses}
use bailey_forbes_flinstone.Ipc.Msgq.{
  Msgq, store, skip, send, on_empty, receive_locked, receive, resume_receive, finish_destroy,
  begin_destroy,
}
use bailey_forbes_flinstone.Ipc.Msgq.Slots.{read_bytes-take}
use bailey_forbes_flinstone.Ipc.Msgq.Spec.{
  IsMsgq, slot_of, messages, Spec, abstract_of, abstract_of_live, Op, Reply, left, first_or_none,
  spec_send, spec_on_empty, spec_take, spec_receive, spec_resume, spec_finish, spec_destroy,
  perform, spec_perform, run, spec_run, send_message, receive_message, wake_receiver, destroy,
  wake_destroyer, sent, received, nobody, undefined,
}
use bailey_forbes_flinstone.Ipc.Msgq.Ring.{
  store-IsMsgq, skip-IsMsgq, store-messages, first-messages,
}

-- One call: the same reply, a specification that is that of the new queue, and a queue still.
abbrev Agrees : {A : Type 0} → A × Msgq → A × Spec → Type 0
Agrees (r, q') (r', s') = (r ≡ r') × (abstract_of q' ≡ s') × IsMsgq q'

abbrev IsLive : Option Msgq → Type 0
IsLive none = Unit
IsLive (some q) = IsMsgq q

abbrev AgreesLive : Reply × Option Msgq → Reply × Option Spec → Type 0
AgreesLive (r, o) (r', o') = (r ≡ r') × (abstract_of_live o ≡ o') × IsLive o

with_flags-IsMsgq :
    (q : Msgq) (closing : Bool) (waiters : ℕ)
    → IsMsgq q
    → IsMsgq (record q { closing = closing; waiters = waiters })
with_flags-IsMsgq q closing waiters ok = record {
  head_inside = ok.head_inside;
  tail_inside = ok.tail_inside;
  fits = ok.fits;
  tail_at = ok.tail_at;
  block_fits = ok.block_fits;
}

on_empty-Agrees :
    (build : Build) (q : Msgq) (timeout : ℕ)
    → IsMsgq q
    → Agrees (on_empty build q timeout) (spec_on_empty build build (abstract_of q) timeout)
unfolding on_empty
on_empty-Agrees kernel q timeout ok = (refl, refl, ok)
on_empty-Agrees hosted q timeout ok = elim (Bool-cases (timeout == 0)) [
  | inl e ↦ rw e (refl, refl, ok)
  | inr e ↦ elim (Bool-cases q.closing) [
    | inl f ↦ rw (e, f) (refl, refl, with_flags-IsMsgq q true q.waiters ok)
    | inr f ↦ rw (e, f) (refl, refl, with_flags-IsMsgq q false (q.waiters + 1) ok)
  ]
]

module _ (build : Build) (q : Msgq) (ok : IsMsgq q) where
  waiting-len : length (messages q) ≡ q.len
  waiting-len = length-gather (slot_of q) q.max_messages q.head q.len

  abstract-messages :
      (q' : Msgq) (ms : List (List ℕ))
      → q'.max_messages ≡ q.max_messages
      → q'.message_size ≡ q.message_size
      → q'.closing ≡ q.closing
      → q'.waiters ≡ q.waiters
      → messages q' ≡ ms
      → abstract_of q' ≡ record (abstract_of q) { waiting = ms }
  abstract-messages q' ms a b c w d =
      ap₂
        (λ (x y : ℕ). record {
          capacity = x;
          message_size = y;
          waiting = messages q';
          closing = q'.closing;
          waiters = q'.waiters;
        })
        a b
      ∙ ap₂
          (λ (xs : List (List ℕ)) (z : Bool). record {
            capacity = q.max_messages;
            message_size = q.message_size;
            waiting = xs;
            closing = z;
            waiters = q'.waiters;
          })
          d c
      ∙ ap
          (λ (n : ℕ). record {
            capacity = q.max_messages;
            message_size = q.message_size;
            waiting = ms;
            closing = q.closing;
            waiters = n;
          })
          w

  send-Agrees : (msg : List ℕ) → Agrees (send build q msg) (spec_send build (abstract_of q) msg)
  send-Agrees msg =
      let same = waiting-len in
      elim (Bool-cases (length msg == 0)) [
        | inl e ↦ unfold send in rw e (refl, refl, ok)
        | inr e ↦ elim (Bool-cases (ltb q.message_size (length msg))) [
          | inl f ↦ unfold send in rw (e, f) (refl, refl, ok)
          | inr f ↦ elim (Bool-cases (refuses build q.closing)) [
            | inl g ↦ unfold send in rw (e, f, g) (refl, refl, ok)
            | inr g ↦ elim (Bool-cases (leb q.max_messages q.len)) [
              | inl h ↦ unfold send in rw (e, f, g, same, h) (refl, refl, ok)
              | inr h ↦
                  unfold send in
                  rw (e, f, g, same, h)
                    (
                      refl,
                      abstract-messages (store q msg) _ (unfold store in refl)
                          (unfold store in refl) (unfold store in refl) (unfold store in refl)
                          (store-messages q ok msg (ground arith) (ground arith)),
                      store-IsMsgq q ok msg (ground arith),
                    )
            ]
          ]
        ]
      ]

  receive_locked-Agrees :
      (size timeout : ℕ)
      → Agrees (receive_locked build q size timeout) (spec_take build (abstract_of q) size timeout)
  receive_locked-Agrees size timeout =
      let same = waiting-len in
      elim (Bool-cases (q.len == 0)) [
        | inl g ↦ unfold receive_locked in rw (same, g) (on_empty-Agrees build q timeout ok)
        | inr g ↦
            let first : messages q ≡ slot_of q q.head ∷ messages (skip q) =
              first-messages q ok (q.len - 1) (ground arith) in
            unfold receive_locked in
            rw (same, g)
              (
                ap done (
                    read_bytes-take q.buf (q.head * q.message_size) q.message_size size
                    ∙ sym (ap (first_or_none size) first)),
                abstract-messages (skip q) _ (unfold skip in refl) (unfold skip in refl)
                    (unfold skip in refl) (unfold skip in refl) (sym (ap (drop 1) first)),
                skip-IsMsgq q ok (ground arith),
              )
      ]

  receive-Agrees :
      (size timeout : ℕ)
      → Agrees (receive build q size timeout) (spec_receive build (abstract_of q) size timeout)
  receive-Agrees size timeout = elim (Bool-cases (size == 0)) [
    | inl e ↦ unfold receive in rw e (refl, refl, ok)
    | inr e ↦ elim (Bool-cases (refuses build q.closing)) [
      | inl f ↦ unfold receive in rw (e, f) (refl, refl, ok)
      | inr f ↦ unfold receive in rw (e, f) (receive_locked-Agrees size timeout)
    ]
  ]

  finish_destroy-Live :
      AgreesLive (left (finish_destroy q)) (left (spec_finish build (abstract_of q)))
  finish_destroy-Live = elim (Bool-cases (q.waiters == 0)) [
    | inl e ↦ unfold finish_destroy in rw e (refl, refl, tt)
    | inr e ↦ unfold finish_destroy in rw e (refl, refl, ok)
  ]

  destroy-Live :
      AgreesLive (left (begin_destroy build q)) (left (spec_destroy build build (abstract_of q)))
  unfolding begin_destroy
  destroy-Live = by_build build
    where
      closed : IsMsgq (record q { closing = true })
      closed = with_flags-IsMsgq q true q.waiters ok

      by_build :
          (b : Build)
          → AgreesLive (left (begin_destroy b q)) (left (spec_destroy b b (abstract_of q)))
      by_build kernel = (refl, refl, tt)
      by_build hosted = elim (Bool-cases (q.waiters == 0)) [
        | inl e ↦ unfold finish_destroy in rw e (refl, refl, tt)
        | inr e ↦ unfold finish_destroy in rw e (refl, refl, closed)
      ]

module _ (build : Build) (q : Msgq) (ok : IsMsgq q) where
  woken-IsMsgq : IsMsgq (record q { waiters = q.waiters - 1 })
  woken-IsMsgq = with_flags-IsMsgq q q.closing (q.waiters - 1) ok

  resume_receive-Agrees :
      (size : ℕ) (ended : Bool)
      → Agrees
          (resume_receive build q size ended)
          (spec_resume build (record (abstract_of q) { waiters = q.waiters - 1 }) size ended)
  unfolding resume_receive
  resume_receive-Agrees size true = (refl, refl, woken-IsMsgq)
  resume_receive-Agrees size false =
      receive_locked-Agrees build (record q { waiters = q.waiters - 1 }) woken-IsMsgq size 1

  perform-Agrees :
      (op : Op) → AgreesLive (perform build op q) (spec_perform build op (abstract_of q))
  perform-Agrees (send_message msg) =
      let (a, b, c) = send-Agrees build q ok msg in (ap sent a, ap some b, c)
  perform-Agrees (receive_message size timeout) =
      let (a, b, c) = receive-Agrees build q ok size timeout in (ap received a, ap some b, c)
  perform-Agrees (wake_receiver size ended) =
      let (a, b, c) = resume_receive-Agrees size ended in
      elim (Bool-cases (q.waiters == 0)) [
        | inl e ↦ simp (e) (refl, refl, ok)
        | inr e ↦ simp (e) (ap received a, ap some b, c)
      ]
  perform-Agrees destroy = destroy-Live build q ok
  perform-Agrees wake_destroyer = by_closing q.closing
    where
      by_closing :
          (c : Bool)
          → AgreesLive (if c then left (finish_destroy q) else (nobody, some q)) (
              if c
              then left (spec_finish build (abstract_of q))
              else (nobody, some (abstract_of q)))
      by_closing true = finish_destroy-Live build q ok
      by_closing false = (refl, refl, ok)

run_freed : (build : Build) (ops : List Op) → run build none ops ≡ spec_run build none ops
run_freed build [] = refl
run_freed build (op ∷ ops) = ap (λ rs. undefined ∷ rs) (run_freed build ops)

-- Whatever sequence of sends, receives, destroys and wake-ups of waiting receivers and destroyers is
-- made of a message queue whose fields fit together and whose messages fit the block that was asked
-- for, in either build, every call until the queue is freed answers as the specification does:
-- messages come out whole, in the order in which they went in, each filled up with zeros to the
-- message size and cut to the receiver's size, and each refusal, each wait and the release of the
-- queue comes when the specification has it.
pub run-messages :
    (build : Build) (q : Msgq) (ops : List Op)
    → IsMsgq q
    → run build (some q) ops ≡ spec_run build (some (abstract_of q)) ops
run-messages build q [] ok = refl
run-messages build q (op ∷ ops) ok =
    let (same, agrees, live) = perform-Agrees build q ok op in
    ap₂ ◌∷◌ same (
      onward (λ q' h. run-messages build q' ops h) (perform build op q).1 live
      ∙ ap (λ t. spec_run build t ops) agrees)
  where
    onward :
        ((q' : Msgq)
          → IsMsgq q'
          → run build (some q') ops ≡ spec_run build (some (abstract_of q')) ops)
        → (o : Option Msgq) → IsLive o
        → run build o ops ≡ spec_run build (abstract_of_live o) ops
    onward rec none live = run_freed build ops
    onward rec (some q') live = rec q' live
