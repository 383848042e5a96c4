-- ===== src/Ipc/Pipe/Trace.antt =====
-- A pipe against its abstract specification, over every sequence of calls.
use bailey_forbes_flinstone.Base.{
  ℕ, ◌+◌, ◌-◌, ◌≡◌, ◌<◌, ◌⊎◌, ◌∙◌, refl, ap, ap₂, arith, inl, inr, Bool, true, false, Option, none,
  some, List, [], ◌∷◌, ◌==◌, if◌then◌else◌, length, Bool-cases,
}
use bailey_forbes_flinstone.Ipc.{Build, kernel, hosted, Outcome, done, refuses}
use bailey_forbes_flinstone.Ipc.Pipe.{
  Pipe, create, write, on_empty, read_locked, read, resume_read, finish_destroy, begin_destroy,
}
use bailey_forbes_flinstone.Ipc.Pipe.Fifo.{
  IsPipe, length-contents, Becomes, write_loop-Wrote, read_loop-Got,
}
use bailey_forbes_flinstone.Ipc.Pipe.Spec.{
  Spec, abstract_of, abstract_of_live, Op, Reply, left, spec_write, spec_on_empty, spec_take,
  spec_finish, spec_destroy, perform, spec_perform, run, spec_run, write_bytes, read_bytes,
  wake_reader, destroy, wake_destroyer, wrote, got, nobody, undefined,
}

abstract-Becomes :
    (p p' : Pipe) (xs : List ℕ)
    → Becomes p p' xs
    → abstract_of p' ≡ record (abstract_of p) { bytes = xs }
abstract-Becomes p p' xs b =
    ap₂
      (λ (n : ℕ) (ys : List ℕ). record {
        size = n;
        bytes = ys;
        closing = p'.closing;
        waiters = p'.waiters;
      })
      b.size_kept b.holds
    ∙ ap₂ (λ (c : Bool) (w : ℕ). record { size = p.size; bytes = xs; closing = c; waiters = w })
        b.closing_kept b.waiters_kept

-- One call: the same reply, a specification that is that of the new pipe, and a pipe still.
abbrev Agrees : {A : Type 0} → Outcome A × Pipe → Outcome A × Spec → Type 0
Agrees (r, p') (r', s') = (r ≡ r') × (abstract_of p' ≡ s') × IsPipe p'

abbrev IsLive : Option Pipe → Type 0
IsLive none = Unit
IsLive (some p) = IsPipe p

abbrev AgreesLive : Reply × Option Pipe → Reply × Option Spec → Type 0
AgreesLive (r, o) (r', o') = (r ≡ r') × (abstract_of_live o ≡ o') × IsLive o

with_flags-IsPipe :
    (p : Pipe) (closing : Bool) (waiters : ℕ)
    → IsPipe p
    → IsPipe (record p { closing = closing; waiters = waiters })
with_flags-IsPipe p closing waiters ok = record {
  head_inside = ok.head_inside;
  tail_inside = ok.tail_inside;
  fits = ok.fits;
  tail_at = ok.tail_at;
}

on_empty-Agrees :
    (build : Build) (p : Pipe)
    → IsPipe p
    → Agrees (on_empty build p) (spec_on_empty build build (abstract_of p))
unfolding on_empty
on_empty-Agrees kernel p ok = (refl, refl, ok)
on_empty-Agrees hosted p ok = elim (Bool-cases p.closing) [
  | inl e ↦ rw e (refl, refl, with_flags-IsPipe p true p.waiters ok)
  | inr e ↦ rw e (refl, refl, with_flags-IsPipe p false (p.waiters + 1) ok)
]

module _ (build : Build) (p : Pipe) (ok : IsPipe p) where
  write-Agrees : (bs : List ℕ) → Agrees (write build p bs) (spec_write build (abstract_of p) bs)
  unfolding write
  write-Agrees bs =
      let (count, became) = write_loop-Wrote p bs ok in
      let same = length-contents p in
      elim (Bool-cases (length bs == 0)) [
        | inl e ↦ rw e (refl, refl, ok)
        | inr e ↦ elim (Bool-cases (refuses build p.closing)) [
          | inl f ↦ rw (e, f) (refl, refl, ok)
          | inr f ↦ rw (e, f, same) (ap done count, abstract-Becomes p _ _ became, became.sound)
        ]
      ]

  read_locked-Agrees : (n : ℕ) → Agrees (read_locked build p n) (spec_take build (abstract_of p) n)
  read_locked-Agrees n =
      let (bytes, became) = read_loop-Got p n ok in
      let same = length-contents p in
      elim (Bool-cases (p.len == 0)) [
        | inl f ↦ unfold read_locked in rw (same, f) (on_empty-Agrees build p ok)
        | inr f ↦
            unfold read_locked in
            rw (same, f) (ap done bytes, abstract-Becomes p _ _ became, became.sound)
      ]

  finish_destroy-Live :
      AgreesLive (left (finish_destroy p)) (left (spec_finish build (abstract_of p)))
  finish_destroy-Live = elim (Bool-cases (p.waiters == 0)) [
    | inl e ↦ unfold finish_destroy in rw e (refl, refl, tt)
    | inr e ↦ unfold finish_destroy in rw e (refl, refl, ok)
  ]

  destroy-Live :
      AgreesLive (left (begin_destroy build p)) (left (spec_destroy build build (abstract_of p)))
  unfolding begin_destroy
  destroy-Live = by_build build
    where
      closed : IsPipe (record p { closing = true })
      closed = with_flags-IsPipe p true p.waiters ok

      by_build :
          (b : Build)
          → AgreesLive (left (begin_destroy b p)) (left (spec_destroy b b (abstract_of p)))
      by_build kernel = (refl, refl, tt)
      by_build hosted = elim (Bool-cases (p.waiters == 0)) [
        | inl e ↦ unfold finish_destroy in rw e (refl, refl, tt)
        | inr e ↦ unfold finish_destroy in rw e (refl, refl, closed)
      ]

module _ (build : Build) (p : Pipe) (ok : IsPipe p) where
  perform-Agrees :
      (op : Op) → AgreesLive (perform build op p) (spec_perform build op (abstract_of p))
  perform-Agrees (write_bytes bs) =
      let (a, b, c) = write-Agrees build p ok bs in (ap wrote a, ap some b, c)
  perform-Agrees (read_bytes n) =
      let (a, b, c) = read_locked-Agrees build p ok n in
      elim (Bool-cases (n == 0)) [
        | inl e ↦ unfold read in rw e (refl, refl, ok)
        | inr e ↦ unfold read in rw e (ap got a, ap some b, c)
      ]
  perform-Agrees (wake_reader n) =
      let woken : IsPipe (record p { waiters = p.waiters - 1 }) =
        with_flags-IsPipe p p.closing (p.waiters - 1) ok in
      let (a, b, c) = read_locked-Agrees build (record p { waiters = p.waiters - 1 }) woken n in
      elim (Bool-cases (p.waiters == 0)) [
        | inl e ↦ simp (e) (refl, refl, ok)
        | inr e ↦ unfold resume_read in simp (e) (ap got a, ap some b, c)
      ]
  perform-Agrees destroy = destroy-Live build p ok
  perform-Agrees wake_destroyer = by_closing p.closing
    where
      by_closing :
          (c : Bool)
          → AgreesLive (if c then left (finish_destroy p) else (nobody, some p)) (
              if c
              then left (spec_finish build (abstract_of p))
              else (nobody, some (abstract_of p)))
      by_closing true = finish_destroy-Live build p ok
      by_closing false = (refl, refl, ok)

run_freed : (build : Build) (ops : List Op) → run build none ops ≡ spec_run build none ops
run_freed build [] = refl
run_freed build (op ∷ ops) = ap (λ rs. undefined ∷ rs) (run_freed build ops)

-- Whatever sequence of writes, reads, destroys and wake-ups of waiting readers and destroyers is
-- made of a pipe whose fields fit together, in either build, every call until the pipe is freed
-- answers as the specification does: a write takes exactly the bytes for which there is room, a
-- read gives the oldest bytes in their order, no byte is lost, made up or given twice, and each
-- refusal, each wait and the release of the pipe comes when the specification has it.
pub run-spec_run :
    (build : Build) (p : Pipe) (ops : List Op)
    → IsPipe p
    → run build (some p) ops ≡ spec_run build (some (abstract_of p)) ops
run-spec_run build p [] ok = refl
run-spec_run build p (op ∷ ops) ok =
    let (same, agrees, live) = perform-Agrees build p ok op in
    ap₂ ◌∷◌ same (
      onward (λ p' h. run-spec_run build p' ops h) (perform build op p).1 live
      ∙ ap (λ t. spec_run build t ops) agrees)
  where
    onward :
        ((p' : Pipe)
          → IsPipe p'
          → run build (some p') ops ≡ spec_run build (some (abstract_of p')) ops)
        → (o : Option Pipe) → IsLive o
        → run build o ops ≡ spec_run build (abstract_of_live o) ops
    onward rec none live = run_freed build ops
    onward rec (some p') live = rec p' live

-- What `pipe_create` returns: NULL for no reason but these two, or a pipe on which every sequence of
-- calls is answered as by an empty list with room for `size` bytes.
abbrev pub Creates : Build → List Op → Option (ℕ → ℕ) → ℕ → Option Pipe → Type 0
Creates build ops block size none = (size ≡ 0) ⊎ (block ≡ none)
Creates build ops block size (some p) =
    (0 < size)
    × (run build (some p) ops
        ≡ spec_run build (some (record { size = size; bytes = []; closing = false; waiters = 0 }))
            ops)

-- `pipe_create` returns NULL only for the size 0 or when `malloc` fails, and otherwise a pipe on
-- which, in either build, every sequence of calls and wake-ups is answered as by the specification
-- that starts empty and open, with room for `size` bytes and no one waiting.
pub create-Creates :
    (build : Build) (ops : List Op) (block : Option (ℕ → ℕ)) (size : ℕ)
    → Creates build ops block size (create block size)
unfolding create
create-Creates build ops none size = inr refl
create-Creates build ops (some buf) size = elim (Bool-cases (size == 0)) [
  | inl e ↦ rw e (inl (ground arith))
  | inr e ↦
      rw e ((ground arith), run-spec_run build (fresh size buf) ops (fresh-IsPipe (ground arith)))
]
  where
    fresh : ℕ → (ℕ → ℕ) → Pipe
    fresh n b = record {
      buf = b;
      size = n;
      head = 0;
      tail = 0;
      len = 0;
      closing = false;
      waiters = 0;
    }

    fresh-IsPipe : 0 < size → IsPipe (fresh size buf)
    fresh-IsPipe h = record {
      head_inside = h;
      tail_inside = h;
      fits = omega arith;
      tail_at = ground arith;
    }
