-- ===== src/Vm/Host/Keyboard.antt =====
-- The queue of scancodes is a first-in first-out list of at most 31 of them.
use bailey_forbes_flinstone.Base.{
  ℕ, suc, ◌+◌, ◌-◌, ◌%◌, ◌≡◌, ◌<◌, ◌∙◌, refl, sym, ap, ap₂, arith, inl, inr, Bool, true, false,
  Option, none, some, List, [], ◌∷◌, ◌++◌, ◌==◌, leb, if◌then◌else◌, length, Bool-cases, gather,
  wrap, gather-snoc, gather_cong, length-gather, distance, mod-wrap, update,
}
use bailey_forbes_flinstone.Vm.Host.{Host, kbd_push, kbd_pop, kbd_queue_size}

-- The indices lie in the array.
abbrev pub IsKbd : Host → Type 0
IsKbd host = (host.kbd_head < kbd_queue_size) × (host.kbd_tail < kbd_queue_size)

-- The scancodes that wait, the oldest first.
abbrev pub scancodes : Host → List ℕ
scancodes host =
    gather host.kbd_queue kbd_queue_size host.kbd_head
      (distance kbd_queue_size host.kbd_head host.kbd_tail)

pub data Op : Type 0 where
  key : ℕ → Op
  poll : Op

pub data Reply : Type 0 where
  pushed : Bool → Reply
  popped : Option ℕ → Reply

abbrev pub perform : Op → Host → Reply × Host
perform (key c) host = let (ok, host') = kbd_push host c in (pushed ok, host')
perform poll host = let (o, host') = kbd_pop host in (popped o, host')

-- The same on a list.
abbrev pub spec_poll : List ℕ → Option ℕ × List ℕ
spec_poll [] = (none, [])
spec_poll (c ∷ cs) = (some c, cs)

abbrev pub spec_perform : Op → List ℕ → Reply × List ℕ
spec_perform (key c) cs =
    if leb 31 (length cs) then (pushed false, cs) else (pushed true, cs ++ (c ∷ []))
spec_perform poll cs = let (o, cs') = spec_poll cs in (popped o, cs')

-- The replies to a sequence of calls.
abbrev pub run : Host → List Op → List Reply
run host [] = []
run host (op ∷ ops) = let (r, host') = perform op host in r ∷ run host' ops

abbrev pub spec_run : List ℕ → List Op → List Reply
spec_run cs [] = []
spec_run cs (op ∷ ops) = let (r, cs') = spec_perform op cs in r ∷ spec_run cs' ops

module _ (host : Host) (ok : IsKbd host) where
  abbrev n : ℕ
  n = distance kbd_queue_size host.kbd_head host.kbd_tail

  next-tail : (host.kbd_tail + 1) % kbd_queue_size ≡ wrap kbd_queue_size (host.kbd_tail + 1)
  next-tail = mod-wrap kbd_queue_size host.kbd_tail ok.1

  next-head : (host.kbd_head + 1) % kbd_queue_size ≡ wrap kbd_queue_size (host.kbd_head + 1)
  next-head = mod-wrap kbd_queue_size host.kbd_head ok.0

  length-scancodes : length (scancodes host) ≡ n
  length-scancodes = length-gather host.kbd_queue kbd_queue_size host.kbd_head n

  abbrev Agrees : Reply × Host → Reply × List ℕ → Type 0
  Agrees (r, host') (r', cs) = (r ≡ r') × (scancodes host' ≡ cs) × IsKbd host'

  push-Agrees : (c : ℕ) → Agrees (perform (key c) host) (spec_perform (key c) (scancodes host))
  push-Agrees c = elim (Bool-cases (leb 31 n)) [
    | inl full ↦
        let stop : ((host.kbd_tail + 1) % kbd_queue_size == host.kbd_head) ≡ true =
          rw next-tail (ground arith) in
        unfold kbd_push in rw (stop, length-scancodes, full) (refl, refl, ok)
    | inr room ↦
        let go : ((host.kbd_tail + 1) % kbd_queue_size == host.kbd_head) ≡ false =
          rw next-tail (ground arith) in
        let more : distance kbd_queue_size host.kbd_head ((host.kbd_tail + 1) % kbd_queue_size)
            ≡ suc n =
          rw next-tail (ground arith) in
        let at_tail : wrap kbd_queue_size (host.kbd_head + n) ≡ host.kbd_tail = ground arith in
        let queue = update host.kbd_queue host.kbd_tail c in
        unfold kbd_push in
        rw (go, length-scancodes, room)
          (
            refl,
            ap (gather queue kbd_queue_size host.kbd_head) more
                ∙ gather-snoc queue kbd_queue_size host.kbd_head n ok.0 (ground arith)
                ∙ ap₂ ◌++◌
                    (sym (
                      gather_cong host.kbd_queue queue kbd_queue_size host.kbd_head n host.kbd_tail
                        ok.0 ok.1 (omega arith) (λ i h ne. ground arith)))
                    (ap (λ x. x ∷ []) (ap queue at_tail ∙ ground arith)),
            (ok.0, (omega arith)),
          )
  ]

  pop-Agrees : Agrees (perform poll host) (spec_perform poll (scancodes host))
  pop-Agrees = elim (Bool-cases (host.kbd_head == host.kbd_tail)) [
    | inl e ↦
        let empty : n ≡ 0 = ground arith in
        let no_codes : scancodes host ≡ [] =
          ap (gather host.kbd_queue kbd_queue_size host.kbd_head) empty in
        unfold kbd_pop in
        rw e (
          ap (λ cs. popped (spec_poll cs).0) (sym no_codes),
          no_codes ∙ ap (λ cs. (spec_poll cs).1) (sym no_codes),
          ok,
        )
    | inr e ↦
        let some_left : n ≡ suc (n - 1) = ground arith in
        let fewer : n - 1
            ≡ distance kbd_queue_size ((host.kbd_head + 1) % kbd_queue_size) host.kbd_tail =
          rw next-head (ground arith) in
        let first : scancodes host
            ≡ host.kbd_queue host.kbd_head
              ∷ gather host.kbd_queue kbd_queue_size ((host.kbd_head + 1) % kbd_queue_size)
                  (distance kbd_queue_size ((host.kbd_head + 1) % kbd_queue_size) host.kbd_tail) =
          ap (gather host.kbd_queue kbd_queue_size host.kbd_head) some_left
          ∙ ap (λ xs. host.kbd_queue host.kbd_head ∷ xs)
              (ap₂ (gather host.kbd_queue kbd_queue_size) (sym next-head) fewer) in
        unfold kbd_pop in
        rw e (
          ap (λ cs. popped (spec_poll cs).0) (sym first),
          ap (λ cs. (spec_poll cs).1) (sym first),
          ((omega arith), ok.1),
        )
  ]

  perform-Agrees : (op : Op) → Agrees (perform op host) (spec_perform op (scancodes host))
  perform-Agrees (key c) = push-Agrees c
  perform-Agrees poll = pop-Agrees

-- Whatever sequence of `vm_host_kbd_push` and `vm_host_kbd_pop` is made of a host whose indices lie
-- in the array, the scancodes come out in the order in which they went in, none lost or repeated;
-- a push fails exactly when 31 scancodes wait, one less than the array has places, and a pop fails
-- exactly when none waits.
pub run-scancodes :
    (host : Host) (ops : List Op) → IsKbd host → run host ops ≡ spec_run (scancodes host) ops
run-scancodes host [] ok = refl
run-scancodes host (op ∷ ops) ok =
    let (r, s, ok') = perform-Agrees host ok op in
    ap₂ ◌∷◌ r (run-scancodes (perform op host).1 ops ok' ∙ ap (λ cs. spec_run cs ops) s)
