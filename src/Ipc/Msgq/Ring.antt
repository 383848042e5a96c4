-- ===== src/Ipc/Msgq/Ring.antt =====
-- A message queue is a first-in first-out list of messages.
use bailey_forbes_flinstone.Base.{
  ℕ, suc, ◌+◌, ◌-◌, ◌*◌, ◌%◌, ◌≡◌, ◌≤◌, ◌<◌, ◌∙◌, sym, ap, ap₂, arith, List, [], ◌∷◌, ◌++◌, length,
  gather, wrap, gather-snoc, gather_cong, distance, mod-wrap,
}
use bailey_forbes_flinstone.Ipc.Msgq.{Msgq, store, skip}
use bailey_forbes_flinstone.Ipc.Msgq.Slots.{padded, read_bytes-slot, read_bytes-other}
use bailey_forbes_flinstone.Ipc.Msgq.Spec.{IsMsgq, slot_of, messages}

module _ (q : Msgq) (ok : IsMsgq q) where
  next-tail : (q.tail + 1) % q.max_messages ≡ wrap q.max_messages (q.tail + 1)
  next-tail = mod-wrap q.max_messages q.tail ok.tail_inside

  next-head : (q.head + 1) % q.max_messages ≡ wrap q.max_messages (q.head + 1)
  next-head = mod-wrap q.max_messages q.head ok.head_inside

  pub store-IsMsgq : (msg : List ℕ) → q.len < q.max_messages → IsMsgq (store q msg)
  store-IsMsgq msg room =
      unfold store in
      record {
        head_inside = ok.head_inside;
        tail_inside = rw next-tail (ground (arith, ok.tail_inside));
        fits = omega arith;
        tail_at = rw (next-tail, ok.tail_at) (ground (arith, ok.head_inside));
        block_fits = ok.block_fits;
      }

  pub skip-IsMsgq : 0 < q.len → IsMsgq (skip q)
  skip-IsMsgq h =
      unfold skip in
      record {
        head_inside = rw next-head (ground (arith, ok.head_inside));
        tail_inside = ok.tail_inside;
        fits = omega (arith, ok.fits);
        tail_at = rw next-head (ground (arith, ok.head_inside, ok.fits, ok.tail_at));
        block_fits = ok.block_fits;
      }

  far : q.len < q.max_messages → q.len ≤ distance q.max_messages q.head q.tail
  far room = ground (arith, ok.tail_at, ok.head_inside)

  at_tail : q.len < q.max_messages → wrap q.max_messages (q.head + q.len) ≡ q.tail
  at_tail room = ground (arith, ok.tail_at)

  pub store-messages :
      (msg : List ℕ)
      → length msg ≤ q.message_size
      → q.len < q.max_messages
      → messages (store q msg) ≡ messages q ++ (padded q.message_size msg ∷ [])
  store-messages msg short room =
      let one_more : (store q msg).len ≡ suc q.len = unfold store in omega arith in
      let slot = slot_of (store q msg) in
      ap (gather slot (store q msg).max_messages (store q msg).head) one_more
      ∙ (unfold store in
          gather-snoc (slot_of (store q msg)) q.max_messages q.head q.len ok.head_inside room
          ∙ ap₂ ◌++◌
              (sym (
                gather_cong (slot_of q) (slot_of (store q msg)) q.max_messages q.head q.len q.tail
                  ok.head_inside ok.tail_inside (far room)
                  (λ i h ne. read_bytes-other q.buf i q.tail q.message_size msg short ne)))
              (ap (λ m. m ∷ [])
                (ap (slot_of (store q msg)) (at_tail room)
                  ∙ read_bytes-slot q.buf (q.tail * q.message_size) q.message_size msg short)))

  pub first-messages : (n : ℕ) → q.len ≡ suc n → messages q ≡ slot_of q q.head ∷ messages (skip q)
  unfolding skip
  first-messages n e =
      ap (gather (slot_of q) q.max_messages q.head) e
      ∙ ap (λ xs. slot_of q q.head ∷ xs)
          (ap (λ i. gather (slot_of q) q.max_messages i n) (sym next-head)
            ∙ ap (gather (slot_of q) q.max_messages ((q.head + 1) % q.max_messages)) fewer)
    where
      fewer : n ≡ q.len - 1
      fewer = omega arith
