-- ===== src/PriorityQueue/Relink.antt =====
-- `unlink_slot`: the run of the slot's layer loses that slot, and other runs are us before.
use bailey_forbes_flinstone.Base.{
  ℕ, ◌≡◌, refl, true, false, none, some, List, [], ◌∷◌, ◌++◌, arith, mem, Distinct, ◌==◌,
  Distinct-append,
}
use bailey_forbes_flinstone.PriorityQueue.{Queue, Link, link_next, link_prev}
use bailey_forbes_flinstone.PriorityQueue.Segment.{
  Segment, Segment-next, Segment-prev, Segment-join, Segment-last,
}

abbrev pub Run : Queue → Link → Link → List ℕ → Link → Link → Type 0
Run q p h xs e t = Segment q.slot_next q.slot_prev p h xs e t

-- The run before a link that is set now ends at `n`.
pub link_next-before :
    (q : Queue) (l : ℕ) (p n e : Link) (us : List ℕ)
    → Distinct us
    → Run q none (q.layer_head l) us e p
    → Run (link_next q l p n) none ((link_next q l p n).layer_head l) us n p
unfolding link_next
link_next-before q l none n e [] d r = ground arith
link_next-before q l (some y) n e [] d r = absurd (ground arith)
link_next-before q l none n e (a ∷ us) d r =
    let w = Segment-last q.slot_next q.slot_prev none (q.layer_head l) a us e none n d r in
    absurd (ground arith)
link_next-before q l (some y) n e (a ∷ us) d r =
    let w = Segment-last q.slot_next q.slot_prev none (q.layer_head l) a us e (some y) n d r in
    ground arith

-- A run that holds none of the slots whose links change is us before.
pub link_next-other :
    (q : Queue) (l : ℕ) (p n p₀ h e t : Link) (xs : List ℕ)
    → ((y : ℕ) → p ≡ some y → mem y xs ≡ false)
    → Run q p₀ h xs e t
    → Run (link_next q l p n) p₀ h xs e t
unfolding link_next
link_next-other q l none n p₀ h e t xs o r = r
link_next-other q l (some y) n p₀ h e t xs o r =
    Segment-next q.slot_next q.slot_prev y n p₀ h xs e t (o y refl) r

-- Second half: the slots after `s` now begin after `p`.
link_prev-after :
    (q : Queue) (l : ℕ) (n p : Link) (s : ℕ) (vs : List ℕ)
    → Distinct vs
    → Run q (some s) n vs none (q.layer_tail l)
    → Run (link_prev q l n p) p n vs none ((link_prev q l n p).layer_tail l)
unfolding link_prev
link_prev-after q l none p s [] d r = ground arith
link_prev-after q l (some j) p s [] d r = absurd (ground arith)
link_prev-after q l none p s (b ∷ vs) d r = absurd (ground arith)
link_prev-after q l (some j) p s (b ∷ vs) d r =
    let w =
      Segment-prev q.slot_next q.slot_prev b p (some b) (q.slot_next b) vs none (q.layer_tail l) d.0
        r.2 in
    ground arith

link_prev-other :
    (q : Queue) (l : ℕ) (n p p₀ h e t : Link) (xs : List ℕ)
    → ((y : ℕ) → n ≡ some y → mem y xs ≡ false)
    → Run q p₀ h xs e t
    → Run (link_prev q l n p) p₀ h xs e t
unfolding link_prev
link_prev-other q l none p p₀ h e t xs o r = r
link_prev-other q l (some y) p p₀ h e t xs o r =
    Segment-prev q.slot_next q.slot_prev y p p₀ h xs e t (o y refl) r

-- The slot before a run's end is in the run, and so is the one that the run begins with.
pub last-mem :
    (q : Queue) (h e t : Link) (xs : List ℕ) (y : ℕ)
    → Distinct xs
    → Run q none h xs e t
    → t ≡ some y
    → mem y xs ≡ true
last-mem q h e t [] y d r eq = absurd (ground arith)
last-mem q h e t (x ∷ xs) y d r eq =
    let w = Segment-last q.slot_next q.slot_prev none h x xs e t none d r in ground arith

pub first-mem :
    (q : Queue) (p h t : Link) (xs : List ℕ) (y : ℕ)
    → Run q p h xs none t
    → h ≡ some y
    → mem y xs ≡ true
first-mem q p h t [] y r eq = absurd (ground arith)
first-mem q p h t (x ∷ xs) y r eq = ground arith

-- Both halves, of the layer `l` that the slot is in.
abbrev pub relink : Queue → ℕ → Link → Link → Queue
relink q l p n = link_prev (link_next q l p n) l n p

pub tail-link_next :
    (q : Queue) (l : ℕ) (p n : Link) → (link_next q l p n).layer_tail ≡ q.layer_tail
unfolding link_next
tail-link_next q l none n = refl
tail-link_next q l (some p) n = refl

head-link_prev : (q : Queue) (l : ℕ) (n p : Link) → (link_prev q l n p).layer_head ≡ q.layer_head
unfolding link_prev
head-link_prev q l none p = refl
head-link_prev q l (some n) p = refl

pub relink-own :
    (q : Queue) (l : ℕ) (p n : Link) (s : ℕ) (us vs : List ℕ)
    → Distinct (us ++ (s ∷ vs))
    → Run q none (q.layer_head l) us (some s) p
    → Run q (some s) n vs none (q.layer_tail l)
    → Run
        (relink q l p n)
        none
        ((relink q l p n).layer_head l)
        (us ++ vs)
        none
        ((relink q l p n).layer_tail l)
relink-own q l p n s us vs d before after =
    Segment-join q'.slot_next q'.slot_prev none (q'.layer_head l) us vs n p none (q'.layer_tail l)
      before₂ after₂
  where
    q₁ : Queue
    q₁ = link_next q l p n

    q' : Queue
    q' = relink q l p n

    parts : Distinct us × Distinct vs × ((a : ℕ) → mem a us ≡ true → mem a vs ≡ false)
    parts =
        let (one, two, three) = Distinct-append us (s ∷ vs) d in
        (one, two.1, λ a h. ground (arith, three a h))

    before₁ : Run q₁ none (q₁.layer_head l) us n p
    before₁ = link_next-before q l p n (some s) us parts.0 before

    after₁ : Run q₁ (some s) n vs none (q₁.layer_tail l)
    after₁ = rw tail-link_next (
        link_next-other q l p n (some s) n none (q.layer_tail l) vs
          (λ y e. parts.2 y (last-mem q (q.layer_head l) (some s) p us y parts.0 before e)) after)

    after₂ : Run q' p n vs none (q'.layer_tail l)
    after₂ = link_prev-after q₁ l n p s vs parts.1 after₁

    not-before : (y : ℕ) → n ≡ some y → mem y us ≡ false
    not-before y e = ground (arith, parts.2 y, first-mem q (some s) n (q.layer_tail l) vs y after e)

    before₂ : Run q' none (q'.layer_head l) us n p
    before₂ =
        rw head-link_prev
          (link_prev-other q₁ l n p none (q₁.layer_head l) n p us not-before before₁)

relink-head :
    (q : Queue) (l k : ℕ) (p n : Link)
    → (l == k) ≡ false
    → (relink q l p n).layer_head k ≡ q.layer_head k
unfolding link_next link_prev
relink-head q l k none none ne = ground arith
relink-head q l k none (some j) ne = ground arith
relink-head q l k (some i) none ne = ground arith
relink-head q l k (some i) (some j) ne = ground arith

relink-tail :
    (q : Queue) (l k : ℕ) (p n : Link)
    → (l == k) ≡ false
    → (relink q l p n).layer_tail k ≡ q.layer_tail k
unfolding link_next link_prev
relink-tail q l k none none ne = ground arith
relink-tail q l k none (some j) ne = ground arith
relink-tail q l k (some i) none ne = ground arith
relink-tail q l k (some i) (some j) ne = ground arith

pub relink-other :
    (q : Queue) (l k : ℕ) (p n : Link) (xs : List ℕ)
    → (l == k) ≡ false
    → ((y : ℕ) → p ≡ some y → mem y xs ≡ false)
    → ((y : ℕ) → n ≡ some y → mem y xs ≡ false)
    → Run q none (q.layer_head k) xs none (q.layer_tail k)
    → Run
        (relink q l p n)
        none
        ((relink q l p n).layer_head k)
        xs
        none
        ((relink q l p n).layer_tail k)
relink-other q l k p n xs ne op on r =
    rw (head_same, tail_same)
      (link_prev-other (link_next q l p n) l n p none (q.layer_head k) none (q.layer_tail k) xs on
        (link_next-other q l p n none (q.layer_head k) none (q.layer_tail k) xs op r))
  where
    head_same : (relink q l p n).layer_head k ≡ q.layer_head k
    head_same = relink-head q l k p n ne

    tail_same : (relink q l p n).layer_tail k ≡ q.layer_tail k
    tail_same = relink-tail q l k p n ne
