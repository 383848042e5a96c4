-- ===== src/Ipc/Pipe/Fifo.antt =====
-- A pipe is a first-in first-out list of bytes.
use bailey_forbes_flinstone.Base.{
  ℕ, zero, suc, ◌+◌, ◌-◌, ◌%◌, ◌≡◌, ◌≤◌, ◌<◌, ◌∙◌, refl, sym, ap, ap₂, arith, inl, inr, List, [],
  ◌∷◌, ◌++◌, ltb, update, length, take, drop, append_assoc, append-nil, Bool-cases, gather, wrap,
  gather-snoc, gather_cong, length-gather, distance, mod-wrap, min, subst, ltb→lt,
}
use bailey_forbes_flinstone.Ipc.Pipe.{Pipe, put, skip, write_loop, read_loop}

-- The fields of a pipe fit together.
pub record IsPipe (p : Pipe) : Type 0 where
  pub head_inside : p.head < p.size
  pub tail_inside : p.tail < p.size
  pub fits : p.len ≤ p.size
  pub tail_at : p.tail ≡ wrap p.size (p.head + p.len)

-- The bytes that wait in the pipe, the oldest first.
abbrev pub contents : Pipe → List ℕ
contents p = gather p.buf p.size p.head p.len

pub length-contents : (p : Pipe) → length (contents p) ≡ p.len
length-contents p = length-gather p.buf p.size p.head p.len

-- `p'` is the pipe with the contents `xs` and what else stays.
pub record Becomes (p p' : Pipe) (xs : List ℕ) : Type 0 where
  pub sound : IsPipe p'
  pub holds : contents p' ≡ xs
  pub size_kept : p'.size ≡ p.size
  pub closing_kept : p'.closing ≡ p.closing
  pub waiters_kept : p'.waiters ≡ p.waiters

module _ (p : Pipe) (ok : IsPipe p) where
  put-Becomes : (b : ℕ) → p.len < p.size → Becomes p (put p b) (contents p ++ (b ∷ []))
  put-Becomes b room =
      unfold put in
      record {
        sound = record {
          head_inside = ok.head_inside;
          tail_inside = rw next (ground (arith, ok.tail_inside));
          fits = omega arith;
          tail_at = rw (next, ok.tail_at) (ground (arith, ok.head_inside));
        };
        holds =
            ap (gather (update p.buf p.tail b) p.size p.head) one_more
            ∙ gather-snoc (update p.buf p.tail b) p.size p.head p.len ok.head_inside room
            ∙ ap₂ ◌++◌
                (sym (
                  gather_cong p.buf (update p.buf p.tail b) p.size p.head p.len p.tail
                    ok.head_inside ok.tail_inside far (λ i h ne. ground arith)))
                (ap (λ c. c ∷ []) (ground (arith, ok.tail_at)));
        size_kept = refl;
        closing_kept = refl;
        waiters_kept = refl;
      }
    where
      next : (p.tail + 1) % p.size ≡ wrap p.size (p.tail + 1)
      next = mod-wrap p.size p.tail ok.tail_inside

      one_more : p.len + 1 ≡ suc p.len
      one_more = omega arith

      far : p.len ≤ distance p.size p.head p.tail
      far = ground (arith, ok.tail_at, ok.head_inside)

  skip-IsPipe : 0 < p.len → IsPipe (skip p)
  skip-IsPipe h =
      unfold skip in
      record {
        head_inside = rw next (ground (arith, ok.head_inside));
        tail_inside = ok.tail_inside;
        fits = omega (arith, ok.fits);
        tail_at = rw next (ground (arith, ok.head_inside, ok.fits, ok.tail_at));
      }
    where
      next : (p.head + 1) % p.size ≡ wrap p.size (p.head + 1)
      next = mod-wrap p.size p.head ok.head_inside

  skip-contents : (n : ℕ) → p.len ≡ suc n → contents p ≡ p.buf p.head ∷ contents (skip p)
  unfolding skip
  skip-contents n e =
      ap (gather p.buf p.size p.head) e
      ∙ ap (λ xs. p.buf p.head ∷ xs)
          (ap (λ i. gather p.buf p.size i n) (sym (mod-wrap p.size p.head ok.head_inside))
            ∙ ap (gather p.buf p.size ((p.head + 1) % p.size)) (omega arith))

Becomes-self : (p : Pipe) → IsPipe p → Becomes p p (contents p)
Becomes-self p ok = record {
  sound = ok;
  holds = refl;
  size_kept = refl;
  closing_kept = refl;
  waiters_kept = refl;
}

Becomes-compose : (p q r : Pipe) (xs ys : List ℕ) → Becomes p q xs → Becomes q r ys → Becomes p r ys
Becomes-compose p q r xs ys a b = record {
  sound = b.sound;
  holds = b.holds;
  size_kept = b.size_kept ∙ a.size_kept;
  closing_kept = b.closing_kept ∙ a.closing_kept;
  waiters_kept = b.waiters_kept ∙ a.waiters_kept;
}

take-nil : (n : ℕ) → take {A = ℕ} n [] ≡ []
take-nil zero = refl
take-nil (suc n) = refl

drop-nil : (n : ℕ) → drop {A = ℕ} n [] ≡ []
drop-nil zero = refl
drop-nil (suc n) = refl

-- What the loops do, in terms of the contents.
abbrev pub Wrote : Pipe → List ℕ → ℕ × Pipe → Type 0
Wrote p bs (n, p') =
    (n ≡ min (length bs) (p.size - p.len)) × Becomes p p' (contents p ++ take (p.size - p.len) bs)

abbrev pub Got : Pipe → ℕ → List ℕ × Pipe → Type 0
Got p n (bs, p') = (bs ≡ take n (contents p)) × Becomes p p' (drop n (contents p))

Wrote-full : (p : Pipe) (bs : List ℕ) → IsPipe p → p.size ≡ p.len → Wrote p bs (0, p)
Wrote-full p bs ok e = (
  (omega arith),
  subst (λ (n : ℕ). Becomes p p (contents p ++ take n bs)) {x = 0} (omega arith)
      (subst (Becomes p p) (sym (append-nil (contents p))) (Becomes-self p ok)),
)

Wrote-next :
    (p : Pipe) (b : ℕ) (bs : List ℕ) (n : ℕ) (r : Pipe)
    → IsPipe p
    → p.len < p.size
    → Wrote (put p b) bs (n, r)
    → Wrote p (b ∷ bs) (n + 1, r)
Wrote-next p b bs n r ok room (count, became) =
    let first = put-Becomes p ok b room in
    let fewer : p.size - p.len ≡ suc ((put p b).size - (put p b).len) = unfold put in omega arith in
    (
      (omega arith),
      rw fewer (
          subst (Becomes p r)
            (ap (λ xs. xs ++ take ((put p b).size - (put p b).len) bs) first.holds
              ∙ append_assoc (contents p) (b ∷ []) (take ((put p b).size - (put p b).len) bs))
            (Becomes-compose p (put p b) r _ _ first became)),
    )

pub write_loop-Wrote : (p : Pipe) (bs : List ℕ) → IsPipe p → Wrote p bs (write_loop p bs)
unfolding write_loop
write_loop-Wrote p [] ok = (
  (omega arith),
  subst (Becomes p p)
      (sym (ap (λ xs. contents p ++ xs) (take-nil (p.size - p.len)) ∙ append-nil (contents p)))
      (Becomes-self p ok),
)
write_loop-Wrote p (b ∷ bs) ok = elim (Bool-cases (ltb p.len p.size)) [
  | inl e ↦ rw e (
      Wrote-next p b bs _ _ ok (ltb→lt p.len p.size e)
        (write_loop-Wrote (put p b) bs (put-Becomes p ok b (ltb→lt p.len p.size e)).sound))
  | inr e ↦ rw e (Wrote-full p (b ∷ bs) ok (ground (arith, ok.fits)))
]

Got-next :
    (p : Pipe) (n k : ℕ) (bs : List ℕ) (r : Pipe)
    → IsPipe p
    → p.len ≡ suc k
    → Got (skip p) n (bs, r)
    → Got p (suc n) (p.buf p.head ∷ bs, r)
Got-next p n k bs r ok e (taken, became) =
    let c = skip-contents p ok k e in
    (
      ap (λ xs. p.buf p.head ∷ xs) taken ∙ ap (take (suc n)) (sym c),
      record {
        sound = became.sound;
        holds = became.holds ∙ ap (drop (suc n)) (sym c);
        size_kept = became.size_kept ∙ (unfold skip in refl);
        closing_kept = became.closing_kept ∙ (unfold skip in refl);
        waiters_kept = became.waiters_kept ∙ (unfold skip in refl);
      },
    )

Got-none : (p : Pipe) (n : ℕ) → IsPipe p → p.len ≡ 0 → Got p n ([], p)
Got-none p n ok e =
    let c : contents p ≡ [] = ap (gather p.buf p.size p.head) e in
    (
      sym (ap (take n) c ∙ take-nil n),
      subst (Becomes p p) (c ∙ sym (ap (drop n) c ∙ drop-nil n)) (Becomes-self p ok),
    )

pub read_loop-Got : (p : Pipe) (n : ℕ) → IsPipe p → Got p n (read_loop p n)
unfolding read_loop
read_loop-Got p zero ok = (refl, Becomes-self p ok)
read_loop-Got p (suc n) ok = elim (Bool-cases (ltb 0 p.len)) [
  | inl e ↦ rw e (
      Got-next p n (p.len - 1) _ _ ok (ground arith)
        (read_loop-Got (skip p) n (skip-IsPipe p ok (ltb→lt 0 p.len e))))
  | inr e ↦ rw e (Got-none p (suc n) ok (ground arith))
]
