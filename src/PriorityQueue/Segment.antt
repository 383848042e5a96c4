-- ===== src/PriorityQueue/Segment.antt =====
-- A doubly linked run of slots: `xs` from link `h`, after link `p`, whose last slot points to `e`
-- and which ends at link `t`.
use bailey_forbes_flinstone.Base.{
  ℕ, ◌≡◌, refl, true, false, some, List, [], ◌∷◌, ◌++◌, arith, mem, Distinct, update,
}
use bailey_forbes_flinstone.PriorityQueue.{Link}

abbrev pub Segment : (ℕ → Link) → (ℕ → Link) → Link → Link → List ℕ → Link → Link → Type 0
Segment next prev p h [] e t = (h ≡ e) × (t ≡ p)
Segment next prev p h (x ∷ xs) e t =
    (h ≡ some x) × (prev x ≡ p) × Segment next prev (some x) (next x) xs e t

-- A run does not read the links of a slot outside it.
pub Segment-next :
    (next prev : ℕ → Link) (y : ℕ) (v : Link) (p h : Link) (xs : List ℕ) (e t : Link)
    → mem y xs ≡ false
    → Segment next prev p h xs e t
    → Segment (update next y v) prev p h xs e t
Segment-next next prev y v p h [] e t o s = s
Segment-next next prev y v p h (x ∷ xs) e t o s =
    ground (arith, Segment-next next prev y v (some x) (next x) xs e t)

pub Segment-prev :
    (next prev : ℕ → Link) (y : ℕ) (v : Link) (p h : Link) (xs : List ℕ) (e t : Link)
    → mem y xs ≡ false
    → Segment next prev p h xs e t
    → Segment next (update prev y v) p h xs e t
Segment-prev next prev y v p h [] e t o s = s
Segment-prev next prev y v p h (x ∷ xs) e t o s =
    ground (arith, Segment-prev next prev y v (some x) (next x) xs e t)

module _ (next prev : ℕ → Link) where
  pub Segment-split :
      (p h : Link) (xs ys : List ℕ) (e t : Link)
      → Segment next prev p h (xs ++ ys) e t
      → (m : Link) × (k : Link) × Segment next prev p h xs m k × Segment next prev k m ys e t
  Segment-split p h [] ys e t s = (h, p, (refl, refl), s)
  Segment-split p h (x ∷ xs) ys e t (a, b, s) =
      let (m, k, l, r) = Segment-split (some x) (next x) xs ys e t s in (m, k, (a, b, l), r)

  pub Segment-join :
      (p h : Link) (xs ys : List ℕ) (m k e t : Link)
      → Segment next prev p h xs m k
      → Segment next prev k m ys e t
      → Segment next prev p h (xs ++ ys) e t
  Segment-join p h [] ys m k e t (a, b) r = rw (a, ← b) r
  Segment-join p h (x ∷ xs) ys m k e t (a, b, l) r =
      (a, b, Segment-join (some x) (next x) xs ys m k e t l r)

  -- The last slot of a run, and what pointing it elsewhere does.
  pub Segment-last :
      (p h : Link) (x : ℕ) (xs : List ℕ) (e t v : Link)
      → Distinct (x ∷ xs)
      → Segment next prev p h (x ∷ xs) e t
      → (y : ℕ) × (t ≡ some y)
        × (mem y (x ∷ xs) ≡ true)
        × Segment (update next y v) prev p h (x ∷ xs) v t
  Segment-last p h x [] e t v d s = (x, ground arith, ground arith, ground arith)
  Segment-last p h x (x' ∷ xs) e t v d s =
      let (y, a, b, r) = Segment-last (some x) (next x) x' xs e t v d.1 s.2 in
      (y, a, ground arith, ground arith)
