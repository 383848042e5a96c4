-- ===== src/Vfs/Policy/Below.antt =====
-- Which paths the policy of kernel/core/vfs/fs_policy.c covers, told by the components of a path.
use bailey_forbes_flinstone.Base.{
  ℕ, ◌≡◌, ◌≢◌, ◌⊎◌, ◌∙◌, refl, sym, ap, ap₂, inl, inr, Bool, true, false, List, [], ◌∷◌, ◌++◌,
  append_assoc, append-nil, Bool-cases, drop, map,
}
use mathlib.Core.Bool.{false≢true}
use mathlib.Core.List.{nil≢cons}
use bailey_forbes_flinstone.Vfs.Policy.{slash, covers, can_write}
use bailey_forbes_flinstone.Vfs.Policy.Prefix.{covers-IsBelow, covers_below}

-- A component is a list of bytes other than the slash.
abbrev pub IsPlain : List ℕ → Type 0
IsPlain [] = Unit
IsPlain (c ∷ cs) = (c ≢ slash) × IsPlain cs

abbrev pub ArePlain : List (List ℕ) → Type 0
ArePlain [] = Unit
ArePlain (s ∷ ss) = IsPlain s × ArePlain ss

-- The path with the given components: each has a slash before it.
abbrev pub path_of : List (List ℕ) → List ℕ
path_of [] = []
path_of (s ∷ ss) = slash ∷ (s ++ path_of ss)

-- The first components of `q` are those of `p`.
abbrev pub IsPrefix : List (List ℕ) → List (List ℕ) → Type 0
IsPrefix p q = (rest : List (List ℕ)) × (q ≡ p ++ rest)

-- What may stand behind a component.
abbrev Opens : List ℕ → Type 0
Opens [] = Unit
Opens (c ∷ cs) = c ≡ slash

abbrev first : ℕ → List ℕ → ℕ
first a [] = a
first a (c ∷ cs) = c

Opens-path_of : (ss : List (List ℕ)) (more : List ℕ) → Opens more → Opens (path_of ss ++ more)
Opens-path_of [] more o = o
Opens-path_of (s ∷ ss) more o = refl

-- A component ends at the first slash.
split_component :
    (s t xs ys : List ℕ)
    → IsPlain s
    → IsPlain t
    → Opens xs
    → Opens ys
    → t ++ xs ≡ s ++ ys
    → (t ≡ s) × (xs ≡ ys)
split_component [] [] xs ys ps pt ox oy e = (refl, e)
split_component [] (b ∷ t) xs [] ps pt ox oy e = absurd (nil≢cons (sym e))
split_component [] (b ∷ t) xs (y ∷ ys) ps pt ox oy e = absurd (pt.0 (ap (first b) e ∙ oy))
split_component (a ∷ s) [] [] ys ps pt ox oy e = absurd (nil≢cons e)
split_component (a ∷ s) [] (x ∷ xs) ys ps pt ox oy e = absurd (ps.0 (sym (ap (first a) e) ∙ ox))
split_component (a ∷ s) (b ∷ t) xs ys ps pt ox oy e =
    let (same, rest) = split_component s t xs ys ps.1 pt.1 ox oy (ap (drop 1) e) in
    (ap₂ ◌∷◌ (ap (first a) e) same, rest)

path_of-prefix :
    (p q : List (List ℕ)) (more : List ℕ)
    → ArePlain p
    → ArePlain q
    → Opens more
    → path_of q ≡ path_of p ++ more
    → IsPrefix p q
path_of-prefix [] q more pp pq o e = (q, refl)
path_of-prefix (s ∷ ss) [] more pp pq o e = absurd (nil≢cons e)
path_of-prefix (s ∷ ss) (t ∷ ts) more pp pq o e =
    let (same, behind) =
      split_component s t (path_of ts) (path_of ss ++ more) pp.0 pq.0 (Opens-self ts)
        (Opens-path_of ss more o) (ap (drop 1) e ∙ append_assoc s (path_of ss) more) in
    let (rest, below) = path_of-prefix ss ts more pp.1 pq.1 o behind in (rest, ap₂ ◌∷◌ same below)
  where
    Opens-self : (us : List (List ℕ)) → Opens (path_of us)
    Opens-self [] = tt
    Opens-self (u ∷ us) = refl

path_of-append : (p rest : List (List ℕ)) → path_of (p ++ rest) ≡ path_of p ++ path_of rest
path_of-append [] rest = refl
path_of-append (s ∷ ss) rest =
    ap (λ xs. slash ∷ xs)
      (ap (λ xs. s ++ xs) (path_of-append ss rest)
        ∙ sym (append_assoc s (path_of ss) (path_of rest)))

pub covers-prefix :
    (p q : List (List ℕ))
    → ArePlain p
    → ArePlain q
    → covers (path_of p) (path_of q) ≡ true
    → IsPrefix p q
covers-prefix p q pp pq h = elim (covers-IsBelow (path_of p) (path_of q) h) [
  | inl e ↦ path_of-prefix p q [] pp pq tt (e ∙ sym (append-nil (path_of p)))
  | inr (rest, e) ↦ path_of-prefix p q (slash ∷ rest) pp pq refl e
]

pub prefix-covers : (p q : List (List ℕ)) → IsPrefix p q → covers (path_of p) (path_of q) ≡ true
prefix-covers p q ([], e) =
    covers_below (path_of p) (path_of q)
      (inl (ap path_of e ∙ path_of-append p [] ∙ append-nil (path_of p)))
prefix-covers p q (r ∷ rs, e) =
    covers_below (path_of p) (path_of q)
      (inr (r ++ path_of rs, ap path_of e ∙ path_of-append p (r ∷ rs)))

-- The first components of the path are those of some protected path.
abbrev pub IsProtected : List (List (List ℕ)) → List (List ℕ) → Type 0
IsProtected [] q = ⊥
IsProtected (p ∷ ps) q = IsPrefix p q ⊎ IsProtected ps q

abbrev pub AllPlain : List (List (List ℕ)) → Type 0
AllPlain [] = Unit
AllPlain (p ∷ ps) = ArePlain p × AllPlain ps

-- Whether a write is allowed, decided with the reason.
abbrev pub Verdict : List (List (List ℕ)) → List (List ℕ) → Bool → Type 0
Verdict ps q true = IsProtected ps q → ⊥
Verdict ps q false = IsProtected ps q

-- For protected paths and a path that are written as a slash and a component, one after the other,
-- the policy denies a write exactly when the first components of the path are all the components of
-- a protected path, the path itself or a directory above it. (A slash at the end of a path is an
-- empty component, so that a protected "/" or "/docs/" does not protect what lies below.)
pub can_write-Verdict :
    (ps : List (List (List ℕ))) (q : List (List ℕ))
    → AllPlain ps
    → ArePlain q
    → Verdict ps q (can_write (map path_of ps) (path_of q))
unfolding can_write
can_write-Verdict [] q plain pq = λ h. h
can_write-Verdict (p ∷ ps) q plain pq = elim (Bool-cases (covers (path_of p) (path_of q))) [
  | inl e ↦ rw e (inl (covers-prefix p q plain.0 pq e))
  | inr e ↦
      rw e (extend (can_write (map path_of ps) (path_of q)) e (can_write-Verdict ps q plain.1 pq))
]
  where
    extend :
        (ok : Bool)
        → covers (path_of p) (path_of q) ≡ false
        → Verdict ps q ok
        → Verdict (p ∷ ps) q ok
    extend true e v =
        λ h. elim h [ inl b ↦ absurd (false≢true (sym e ∙ prefix-covers p q b)) | inr b ↦ v b ]
    extend false e v = inr v
