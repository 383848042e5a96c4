-- ===== src/Ipc/Msgq/Slots.antt =====
-- The slots of a message queue in its block of bytes.
use bailey_forbes_flinstone.Base.{
  ℕ, zero, suc, ◌+◌, ◌-◌, ◌*◌, ◌≡◌, ◌≢◌, ◌≤◌, ◌<◌, ◌∙◌, refl, sym, ap, ap₂, subst, arith, inl, inr,
  List, [], ◌∷◌, ◌++◌, ltb, ◌==◌, length, take, replicate, Bool-cases, min, update, ltb→lt,
}
use native.Mathlib.Nat.{suc-mul, mul-le-mul_right}
use bailey_forbes_flinstone.Vm.Mem.{read_bytes, write_bytes}
use bailey_forbes_flinstone.Vm.Mem.Laws.{
  write_bytes-below, write_bytes-above, read_bytes-write_bytes,
}

-- A message with the zeros that fill its slot.
abbrev pub padded : ℕ → List ℕ → List ℕ
padded size msg = msg ++ replicate (size - length msg) 0

pub length-replicate : (n : ℕ) → length {A = ℕ} (replicate n 0) ≡ n
length-replicate zero = refl
length-replicate (suc n) = ap suc (length-replicate n)

read_bytes_split :
    (f : ℕ → ℕ) (a m n : ℕ) → read_bytes f a (m + n) ≡ read_bytes f a m ++ read_bytes f (a + m) n
unfolding read_bytes
read_bytes_split f a zero n =
    let p : a ≡ a + 0 = omega arith in let q : 0 + n ≡ n = omega arith in ap₂ (read_bytes f) p q
read_bytes_split f a (suc m) n =
    let p : suc m + n ≡ suc (m + n) = omega arith in
    let q : a + 1 + m ≡ a + suc m = omega arith in
    ap (read_bytes f a) p
    ∙ ap (λ xs. f a ∷ xs)
        (read_bytes_split f (a + 1) m n ∙ ap (λ i. read_bytes f (a + 1) m ++ read_bytes f i n) q)

pub read_bytes_cong :
    (f g : ℕ → ℕ) (a n : ℕ)
    → ((j : ℕ) → a ≤ j → j < a + n → f j ≡ g j)
    → read_bytes f a n ≡ read_bytes g a n
unfolding read_bytes
read_bytes_cong f g a zero h = refl
read_bytes_cong f g a (suc n) h =
    ap₂ ◌∷◌ (h a (omega arith) (omega arith))
      (read_bytes_cong f g (a + 1) n (λ j l u. h j (omega arith) (omega arith)))

read_bytes_zeros :
    (f : ℕ → ℕ) (a n : ℕ)
    → ((j : ℕ) → a ≤ j → j < a + n → f j ≡ 0)
    → read_bytes f a n ≡ replicate n 0
unfolding read_bytes
read_bytes_zeros f a zero h = refl
read_bytes_zeros f a (suc n) h =
    ap₂ ◌∷◌ (h a (omega arith) (omega arith))
      (read_bytes_zeros f (a + 1) n (λ j l u. h j (omega arith) (omega arith)))

write_bytes_zeros :
    (f : ℕ → ℕ) (a n j : ℕ) → a ≤ j → j < a + n → write_bytes f a (replicate n 0) j ≡ 0
unfolding write_bytes
write_bytes_zeros f a zero j l u = absurd (omega arith)
write_bytes_zeros f a (suc n) j l u = elim (Bool-cases (a == j)) [
  | inl e ↦ write_bytes-below (update f a 0) (a + 1) (replicate n 0) j (ground arith) ∙ ground arith
  | inr e ↦ write_bytes_zeros (update f a 0) (a + 1) n j (ground arith) (omega arith)
]

pub read_bytes-take : (f : ℕ → ℕ) (a n k : ℕ) → read_bytes f a (min k n) ≡ take k (read_bytes f a n)
unfolding read_bytes
read_bytes-take f a zero k =
    let p : min k 0 ≡ 0 = omega arith in ap (read_bytes f a) p ∙ sym (take-nil k)
  where
    take-nil : (i : ℕ) → take {A = ℕ} i [] ≡ []
    take-nil zero = refl
    take-nil (suc i) = refl
read_bytes-take f a (suc n) zero = let p : min 0 (suc n) ≡ 0 = omega arith in ap (read_bytes f a) p
read_bytes-take f a (suc n) (suc k) =
    let p : min (suc k) (suc n) ≡ suc (min k n) = omega arith in
    ap (read_bytes f a) p ∙ ap (λ xs. f a ∷ xs) (read_bytes-take f (a + 1) n k)

-- A slot that is cleared and then written holds the message and zeros.
pub read_bytes-slot :
    (f : ℕ → ℕ) (a size : ℕ) (msg : List ℕ)
    → length msg ≤ size
    → read_bytes (write_bytes (write_bytes f a (replicate size 0)) a msg) a size ≡ padded size msg
read_bytes-slot f a size msg h =
    let zeros = write_bytes f a (replicate size 0) in
    let rest = size - length msg in
    let p : size ≡ length msg + rest = omega arith in
    ap (read_bytes (write_bytes zeros a msg) a) p
    ∙ read_bytes_split (write_bytes zeros a msg) a (length msg) rest
    ∙ ap₂ ◌++◌ (read_bytes-write_bytes zeros a msg) (
        read_bytes_zeros (write_bytes zeros a msg) (a + length msg) rest (λ j l u.
          write_bytes-above zeros a msg j l
          ∙ write_bytes_zeros f a size j (omega arith) (omega arith)))

-- Two slots do not meet.
slots-apart : (i t size : ℕ) → i < t → i * size + size ≤ t * size
slots-apart i t size h =
    subst (λ n. n ≤ t * size) (suc-mul i size) (mul-le-mul_right {m = suc i} size (omega arith))

-- A store to slot `t` leaves the other slots alone.
pub read_bytes-other :
    (f : ℕ → ℕ) (i t size : ℕ) (msg : List ℕ)
    → length msg ≤ size
    → i ≢ t
    → read_bytes f (i * size) size
      ≡ read_bytes
          (write_bytes (write_bytes f (t * size) (replicate size 0)) (t * size) msg)
          (i * size)
          size
read_bytes-other f i t size msg h ne = read_bytes_cong f _ (i * size) size (λ j l u.
    sym (elim (Bool-cases (ltb i t)) [
      | inl e ↦ below j (omega (arith, slots-apart i t size (ltb→lt i t e)))
      | inr e ↦ above j (omega (arith, slots-apart t i size (ground arith)))
    ]))
  where
    below :
        (j : ℕ)
        → j < t * size
        → write_bytes (write_bytes f (t * size) (replicate size 0)) (t * size) msg j ≡ f j
    below j u =
        write_bytes-below _ (t * size) msg j u
        ∙ write_bytes-below f (t * size) (replicate size 0) j u

    above :
        (j : ℕ)
        → t * size + size ≤ j
        → write_bytes (write_bytes f (t * size) (replicate size 0)) (t * size) msg j ≡ f j
    above j l =
        write_bytes-above _ (t * size) msg j (omega arith)
        ∙ write_bytes-above f (t * size) (replicate size 0) j (omega (arith, length-replicate size))
