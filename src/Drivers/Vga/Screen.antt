-- ===== src/Drivers/Vga/Screen.antt =====
-- The cursor stays on the screen, and nothing behind the screen is written.
use bailey_forbes_flinstone.Base.{
  ℕ, ◌+◌, ◌-◌, ◌*◌, ◌≡◌, ◌≤◌, ◌<◌, refl, arith, inl, inr, false, ◌==◌, update, ltb, leb, Bool-cases,
  ◌∙◌,
}
use bailey_forbes_flinstone.Drivers.Vga.{
  Display, rows, cols, cell_of, scroll, set_hw_cursor, next_row, putchar,
}

-- The place of the next character is on the screen.
pub record OnScreen (d : Display) : Type 0 where
  pub in_rows : d.row < rows
  pub in_cols : d.col < cols

-- Behind the screen the memory is as before.
abbrev pub Within : Display → Display → Type 0
Within d d' = (i : ℕ) → rows * cols ≤ i → d'.cells i ≡ d.cells i

scroll-Within : (cells : ℕ → ℕ) (blank i : ℕ) → rows * cols ≤ i → scroll cells blank i ≡ cells i
unfolding scroll
scroll-Within cells blank i l =
    let a : ltb i ((rows - 1) * cols) ≡ false = ground arith in
    let b : ltb i (rows * cols) ≡ false = ground arith in rw (a, b) refl

next_row-OnScreen :
    (d : Display) → d.row < rows → d.col < cols → OnScreen (next_row d) × Within d (next_row d)
next_row-OnScreen d r c = elim (Bool-cases (leb rows (d.row + 1))) [
  | inl e ↦
      unfold next_row in
      unfold set_hw_cursor in
      rw e (
        record { in_rows = omega arith; in_cols = c },
        λ i l. scroll-Within d.cells (cell_of 32 d.color) i l,
      )
  | inr e ↦ unfold next_row in rw e (record { in_rows = ground arith; in_cols = c }, λ i l. refl)
]

-- With the cursor on the screen, a character, a newline or a scroll leaves it on the screen and writes
-- nothing behind the 25 rows of 80 cells.
pub putchar-OnScreen :
    (d : Display) (c : ℕ) → OnScreen d → OnScreen (putchar d c) × Within d (putchar d c)
putchar-OnScreen d c ok = elim (Bool-cases (c == 10)) [
  | inl e ↦
      unfold putchar in rw e (next_row-OnScreen (record d { col = 0 }) ok.in_rows (omega arith))
  | inr e ↦ elim (Bool-cases (leb cols (d.col + 1))) [
    | inl f ↦
        let (on, within) = next_row-OnScreen wrapped ok.in_rows (omega arith) in
        unfold putchar in rw (e, f) (on, λ i l. within i l ∙ behind i l)
    | inr f ↦
        unfold putchar in
        rw (e, f) (record { in_rows = ok.in_rows; in_cols = ground arith }, behind)
  ]
]
  where
    wrapped : Display
    wrapped = record d {
      cells = update d.cells (d.row * cols + d.col) (cell_of c d.color);
      col = 0;
    }

    behind :
        (i : ℕ)
        → rows * cols ≤ i
        → update d.cells (d.row * cols + d.col) (cell_of c d.color) i ≡ d.cells i
    behind i l =
        let a = ok.in_rows in
        let b = ok.in_cols in
        let other : (d.row * cols + d.col == i) ≡ false = ground arith in rw other refl
