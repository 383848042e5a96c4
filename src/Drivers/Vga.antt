-- ===== src/Drivers/Vga.antt =====
-- kernel/drivers/display_driver.c on x86 without a host: the text screen. A cell is a 16-bit word; the
-- cursor of the hardware is the place that was last sent to its ports. An `int` is its 32-bit
-- pattern, negative from 2 ^ 31 on.
pub mod Screen
use bailey_forbes_flinstone.Base.{
  ℕ, ◌+◌, ◌-◌, ◌*◌, ◌^◌, Bool, true, false, ◌==◌, ltb, leb, if◌then◌else◌, update, u8, u16,
}

abbrev pub rows : ℕ
rows = 25

abbrev pub cols : ℕ
cols = 80

-- `display_impl_t` with the screen and the cursor of the hardware
pub record Display : Type 0 where
  pub row : ℕ
  pub col : ℕ
  pub color : ℕ
  pub cursor_dirty : Bool
  pub cells : ℕ → ℕ
  pub hw_cursor : ℕ

abbrev clamp : ℕ → ℕ → ℕ
clamp n limit = if leb (2 ^ 31) n then 0 else if leb limit n then limit - 1 else n

unfoldable pub set_hw_cursor : Display → ℕ → ℕ → Display
set_hw_cursor d row col = record d { hw_cursor = u16 (clamp row rows * cols + clamp col cols) }

-- `c | (color << 8)`, for a byte `c`
abbrev pub cell_of : ℕ → ℕ → ℕ
cell_of c color = u16 (u8 c + u8 color * 2 ^ 8)

-- The rows move up by one, and the last one is blank.
unfoldable pub scroll : (ℕ → ℕ) → ℕ → ℕ → ℕ
scroll cells blank i =
    if ltb i ((rows - 1) * cols)
    then cells (i + cols)
    else if ltb i (rows * cols)
    then blank
    else cells i

-- The next row, `++row >= VGA_ROWS` and what follows.
unfoldable pub next_row : Display → Display
unfolding scroll set_hw_cursor
next_row d =
    if leb rows (d.row + 1)
    then record (set_hw_cursor
        (record d { row = rows - 1; cells = scroll d.cells (cell_of 32 d.color) }) (rows - 1)
        d.col) { cursor_dirty = false }
    else record d { row = d.row + 1; cursor_dirty = true }

unfoldable pub putchar : Display → ℕ → Display
unfolding next_row
putchar d c =
    let written = record d {
      cells = update d.cells (d.row * cols + d.col) (cell_of c d.color);
      col = d.col + 1;
    } in
    if c == 10
    then next_row (record d { col = 0 })
    else if leb cols (d.col + 1)
    then next_row (record written { col = 0 })
    else record written { cursor_dirty = true }

unfoldable pub clear : Display → Display
unfolding set_hw_cursor
clear d =
    record (set_hw_cursor
      (record d {
        cells = λ i. if ltb i (rows * cols) then cell_of 32 d.color else d.cells i;
        row = 0;
        col = 0;
      })
      0 0) { cursor_dirty = false }

unfoldable pub set_cursor : Display → ℕ → ℕ → Display
unfolding set_hw_cursor
set_cursor d row col =
    record (set_hw_cursor (record d { row = clamp row rows; col = clamp col cols }) (clamp row rows)
      (clamp col cols)) { cursor_dirty = false }

unfoldable pub refresh : Display → (ℕ → ℕ) → Display
unfolding set_hw_cursor
refresh d buf =
    record (set_hw_cursor
      (record d { cells = λ i. if ltb i (rows * cols) then buf i else d.cells i }) d.row d.col) {
        cursor_dirty = false;
      }

unfoldable pub flush_cursor : Display → Display
unfolding set_hw_cursor
flush_cursor d =
    if d.cursor_dirty then record (set_hw_cursor d d.row d.col) { cursor_dirty = false } else d
