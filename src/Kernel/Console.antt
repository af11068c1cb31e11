-- ===== src/Kernel/Console.antt =====
-- The text console of kernel/kernel.c: the character grid behind the framebuffer, the VGA text
-- page, the cursor and the scrollback ring. What is painted on the screen and sent to the serial
-- port is output and has no state here. `cur_x` and `cur_y` are bytes and wrap.
pub mod History
pub mod Cursor
mod Tests
use mini_os.Base.{
  ℕ, zero, suc, ◌+◌, ◌-◌, ◌*◌, ◌%◌, Bool, true, false, not, ◌&&◌, ◌||◌, ◌==◌, ltb, leb,
  if◌then◌else◌,
}
use mini_os.Base.Words.{add32}
use mini_os.Base.Bytes.{Memory, copy, fill, poke}

abbrev pub cell_cols : ℕ
cell_cols = 320

abbrev pub cell_rows : ℕ
cell_rows = 100

abbrev pub hist_rows : ℕ
hist_rows = 512

-- `cells` is fb_cells, `hist` hist_cells; `lfb` is whether the framebuffer is mapped, `font`
-- whether there is a font; `vga` is the text page, one number for a character and its colour.
pub record Console : Type 0 where
  pub fb_enabled : Bool
  pub lfb : Bool
  pub font : Bool
  pub fb_cols : ℕ
  pub fb_rows : ℕ
  pub cur_x : ℕ
  pub cur_y : ℕ
  pub cells : Memory
  pub hist : Memory
  pub hist_next : ℕ
  pub hist_count : ℕ
  pub view_off : ℕ
  pub vga : Memory

-- A uint8_t.
abbrev pub byte : ℕ → ℕ
byte n = n % 256

unfoldable pub fb_cell_set : ℕ → ℕ → ℕ → Console → Console
fb_cell_set row col c s =
    if ltb row cell_rows && ltb col cell_cols
    then record s { cells = poke s.cells (row * cell_cols + col) c }
    else s

unfoldable pub fb_cell_get : ℕ → ℕ → Console → ℕ
fb_cell_get row col s =
    if ltb row cell_rows && ltb col cell_cols then s.cells (row * cell_cols + col) else b' '

-- The cell that `fb_repaint_view` paints at row `r` and column `c`.
unfoldable pub view_cell : ℕ → ℕ → Console → ℕ
view_cell r c s =
    let idx = s.hist_count + r - s.view_off in
    let slot = (s.hist_next + hist_rows - s.hist_count + idx) % hist_rows in
    if ltb idx s.hist_count
    then s.hist (slot * cell_cols + c)
    else fb_cell_get (idx - s.hist_count) c s

-- `console_view(delta)` for a positive delta, and for one that is not.
unfoldable pub console_view_up : ℕ → Console → Console
console_view_up delta s =
    if not s.fb_enabled || not s.lfb
    then s
    else let nv = add32 s.view_off delta in
      record s { view_off = if ltb s.hist_count nv then s.hist_count else nv }

unfoldable pub console_view_down : ℕ → Console → Console
console_view_down d s =
    if not s.fb_enabled || not s.lfb
    then s
    else record s { view_off = if leb s.view_off d then 0 else s.view_off - d }

unfoldable pub console_view_live : Console → Console
console_view_live s = record s { view_off = 0 }

-- `for (r = 1; ...) memcpy(row r - 1, row r)` with `k` rows left, from row `r` on.
unfoldable pub move_rows : ℕ → ℕ → Memory → Memory
move_rows zero r m = m
move_rows (suc k) r m =
    move_rows k (r + 1) (copy m ((r - 1) * cell_cols) m (r * cell_cols) cell_cols)

-- The text page's copy, a cell at a time in the code.
unfoldable pub vga_rows_up : Memory → Memory
vga_rows_up m p = if ltb p (24 * 80) then m (p + 80) else if ltb p (25 * 80) then 0x0720 else m p

abbrev pub last_row : Console → ℕ
last_row s = if ltb s.fb_rows cell_rows then s.fb_rows else cell_rows

-- The framebuffer branch of `vga_scroll` where it does scroll.
unfoldable pub fb_scroll : Console → Console
fb_scroll s =
    let moved = move_rows (last_row s - 1) 1 s.cells in
    record s {
      hist = copy s.hist (s.hist_next * cell_cols) s.cells 0 cell_cols;
      hist_next = (s.hist_next + 1) % hist_rows;
      hist_count = if ltb s.hist_count hist_rows then s.hist_count + 1 else s.hist_count;
      cells =
          if ltb 0 (last_row s)
          then fill moved ((last_row s - 1) * cell_cols) b' ' cell_cols
          else moved;
      cur_y = byte (s.fb_rows + 255);
    }

unfoldable pub vga_scroll : Console → Console
vga_scroll s =
    if s.fb_enabled
    then if ltb s.cur_y s.fb_rows || not s.lfb then s else fb_scroll s
    else if ltb s.cur_y 25
    then s
    else record s { vga = vga_rows_up s.vga; cur_y = 24 }

-- The start of the next line.
unfoldable pub new_line : Console → Console
new_line s = vga_scroll (record s { cur_x = 0; cur_y = byte (s.cur_y + 1) })

-- The cursor moves on by one cell, to the next line after the last column.
unfoldable pub next_cell : ℕ → Console → Console
next_cell cols s =
    let next : Console = record s { cur_x = byte (s.cur_x + 1) } in
    if leb cols next.cur_x then new_line next else next

-- A backspace, on a screen of `cols` columns: the cursor one cell back.
abbrev pub step_back : ℕ → Console → Console
step_back cols s =
    if s.cur_x == 0
    then record s { cur_y = s.cur_y - 1; cur_x = byte (cols + 255) }
    else record s { cur_x = s.cur_x - 1 }

-- `vga_putc` on the framebuffer, after the view has gone live.
unfoldable pub fb_putc : ℕ → Console → Console
fb_putc c s =
    let back = step_back s.fb_cols s in
    let put = fb_cell_set s.cur_y s.cur_x c s in
    if c == b'\n'
    then new_line s
    else if c == b'\r'
    then record s { cur_x = 0 }
    else if c == 8
    then if (s.cur_x == 0) && (s.cur_y == 0) then s else fb_cell_set back.cur_y back.cur_x b' ' back
    else if not s.font
    then s
    else next_cell s.fb_cols put

unfoldable pub text_putc : ℕ → Console → Console
text_putc c s =
    let back = step_back 80 s in
    let put : Console = record s { vga = poke s.vga (s.cur_y * 80 + s.cur_x) (0x0700 + c) } in
    if c == b'\n'
    then new_line s
    else if c == b'\r'
    then record s { cur_x = 0 }
    else if c == 8
    then if (s.cur_x == 0) && (s.cur_y == 0)
      then s
      else record back { vga = poke s.vga (back.cur_y * 80 + back.cur_x) 0x0720 }
    else next_cell 80 put

unfoldable pub vga_putc : ℕ → Console → Console
vga_putc c s = if s.fb_enabled then fb_putc c (console_view_live s) else text_putc c s

unfoldable pub vga_cls : Console → Console
vga_cls s =
    if s.fb_enabled
    then record s {
      view_off = 0;
      cells = fill s.cells 0 b' ' (cell_rows * cell_cols);
      cur_x = 0;
      cur_y = 0;
    }
    else record s { vga = fill s.vga 0 0x0720 (25 * 80); cur_x = 0; cur_y = 0 }

-- The clamps are of uint32_t; `fb_cols` and `fb_rows` are not 0.
unfoldable pub vga_setcursor : ℕ → ℕ → Console → Console
vga_setcursor x y s =
    if s.fb_enabled
    then record s {
      cur_x = byte (if leb s.fb_cols x then s.fb_cols - 1 else x);
      cur_y = byte (if leb s.fb_rows y then s.fb_rows - 1 else y);
    }
    else record s { cur_x = if ltb 79 x then 79 else x; cur_y = if ltb 24 y then 24 else y }
