-- ===== src/Kernel/Console/Cursor.antt =====
-- The cursor stays on the screen, whatever is written (kernel/kernel.c).
use mini_os.Base.{
  ℕ, ◌+◌, ◌*◌, ◌≤◌, ◌<◌, ◌≡◌, not, inl, inr, refl, Bool, true, false, ◌&&◌, ◌==◌, leb,
  if◌then◌else◌, arith, Bool-cases,
}
use mini_os.Base.Bytes.{poke}
use mini_os.Kernel.Console.{
  Console, hist_rows, byte, fb_cell_set, console_view_up, console_view_down, console_view_live,
  fb_scroll, vga_scroll, new_line, next_cell, step_back, fb_putc, text_putc, vga_putc, vga_cls,
  vga_setcursor,
}

-- The columns and rows of the screen in use.
abbrev pub cols : Console → ℕ
cols s = if s.fb_enabled then s.fb_cols else 80

abbrev pub rows : Console → ℕ
rows s = if s.fb_enabled then s.fb_rows else 25

-- The cursor is on the screen, the scrollback ring is in order, and the view is in the ring. The
-- framebuffer, where it is in use, is mapped and has at most 255 columns and rows.
pub record IsValid (s : Console) : Type 0 where
  pub mapped : s.fb_enabled ≡ true → s.lfb ≡ true
  pub wide : (1 ≤ s.fb_cols) × (s.fb_cols ≤ 255)
  pub high : (1 ≤ s.fb_rows) × (s.fb_rows ≤ 255)
  pub column : s.cur_x < cols s
  pub row : s.cur_y < rows s
  pub ring : s.hist_next < hist_rows
  pub held : s.hist_count ≤ hist_rows
  pub view : s.view_off ≤ s.hist_count

-- The same but for the row, which may be one too low: what `vga_scroll` mends.
record IsAlmost (s : Console) : Type 0 where
  mapped : s.fb_enabled ≡ true → s.lfb ≡ true
  wide : (1 ≤ s.fb_cols) × (s.fb_cols ≤ 255)
  high : (1 ≤ s.fb_rows) × (s.fb_rows ≤ 255)
  column : s.cur_x < cols s
  row : s.cur_y ≤ rows s
  ring : s.hist_next < hist_rows
  held : s.hist_count ≤ hist_rows
  view : s.view_off ≤ s.hist_count

vga_scroll-IsValid : (s : Console) → IsAlmost s → IsValid (vga_scroll s)
unfolding vga_scroll fb_scroll
vga_scroll-IsValid s v = ground arith

new_line-IsValid : (s : Console) → IsValid s → IsValid (new_line s)
unfolding new_line
new_line-IsValid s v = vga_scroll-IsValid _ (ground arith)

fb_cell_set-IsValid : (s : Console) (row col c : ℕ) → IsValid s → IsValid (fb_cell_set row col c s)
unfolding fb_cell_set
fb_cell_set-IsValid s row col c v = ground arith

put-IsValid :
    (s : Console) (row col c x y : ℕ)
    → IsValid s
    → x < cols s
    → y < rows s
    → IsValid (fb_cell_set row col c (record s { cur_x = x; cur_y = y }))
unfolding fb_cell_set
put-IsValid s row col c x y v lx ly = ground arith

next_cell-IsValid : (n : ℕ) (s : Console) → n ≡ cols s → IsValid s → IsValid (next_cell n s)
unfolding next_cell new_line
next_cell-IsValid n s same v = elim (Bool-cases (leb n (byte (s.cur_x + 1)))) [
  | inl e ↦ rw (e, next_cell) (vga_scroll-IsValid _ (ground arith))
  | inr e ↦ rw (e, next_cell) (ground arith)
]

back_fits :
    (s : Console)
    → IsValid s
    → (s.cur_x == 0) && (s.cur_y == 0) ≡ false
    → IsValid (step_back (cols s) s)
back_fits s v e = ground arith

cols-fb_cell_set : (row col c : ℕ) (s : Console) → cols (fb_cell_set row col c s) ≡ cols s
unfolding fb_cell_set
cols-fb_cell_set row col c s = ground arith

IsValid-if :
    (b : Bool) (s t : Console)
    → (b ≡ true → IsValid s)
    → (b ≡ false → IsValid t)
    → IsValid (if b then s else t)
IsValid-if true s t f g = f refl
IsValid-if false s t f g = g refl

fb_putc-IsValid : (c : ℕ) (s : Console) → s.fb_enabled ≡ true → IsValid s → IsValid (fb_putc c s)
unfolding fb_putc
fb_putc-IsValid c s on v =
    let back = step_back s.fb_cols s in
    let put = fb_cell_set s.cur_y s.cur_x c s in
    let empty : Console = record s { cur_x = 0 } in
    let erased = fb_cell_set back.cur_y back.cur_x b' ' back in
    let undone : Console = if (s.cur_x == 0) && (s.cur_y == 0) then s else erased in
    let shown : Console = if not s.font then s else next_cell s.fb_cols put in
    let rest : Console = if c == 8 then undone else shown in
    let undone-IsValid : IsValid undone =
      IsValid-if ((s.cur_x == 0) && (s.cur_y == 0)) s erased (λ h. v)
        (λ h.
          fb_cell_set-IsValid back back.cur_y back.cur_x b' ' (ground (arith, back_fits s v h))) in
    let shown-IsValid : IsValid shown =
      IsValid-if (not s.font) s (next_cell s.fb_cols put) (λ h. v)
        (λ h.
          next_cell-IsValid s.fb_cols put (ground (arith, cols-fb_cell_set s.cur_y s.cur_x c s))
            (fb_cell_set-IsValid s s.cur_y s.cur_x c v)) in
    IsValid-if (c == b'\n') (new_line s) (if c == b'\r' then empty else rest)
      (λ e. new_line-IsValid s v)
      (λ e.
        IsValid-if (c == b'\r') empty rest (λ f. ground arith)
          (λ f. IsValid-if (c == 8) undone shown (λ g. undone-IsValid) (λ g. shown-IsValid)))

text_putc-IsValid :
    (c : ℕ) (s : Console) → s.fb_enabled ≡ false → IsValid s → IsValid (text_putc c s)
unfolding text_putc
text_putc-IsValid c s off v =
    let back = step_back 80 s in
    let put : Console = record s { vga = poke s.vga (s.cur_y * 80 + s.cur_x) (0x0700 + c) } in
    let empty : Console = record s { cur_x = 0 } in
    let erased : Console = record back { vga = poke s.vga (back.cur_y * 80 + back.cur_x) 0x0720 } in
    let undone : Console = if (s.cur_x == 0) && (s.cur_y == 0) then s else erased in
    let rest : Console = if c == 8 then undone else next_cell 80 put in
    let undone-IsValid : IsValid undone =
      IsValid-if ((s.cur_x == 0) && (s.cur_y == 0)) s erased (λ h. v)
        (λ h. ground (arith, back_fits s v h)) in
    let shown-IsValid : IsValid (next_cell 80 put) =
      next_cell-IsValid 80 put (ground arith) (ground arith) in
    IsValid-if (c == b'\n') (new_line s) (if c == b'\r' then empty else rest)
      (λ e. new_line-IsValid s v)
      (λ e.
        IsValid-if (c == b'\r') empty rest (λ f. ground arith)
          (λ f.
            IsValid-if (c == 8) undone (next_cell 80 put) (λ g. undone-IsValid)
              (λ g. shown-IsValid)))

vga_cls-IsValid : (s : Console) → IsValid s → IsValid (vga_cls s)
unfolding vga_cls
vga_cls-IsValid s v = ground arith

vga_setcursor-IsValid : (x y : ℕ) (s : Console) → IsValid s → IsValid (vga_setcursor x y s)
unfolding vga_setcursor
vga_setcursor-IsValid x y s v = ground arith

console_view-IsValid :
    (n : ℕ) (s : Console)
    → IsValid s
    → IsValid (console_view_up n s) × IsValid (console_view_down n s)
unfolding console_view_up console_view_down
console_view-IsValid n s v = (ground arith, ground arith)

vga_putc-IsValid : (c : ℕ) (s : Console) → IsValid s → IsValid (vga_putc c s)
unfolding vga_putc console_view_live
vga_putc-IsValid c s v =
    let live : Console = record s { view_off = 0 } in
    IsValid-if s.fb_enabled (fb_putc c live) (text_putc c s)
      (λ e. fb_putc-IsValid c live e (ground arith)) (λ e. text_putc-IsValid c s e v)

-- On a console of at most 255 columns and rows whose cursor is on the screen, whatever is
-- written, cleared, moved to or scrolled, the cursor stays on the screen, the ring of old lines
-- in order and the view inside it: `vga_putc`, `vga_cls`, `vga_setcursor` and the two moves of
-- the view keep `IsValid`.
pub console-IsValid :
    (s : Console) (c x y n : ℕ)
    → IsValid s
    → IsValid (vga_putc c s)
      × IsValid (vga_cls s)
      × IsValid (vga_setcursor x y s)
      × IsValid (console_view_up n s)
      × IsValid (console_view_down n s)
console-IsValid s c x y n v =
    let moved = console_view-IsValid n s v in
    (vga_putc-IsValid c s v, vga_cls-IsValid s v, vga_setcursor-IsValid x y s v, moved.0, moved.1)
