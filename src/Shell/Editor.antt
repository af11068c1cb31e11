-- ===== src/Shell/Editor.antt =====
-- The text editor of the shell, user/sh.c: where a position of the text stands on the screen, and
-- what each key does. `memmove` is the loop of user/libc.c, which copies up or down as that of
-- fs/lib/string.c does. What is painted, and the blinking cursor, are output.
pub mod Cursor
pub mod Text
pub mod Keys
mod Tests
use mini_os.Base.{
  ℕ, zero, suc, ◌+◌, ◌-◌, ◌*◌, ◌/◌, ◌%◌, ◌^◌, ◌≤◌, ◌<◌, ◌≡◌, ◌≢◌, ◌↔◌, ◌⊎◌, inl, inr, refl, sym, ap,
  ◌∙◌, Bool, true, false, not, ◌&&◌, ◌||◌, ◌==◌, ltb, leb, if◌then◌else◌, arith, List, [], ◌∷◌,
  ◌++◌, Option, none, some, get_or, set, take, drop, length, replicate, Bool-cases, Option-cases,
  length-set, length-append, get_or-append_left, get_or-append_right, take-append, get_or-set_self,
  get_or-set_ne, ℕ_discrete, dec_lt, ◌>>=◌,
}
use mathlib.Core.Path.{subst}
use mathlib.Core.List.{append-nil, append_assoc}
use mini_os.Base.Words.{add32, sub32, mul32, u32_mod}
use mini_os.Base.Bytes.{
  Memory, copy, fill, poke, of_list, read_bytes, word_at, put_word, copy_inside, copy_outside,
}
use mini_os.Libc.Strings.{memmove}

pub record Cell : Type 0 where
  pub row : ℕ
  pub col : ℕ

-- The cell behind a character: the next line after a newline and after the last of 80 columns.
unfoldable pub advance : ℕ → Cell → Cell
advance ch p =
    if ch == b'\n'
    then record { row = p.row + 1; col = 0 }
    else if leb 80 (p.col + 1)
    then record { row = p.row + 1; col = 0 }
    else record p { col = p.col + 1 }

-- The loop of `row_col_of_index` with `k` rounds left, from character `i` on.
unfoldable pub walk : ℕ → Memory → ℕ → Cell → Cell
walk zero buf i p = p
walk (suc k) buf i p = walk k buf (i + 1) (advance (buf i) p)

abbrev pub origin : Cell
origin = record { row = 0; col = 0 }

unfoldable pub row_col_of_index : Memory → ℕ → ℕ → Cell
row_col_of_index buf len idx = walk (if ltb idx len then idx else len) buf 0 origin

-- The loop of `index_of_row` with `k` rounds left, at character `i`, which stands at `p`.
unfoldable pub row_from : ℕ → Memory → ℕ → ℕ → Cell → ℕ
row_from zero buf i target p = i
row_from (suc k) buf i target p =
    let rest = row_from k buf (i + 1) target (advance (buf i) p) in
    if p.row == target then i else rest

-- Rows are not negative; for one that is, the code returns 0 as for row 0.
unfoldable pub index_of_row : Memory → ℕ → ℕ → ℕ
index_of_row buf len target = if target == 0 then 0 else row_from len buf 0 target origin

unfoldable pub cell_from : ℕ → Memory → ℕ → Cell → Cell → ℕ
cell_from zero buf i target p = i
cell_from (suc k) buf i target p =
    let rest = cell_from k buf (i + 1) target (advance (buf i) p) in
    if (p.row == target.row) && (p.col == target.col)
    then i
    else if buf i == b'\n'
    then if p.row == target.row then i else rest
    else if leb 80 (p.col + 1)
    then if p.row == target.row then i + 1 else rest
    else rest

unfoldable pub index_of_row_col : Memory → ℕ → Cell → ℕ
index_of_row_col buf len target =
    if (target.row == 0) && (target.col == 0) then 0 else cell_from len buf 0 target origin

-- `move_cursor_rows` by `delta` rows down, and up as far as row 0.
unfoldable pub move_cursor_down : Memory → ℕ → ℕ → ℕ → ℕ
move_cursor_down buf len cursor delta =
    let p = row_col_of_index buf len cursor in
    index_of_row_col buf len (record p { row = p.row + delta })

unfoldable pub move_cursor_up : Memory → ℕ → ℕ → ℕ → ℕ
move_cursor_up buf len cursor delta =
    let p = row_col_of_index buf len cursor in
    index_of_row_col buf len (record p { row = p.row - delta })

-- The variables of `cmd_edit`.
pub record Editor : Type 0 where
  pub buf : Memory
  pub len : ℕ
  pub cursor : ℕ
  pub top_row : ℕ
  pub dirty : Bool
  pub quit_pending : Bool
  pub need_redraw : Bool

-- sizeof(buf)
abbrev pub buf_size : ℕ
buf_size = 131072

-- The start of a round: the text is scrolled so that the cursor's row is one of the 24 shown.
unfoldable pub scroll_to_cursor : Editor → Editor
scroll_to_cursor s =
    let crow = (row_col_of_index s.buf s.len s.cursor).row in
    let top = if ltb crow s.top_row then crow else s.top_row in
    let top' = if leb (top + 24) crow then crow - 23 else top in
    record s { top_row = top'; need_redraw = s.need_redraw || not (top' == s.top_row) }

-- A character, or a newline for the enter key, at the cursor.
unfoldable pub insert_char : ℕ → Editor → Editor
insert_char ch s =
    if ltb (s.len + 1) buf_size
    then record s {
      buf = poke (memmove (s.cursor + 1) s.cursor (s.len - s.cursor) s.buf) s.cursor ch;
      cursor = s.cursor + 1;
      len = s.len + 1;
      dirty = true;
      need_redraw = true;
    }
    else s

-- The delete key.
unfoldable pub delete_char : Editor → Editor
delete_char s =
    if ltb s.cursor s.len
    then record s {
      buf = memmove s.cursor (s.cursor + 1) (s.len - s.cursor - 1) s.buf;
      len = s.len - 1;
      dirty = true;
      need_redraw = true;
    }
    else s

unfoldable pub backspace : Editor → Editor
backspace s =
    if ltb 0 s.cursor
    then record s {
      buf = memmove (s.cursor - 1) s.cursor (s.len - s.cursor) s.buf;
      cursor = s.cursor - 1;
      len = s.len - 1;
      dirty = true;
      need_redraw = true;
    }
    else s

unfoldable pub key_up : Editor → Editor
key_up s =
    let p = row_col_of_index s.buf s.len s.cursor in
    if ltb 0 p.row
    then record s { cursor = index_of_row_col s.buf s.len (record p { row = p.row - 1 }) }
    else s

unfoldable pub key_down : Editor → Editor
key_down s =
    let p = row_col_of_index s.buf s.len s.cursor in
    record s { cursor = index_of_row_col s.buf s.len (record p { row = p.row + 1 }) }

-- The keys below the four control keys.
unfoldable pub edit_key : ℕ → Editor → Editor
edit_key key s =
    if key == 0x102
    then if ltb 0 s.cursor then record s { cursor = s.cursor - 1 } else s
    else if key == 0x103
    then if ltb s.cursor s.len then record s { cursor = s.cursor + 1 } else s
    else if key == 0x100
    then key_up s
    else if key == 0x101
    then key_down s
    else if key == 0x104
    then delete_char s
    else if key == 8
    then backspace s
    else if (key == b'\r') || (key == b'\n')
    then insert_char b'\n' s
    else if leb 32 key && ltb key 127
    then insert_char key s
    else s

-- A round of `cmd_edit` after `sys_getkey_nb`, where `saved` is whether SYS_SAVE succeeds: none
-- where the editor is left.
unfoldable pub editor_key : Bool → ℕ → Editor → Option Editor
editor_key saved key s =
    if key == 0
    then some s
    else if key == 17
    then if s.dirty && not s.quit_pending
      then some (record s { quit_pending = true; need_redraw = true })
      else none
    else if key == 19
    then some (record s { dirty = if saved then false else s.dirty; need_redraw = true })
    else if key == 21
    then some (record s { cursor = move_cursor_up s.buf s.len s.cursor 23; need_redraw = true })
    else if key == 4
    then some (record s { cursor = move_cursor_down s.buf s.len s.cursor 23; need_redraw = true })
    else some (edit_key key (record s { quit_pending = false }))
