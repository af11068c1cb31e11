-- ===== src/Shell/Editor/Keys.antt =====
-- Every key keeps the cursor in the text and the text in its buffer (user/sh.c).
use mini_os.Base.{ℕ, ◌+◌, ◌≤◌, ◌<◌, ◌≡◌, Bool, ◌&&◌, ◌||◌, ◌==◌, arith, Option, none, some}
use mini_os.Shell.Editor.{Editor, buf_size, row_col_of_index, scroll_to_cursor}

abbrev pub IsValid : Editor → Type 0
IsValid s = (s.cursor ≤ s.len) × (s.len < buf_size)

abbrev pub IsValidSome : Option Editor → Type 0
IsValidSome none = Unit
IsValidSome (some s) = IsValid s

-- Whether a Ctrl+Q waits for its repetition behind a key: the first one does, and a save, a move by
-- a page, and a round without a key leave it waiting.
abbrev pub waits : ℕ → Bool → Bool
waits key before =
    (key == 17) || (((key == 0) || (key == 19) || (key == 21) || (key == 4)) && before)

abbrev pub Waits : ℕ → Bool → Option Editor → Type 0
Waits key before none = Unit
Waits key before (some t) = t.quit_pending ≡ waits key before

-- After the start of a round, the cursor's row is one of the 24 shown.
pub scroll_to_cursor_lem :
    (s : Editor)
    → let t = scroll_to_cursor s in
      let crow = (row_col_of_index t.buf t.len t.cursor).row in
      (t.top_row ≤ crow) × (crow < t.top_row + 24)
unfolding scroll_to_cursor
scroll_to_cursor_lem s = ground arith
