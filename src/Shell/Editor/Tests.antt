-- ===== src/Shell/Editor/Tests.antt =====
-- Runs of the editor on the text "ab", a newline and "c".
use mini_os.Base.{ℕ, ◌-◌, ◌≡◌, refl, true, false, arith, [], ◌∷◌, ◌++◌}
use mini_os.Base.Bytes.{Memory, of_list}
use mini_os.Shell.Editor.{
  Editor, row_col_of_index, walk, advance, index_of_row_col, insert_char, delete_char, backspace,
}
use mini_os.Shell.Editor.Cursor.{index_of_row_col-row_col_of_index}
use mini_os.Shell.Editor.Text.{before, behind, edits_lem}

abbrev lines : Memory
lines = of_list (b'a' ∷ b'b' ∷ b'\n' ∷ b'c' ∷ [])

abbrev editing : Editor
editing = record {
  buf = lines;
  len = 4;
  cursor = 3;
  top_row = 0;
  dirty = true;
  quit_pending = false;
  need_redraw = false;
}

c_cell : row_col_of_index lines 4 3 ≡ record { row = 1; col = 0 }
unfolding row_col_of_index walk advance of_list
c_cell = refl

index_of_row_col-row_col_of_index_example :
    index_of_row_col lines 4 (row_col_of_index lines 4 3) ≡ 3
index_of_row_col-row_col_of_index_example =
    index_of_row_col-row_col_of_index lines 4 3 (omega arith)

edits_lem_example :
    (before (insert_char b'x' editing) ≡ before editing ++ (b'x' ∷ []))
    × (behind (insert_char b'x' editing) ≡ behind editing)
    × (before (delete_char editing) ≡ before editing)
    × (behind editing ≡ editing.buf editing.cursor ∷ behind (delete_char editing))
    × (before editing ≡ before (backspace editing) ++ (editing.buf (editing.cursor - 1) ∷ []))
    × (behind (backspace editing) ≡ behind editing)
edits_lem_example = edits_lem b'x' editing (omega arith) (omega arith) (omega arith)

-- Ctrl+Q
abbrev editing_key : ℕ
editing_key = 17
