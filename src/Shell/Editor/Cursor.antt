-- ===== src/Shell/Editor/Cursor.antt =====
-- A position of the text and its cell on the screen (user/sh.c).
use mini_os.Base.{ℕ, zero, suc, ◌+◌, ◌≤◌, ◌<◌, ◌≡◌, ◌⊎◌, inr, refl, arith}
use mini_os.Base.Bytes.{Memory}
use mini_os.Shell.Editor.{
  Cell, advance, walk, origin, row_col_of_index, cell_from, index_of_row_col,
}

-- After `j` characters the row is further down, or it is the same and the column `j` further on.
walk-ahead :
    (j i : ℕ) (buf : Memory) (p : Cell)
    → (p.row < (walk j buf i p).row)
      ⊎ ((p.row ≡ (walk j buf i p).row) × (p.col + j ≡ (walk j buf i p).col))
unfolding walk advance
walk-ahead zero i buf p = inr (refl, omega arith)
walk-ahead (suc j) i buf p = ground (arith, walk-ahead j (i + 1) buf (advance (buf i) p))

cell_from-walk :
    (n j i : ℕ) (buf : Memory) (p : Cell) → j ≤ n → cell_from n buf i (walk j buf i p) p ≡ i + j
unfolding cell_from walk advance
cell_from-walk zero zero i buf p le = omega arith
cell_from-walk zero (suc j) i buf p le = absurd (omega arith)
cell_from-walk (suc n) zero i buf p le = ground arith
cell_from-walk (suc n) (suc j) i buf p le = ground (
  arith,
  cell_from-walk n j (i + 1) buf (advance (buf i) p) (omega arith),
  walk-ahead j (i + 1) buf (advance (buf i) p),
)

-- Every position of the text, its end too, is the one found at its own row and column.
pub index_of_row_col-row_col_of_index :
    (buf : Memory) (len idx : ℕ)
    → idx ≤ len
    → index_of_row_col buf len (row_col_of_index buf len idx) ≡ idx
unfolding index_of_row_col row_col_of_index
index_of_row_col-row_col_of_index buf len idx le =
    ground (arith, cell_from-walk len idx 0 buf origin le, walk-ahead idx 0 buf origin)

cell_from-le : (k i : ℕ) (buf : Memory) (target p : Cell) → cell_from k buf i target p ≤ i + k
unfolding cell_from
cell_from-le zero i buf target p = omega arith
cell_from-le (suc k) i buf target p =
    ground (arith, cell_from-le k (i + 1) buf target (advance (buf i) p))

-- What is found lies in the text.
pub index_of_row_col-le :
    (buf : Memory) (len : ℕ) (target : Cell) → index_of_row_col buf len target ≤ len
unfolding index_of_row_col
index_of_row_col-le buf len target = ground (arith, cell_from-le len 0 buf target origin)
