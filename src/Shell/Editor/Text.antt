-- ===== src/Shell/Editor/Text.antt =====
-- The text before and behind the cursor, and what an edit does to it (user/sh.c).
use mini_os.Base.{
  ℕ, ◌+◌, ◌-◌, ◌≤◌, ◌<◌, ◌≡◌, ◌⊎◌, inl, inr, sym, ap, ◌∙◌, true, ltb, if◌then◌else◌, arith, List,
  [], ◌∷◌, ◌++◌,
}
use mini_os.Base.Bytes.{Memory, poke, read_bytes, read_bytes-same, read_bytes-last}
use mini_os.Libc.Strings.{memmove}
use mini_os.Libc.Strings.Move.{memmove_lem}
use mini_os.Shell.Editor.{Editor, buf_size, insert_char, delete_char, backspace}

-- The characters before the cursor and those from it on.
abbrev pub before : Editor → List ℕ
before s = read_bytes s.buf 0 s.cursor

abbrev pub behind : Editor → List ℕ
behind s = read_bytes s.buf s.cursor (s.len - s.cursor)

read_bytes-first : (n a : ℕ) (m : Memory) → read_bytes m a (n + 1) ≡ m a ∷ read_bytes m (a + 1) n
unfolding read_bytes
read_bytes-first n a m = ground arith

-- The bytes of the text after a move of its end by one, up or down.
moved_up :
    (c n p : ℕ) (m : Memory) (v : ℕ)
    → (p < c) ⊎ ((c < p) × (p ≤ c + n))
    → poke (memmove (c + 1) c n m) c v p ≡ (if ltb p c then m p else m (p - 1))
unfolding poke
moved_up c n p m v where_p = ground (arith, memmove_lem (c + 1) c n p m)

moved_down :
    (c n p : ℕ) (m : Memory)
    → p < c + n
    → memmove c (c + 1) n m p ≡ (if ltb p c then m p else m (p + 1))
moved_down c n p m lt = ground (arith, memmove_lem c (c + 1) n p m)

put_last :
    (c n : ℕ) (m : Memory) (v : ℕ)
    → read_bytes (poke (memmove (c + 1) c n m) c v) 0 c
        ++ (poke (memmove (c + 1) c n m) c v (0 + c) ∷ [])
      ≡ read_bytes m 0 c ++ (v ∷ [])
unfolding poke
put_last c n m v = ground (
  arith,
  read_bytes-same c 0 0 (poke (memmove (c + 1) c n m) c v) m
      (λ p q le lt e. ground (arith, moved_up c n p m v (inl (omega arith)))),
)

put_behind :
    (c n : ℕ) (m : Memory) (v : ℕ)
    → read_bytes (poke (memmove (c + 1) c n m) c v) (c + 1) n ≡ read_bytes m c n
put_behind c n m v =
    read_bytes-same n (c + 1) c (poke (memmove (c + 1) c n m) c v) m
      (λ p q le lt e. ground (arith, moved_up c n p m v (inr (omega arith, omega arith))))

inserted :
    (ch : ℕ) (s : Editor)
    → s.len + 1 < buf_size
    → insert_char ch s ≡ record s {
      buf = poke (memmove (s.cursor + 1) s.cursor (s.len - s.cursor) s.buf) s.cursor ch;
      cursor = s.cursor + 1;
      len = s.len + 1;
      dirty = true;
      need_redraw = true;
    }
unfolding insert_char
inserted ch s room = ground arith

-- A character put in stands before the cursor, and all others stay as they were.
insert_char-before :
    (ch : ℕ) (s : Editor)
    → s.cursor ≤ s.len
    → s.len + 1 < buf_size
    → (before (insert_char ch s) ≡ before s ++ (ch ∷ [])) × (behind (insert_char ch s) ≡ behind s)
insert_char-before ch s le room = rw (inserted ch s room) (
  read_bytes-last s.cursor 0 _ ∙ put_last s.cursor (s.len - s.cursor) s.buf ch,
  ap (read_bytes _ (s.cursor + 1)) (omega arith) ∙ put_behind s.cursor (s.len - s.cursor) s.buf ch,
)

cut_before : (c n : ℕ) (m : Memory) → read_bytes (memmove c (c + 1) n m) 0 c ≡ read_bytes m 0 c
cut_before c n m =
    read_bytes-same c 0 0 (memmove c (c + 1) n m) m
      (λ p q le lt e. ground (arith, moved_down c n p m (omega arith)))

cut_behind :
    (c n : ℕ) (m : Memory) → read_bytes (memmove c (c + 1) n m) c n ≡ read_bytes m (c + 1) n
cut_behind c n m =
    read_bytes-same n c (c + 1) (memmove c (c + 1) n m) m
      (λ p q le lt e. ground (arith, moved_down c n p m (omega arith)))

deleted :
    (s : Editor)
    → s.cursor < s.len
    → delete_char s ≡ record s {
      buf = memmove s.cursor (s.cursor + 1) (s.len - s.cursor - 1) s.buf;
      len = s.len - 1;
      dirty = true;
      need_redraw = true;
    }
unfolding delete_char
deleted s lt = ground arith

-- The delete key takes away the character at the cursor.
delete_char-behind :
    (s : Editor)
    → s.cursor < s.len
    → (before (delete_char s) ≡ before s) × (behind s ≡ s.buf s.cursor ∷ behind (delete_char s))
delete_char-behind s lt =
    let n = s.len - s.cursor - 1 in
    rw (deleted s lt) (
      cut_before s.cursor n s.buf,
      ap (read_bytes s.buf s.cursor) (omega arith)
          ∙ read_bytes-first n s.cursor s.buf
          ∙ ap (s.buf s.cursor ∷◌)
              (sym (cut_behind s.cursor n s.buf) ∙ ap (read_bytes _ s.cursor) (omega arith)),
    )

erased :
    (s : Editor)
    → 0 < s.cursor
    → backspace s ≡ record s {
      buf = memmove (s.cursor - 1) s.cursor (s.len - s.cursor) s.buf;
      cursor = s.cursor - 1;
      len = s.len - 1;
      dirty = true;
      need_redraw = true;
    }
unfolding backspace
erased s lt = ground arith

erase_lem :
    (c n : ℕ) (m : Memory)
    → (read_bytes m 0 (c + 1) ≡ read_bytes (memmove c (c + 1) n m) 0 c ++ (m c ∷ []))
      × (read_bytes (memmove c (c + 1) n m) c n ≡ read_bytes m (c + 1) n)
erase_lem c n m = (read_bytes-last c 0 m ∙ ground (arith, cut_before c n m), cut_behind c n m)

backspace-before :
    (s : Editor)
    → 0 < s.cursor
    → s.cursor ≤ s.len
    → (before s ≡ before (backspace s) ++ (s.buf (s.cursor - 1) ∷ []))
      × (behind (backspace s) ≡ behind s)
backspace-before s pos le =
    let c : s.cursor ≡ s.cursor - 1 + 1 = omega arith in
    let r = erase_lem (s.cursor - 1) (s.len - s.cursor) s.buf in
    rw (erased s pos) (
      ap (read_bytes s.buf 0) c
          ∙ r.0
          ∙ ap
              (λ k.
                read_bytes (memmove (s.cursor - 1) k (s.len - s.cursor) s.buf) 0 (s.cursor - 1)
                ++ (s.buf (s.cursor - 1) ∷ []))
              (sym c),
      ap
            (λ k.
              read_bytes (memmove (s.cursor - 1) k (s.len - s.cursor) s.buf) (s.cursor - 1)
                (s.len - 1 - (s.cursor - 1)))
            c
          ∙ ap (read_bytes _ (s.cursor - 1)) (omega arith)
          ∙ r.1
          ∙ ap (λ k. read_bytes s.buf k (s.len - s.cursor)) (sym c),
    )

-- The edits are those of the two lists of characters before and from the cursor on, where the text
-- is not full and there are characters on both sides: a character put in becomes the last one before
-- the cursor; the delete key takes away the first one from it on; the backspace takes away the last
-- one before it; and all other characters stay as they were.
pub edits_lem :
    (ch : ℕ) (s : Editor)
    → s.len + 1 < buf_size
    → s.cursor < s.len
    → 0 < s.cursor
    → (before (insert_char ch s) ≡ before s ++ (ch ∷ []))
      × (behind (insert_char ch s) ≡ behind s)
      × (before (delete_char s) ≡ before s)
      × (behind s ≡ s.buf s.cursor ∷ behind (delete_char s))
      × (before s ≡ before (backspace s) ++ (s.buf (s.cursor - 1) ∷ []))
      × (behind (backspace s) ≡ behind s)
edits_lem ch s room lt pos =
    let i = insert_char-before ch s (omega arith) room in
    let d = delete_char-behind s lt in
    let b = backspace-before s pos (omega arith) in (i.0, i.1, d.0, d.1, b.0, b.1)
