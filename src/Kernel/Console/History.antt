-- ===== src/Kernel/Console/History.antt =====
-- The scrollback ring as a list of lines, oldest first (kernel/kernel.c).
use mini_os.Base.{
  ℕ, ◌+◌, ◌-◌, ◌*◌, ◌%◌, ◌≤◌, ◌<◌, ◌≡◌, ◌≢◌, ◌⊎◌, inl, inr, refl, sym, ap, ◌∙◌, ◌==◌, ltb,
  if◌then◌else◌, arith, Bool-cases,
}
use mini_os.Base.Bytes.{copy}
use mini_os.Kernel.Console.{Console, cell_cols, hist_rows, fb_scroll}

-- Column `c` of stored line `i`, counted from the oldest.
abbrev pub hist_line : Console → ℕ → ℕ → ℕ
hist_line s i c = s.hist ((s.hist_next + hist_rows - s.hist_count + i) % hist_rows * cell_cols + c)

-- The ring is in order.
abbrev pub IsRing : Console → Type 0
IsRing s = (s.hist_next < hist_rows) × (s.hist_count ≤ hist_rows)

-- Cell `c` of a slot, after a line is stored in another one.
slot_kept :
    (s : Console) (slot c : ℕ)
    → c < cell_cols
    → slot ≢ s.hist_next
    → (fb_scroll s).hist (slot * cell_cols + c) ≡ s.hist (slot * cell_cols + c)
unfolding fb_scroll copy
slot_kept s slot c lt ne = ground arith

slot_new :
    (s : Console) (c : ℕ)
    → c < cell_cols
    → (fb_scroll s).hist (s.hist_next * cell_cols + c) ≡ s.cells c
unfolding fb_scroll copy
slot_new s c lt = ground arith

same_slot :
    (s : Console) (i : ℕ)
    → IsRing s
    → i + 1 < (fb_scroll s).hist_count
    → ((fb_scroll s).hist_next + hist_rows - (fb_scroll s).hist_count + i) % hist_rows
      ≡ (s.hist_next
          + hist_rows
          - s.hist_count
          + (i + (s.hist_count + 1 - (fb_scroll s).hist_count)))
        % hist_rows
unfolding fb_scroll
same_slot s i v lt = ground arith

other_slot :
    (s : Console) (i : ℕ)
    → IsRing s
    → i < s.hist_count
    → s.hist_count < hist_rows ⊎ (0 < i)
    → (s.hist_next + hist_rows - s.hist_count + i) % hist_rows ≢ s.hist_next
other_slot s i v lt some_room = ground arith

last_slot :
    (s : Console) (i : ℕ)
    → IsRing s
    → i + 1 ≡ (fb_scroll s).hist_count
    → ((fb_scroll s).hist_next + hist_rows - (fb_scroll s).hist_count + i) % hist_rows ≡ s.hist_next
unfolding fb_scroll
last_slot s i v e = ground arith

newest :
    (s : Console) (i c : ℕ)
    → IsRing s
    → c < cell_cols
    → i + 1 ≡ (fb_scroll s).hist_count
    → hist_line (fb_scroll s) i c ≡ s.cells c
newest s i c v lt e =
    ap (λ n. (fb_scroll s).hist (n * cell_cols + c)) (last_slot s i v e) ∙ slot_new s c lt

room :
    (s : Console) (i : ℕ)
    → IsRing s
    → i + 1 < (fb_scroll s).hist_count
    → (i + (s.hist_count + 1 - (fb_scroll s).hist_count) < s.hist_count)
      × (s.hist_count < hist_rows ⊎ 0 < i + (s.hist_count + 1 - (fb_scroll s).hist_count))
unfolding fb_scroll
room s i v lt = elim (Bool-cases (ltb s.hist_count hist_rows)) [
  | inl e ↦ (ground arith, inl (ground arith))
  | inr e ↦ (ground arith, inr (ground arith))
]

older :
    (s : Console) (i c : ℕ)
    → IsRing s
    → c < cell_cols
    → i + 1 < (fb_scroll s).hist_count
    → hist_line (fb_scroll s) i c
      ≡ hist_line s (i + (s.hist_count + 1 - (fb_scroll s).hist_count)) c
older s i c v lt e =
    let r = room s i v e in
    ap (λ n. (fb_scroll s).hist (n * cell_cols + c)) (same_slot s i v e)
    ∙ slot_kept s _ c lt (other_slot s _ v r.0 r.1)

count_grows :
    (s : Console)
    → IsRing s
    → (fb_scroll s).hist_count
      ≡ (if ltb s.hist_count hist_rows then s.hist_count + 1 else hist_rows)
unfolding fb_scroll
count_grows s v = ground arith

-- On a ring that is in order, a scroll adds a line to the history until it holds 512, which it then
-- does: the history is the old one, without its oldest line where it held 512, followed by the row
-- that left the screen.
pub fb_scroll-hist_line :
    (s : Console) (i c : ℕ)
    → IsRing s
    → c < cell_cols
    → i < (fb_scroll s).hist_count
    → ((fb_scroll s).hist_count
        ≡ (if ltb s.hist_count hist_rows then s.hist_count + 1 else hist_rows))
      × (hist_line (fb_scroll s) i c ≡ (
          if i + 1 == (fb_scroll s).hist_count
          then s.cells c
          else hist_line s (i + (s.hist_count + 1 - (fb_scroll s).hist_count)) c))
fb_scroll-hist_line s i c v lt held = (
  count_grows s v,
  elim (Bool-cases (i + 1 == (fb_scroll s).hist_count)) [
    | inl e ↦ newest s i c v lt (ground arith) ∙ sym (rw e refl)
    | inr e ↦ older s i c v lt (ground arith) ∙ sym (rw e refl)
  ],
)
