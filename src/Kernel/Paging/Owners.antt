-- ===== src/Kernel/Paging/Owners.antt =====
-- Which page is which: the root, the four directories and the tables are apart (kernel/kernel.c).
use mini_os.Base.{
  ℕ, ◌+◌, ◌/◌, ◌%◌, ◌≤◌, ◌<◌, ◌≡◌, ◌≢◌, ◌⊎◌, inl, inr, sym, ap, ◌∙◌, arith, ℕ_discrete, dec_lt,
}
use mini_os.Base.Words.{add32, u32_mod}
use mini_os.Base.Bytes.{Memory, fill, poke, fill_outside}
use mini_os.Kernel.Paging.{Tables, frame, slot, pde_flags}

-- The directory entry for the 2 MB region `n`.
abbrev pub pde : ℕ → ℕ → Tables → ℕ
pde pdpt n t = t.entry (slot (frame (t.entry (slot pdpt (n / 512)))) (n % 512))

-- `own` names the use of each frame: 0 for none, 1 for the root, 2 + i for directory i, 6 + n for
-- the table of region n. The frames from `phys_free` on have none.
pub record AreApart (pdpt : ℕ) (t : Tables) (own : ℕ → ℕ) : Type 0 where
  pub root : own pdpt ≡ 1
  pub dirs : (i : ℕ) → i < 4 → own (frame (t.entry (slot pdpt i))) ≡ 2 + i
  pub tables : (n : ℕ) → n < 2048 → pde pdpt n t % 2 ≡ 1 → own (frame (pde pdpt n t)) ≡ 6 + n
  pub unused : (f : ℕ) → t.phys_free / 4096 ≤ f → own f ≡ 0
  pub aligned : t.phys_free % 4096 ≡ 0
  pub low : t.phys_free < u32_mod

-- An entry in another page, or another entry of the page, keeps its value.
pub poke-slot :
    (m : Memory) (f k g j v : ℕ)
    → k < 512
    → j < 512
    → (f ≢ g) ⊎ (k ≢ j)
    → poke m (slot f k) v (slot g j) ≡ m (slot g j)
unfolding poke
poke-slot m f k g j v lt small (inl ne) = ground arith
poke-slot m f k g j v lt small (inr ne) = ground arith

pub poke-slot_self : (m : Memory) (f k v : ℕ) → poke m (slot f k) v (slot f k) ≡ v
unfolding poke
poke-slot_self m f k v = ground arith

fill-slot :
    (m : Memory) (p g j : ℕ)
    → p % 4096 ≡ 0
    → j < 512
    → g ≢ p / 4096
    → fill m p 0 4096 (slot g j) ≡ m (slot g j)
fill-slot m p g j e lt ne = fill_outside m p 0 4096 (slot g j) (apart (dec_lt g (p / 4096)))
  where
    apart : Dec (g < p / 4096) → (slot g j < p) ⊎ (p + 4096 ≤ slot g j)
    apart (yes lo) = inl (omega arith)
    apart (no hi) = inr (omega arith)

fill-slot_self :
    (m : Memory) (p j : ℕ) → p % 4096 ≡ 0 → j < 512 → fill m p 0 4096 (slot (p / 4096) j) ≡ 0
unfolding fill
fill-slot_self m p j e lt = ground arith

-- Frames with different uses are different.
pub frame_ne : (own : ℕ → ℕ) (f g a b : ℕ) → own f ≡ a → own g ≡ b → a ≢ b → f ≢ g
frame_ne own f g a b e h ne same = ne (sym e ∙ ap own same ∙ h)

-- The directory of region `n`.
abbrev pub dir_of : ℕ → ℕ → Tables → ℕ
dir_of pdpt n t = frame (t.entry (slot pdpt (n / 512)))

-- A directory entry is written, after a new page is cleared.
abbrev pub table_added : ℕ → ℕ → ℕ → Tables → Tables
table_added pdpt n flags t = record {
  entry =
      poke (fill t.entry t.phys_free 0 4096) (slot (dir_of pdpt n t) (n % 512))
        (t.phys_free + pde_flags flags);
  phys_free = add32 t.phys_free 4096;
}

module _ (pdpt n flags : ℕ) (t : Tables) (own : ℕ → ℕ) (a : AreApart pdpt t own)
    (lt : n < 2048) where
  pub private_frame : (f u : ℕ) → own f ≡ u → u ≢ 0 → f ≢ t.phys_free / 4096
  private_frame f u e ne =
      frame_ne own f (t.phys_free / 4096) u 0 e (a.unused (t.phys_free / 4096) (omega arith)) ne

  pub added-dir :
      (i : ℕ) → i < 4 → (table_added pdpt n flags t).entry (slot pdpt i) ≡ t.entry (slot pdpt i)
  added-dir i small =
      poke-slot (fill t.entry t.phys_free 0 4096) (dir_of pdpt n t) (n % 512) pdpt i
        (t.phys_free + pde_flags flags) (omega arith) (omega arith)
        (inl (
          frame_ne own (dir_of pdpt n t) pdpt (2 + n / 512) 1 (a.dirs (n / 512) (omega arith))
            a.root (omega arith)))
      ∙ fill-slot t.entry t.phys_free pdpt i a.aligned (omega arith)
          (private_frame pdpt 1 a.root (omega arith))

  same_dir : (m : ℕ) → m < 2048 → dir_of pdpt m (table_added pdpt n flags t) ≡ dir_of pdpt m t
  same_dir m small = ap frame (added-dir (m / 512) (omega arith))

  other_slot :
      (m : ℕ) → m < 2048 → m ≢ n → (dir_of pdpt n t ≢ dir_of pdpt m t) ⊎ (n % 512 ≢ m % 512)
  other_slot m small ne = elim (ℕ_discrete (n / 512) (m / 512)) [
    | yes e ↦ inr (λ k. ne (omega arith))
    | no d ↦ inl (
        frame_ne own (dir_of pdpt n t) (dir_of pdpt m t) (2 + n / 512) (2 + m / 512)
          (a.dirs (n / 512) (omega arith)) (a.dirs (m / 512) (omega arith)) (λ k. d (omega arith)))
  ]

  pub added-pde :
      (m : ℕ) → m < 2048 → m ≢ n → pde pdpt m (table_added pdpt n flags t) ≡ pde pdpt m t
  added-pde m small ne =
      ap (λ f. (table_added pdpt n flags t).entry (slot f (m % 512))) (same_dir m small)
      ∙ poke-slot (fill t.entry t.phys_free 0 4096) (dir_of pdpt n t) (n % 512) (dir_of pdpt m t)
          (m % 512) (t.phys_free + pde_flags flags) (omega arith) (omega arith)
          (other_slot m small ne)
      ∙ fill-slot t.entry t.phys_free (dir_of pdpt m t) (m % 512) a.aligned (omega arith) (
          private_frame (dir_of pdpt m t) (2 + m / 512) (a.dirs (m / 512) (omega arith))
            (omega arith))

  pub added-pde_self : pde pdpt n (table_added pdpt n flags t) ≡ t.phys_free + pde_flags flags
  added-pde_self =
      ap (λ f. (table_added pdpt n flags t).entry (slot f (n % 512))) (same_dir n lt)
      ∙ poke-slot_self (fill t.entry t.phys_free 0 4096) (dir_of pdpt n t) (n % 512)
          (t.phys_free + pde_flags flags)

  pub added-pte :
      (m k : ℕ)
      → m < 2048
      → k < 512
      → pde pdpt m t % 2 ≡ 1
      → (table_added pdpt n flags t).entry (slot (frame (pde pdpt m t)) k)
        ≡ t.entry (slot (frame (pde pdpt m t)) k)
  added-pte m k small few present =
      let own_m = a.tables m small present in
      poke-slot (fill t.entry t.phys_free 0 4096) (dir_of pdpt n t) (n % 512) (frame (pde pdpt m t))
        k (t.phys_free + pde_flags flags) (omega arith) few
        (inl (
          frame_ne own (dir_of pdpt n t) (frame (pde pdpt m t)) (2 + n / 512) (6 + m)
            (a.dirs (n / 512) (omega arith)) own_m (omega arith)))
      ∙ fill-slot t.entry t.phys_free (frame (pde pdpt m t)) k a.aligned few
          (private_frame (frame (pde pdpt m t)) (6 + m) own_m (omega arith))

  pub added-pte_self :
      (k : ℕ) → k < 512 → (table_added pdpt n flags t).entry (slot (t.phys_free / 4096) k) ≡ 0
  added-pte_self k few =
      poke-slot (fill t.entry t.phys_free 0 4096) (dir_of pdpt n t) (n % 512) (t.phys_free / 4096) k
        (t.phys_free + pde_flags flags) (omega arith) few
        (inl (
          private_frame (dir_of pdpt n t) (2 + n / 512) (a.dirs (n / 512) (omega arith))
            (omega arith)))
      ∙ fill-slot_self t.entry t.phys_free k a.aligned few
