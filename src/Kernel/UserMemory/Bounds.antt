-- ===== src/Kernel/UserMemory/Bounds.antt =====
-- The ranges that the checks accept, and the windows that never overlap.
use mini_os.Base.{
  ℕ, zero, suc, ◌+◌, ◌-◌, ◌≤◌, ◌<◌, ◌≡◌, ◌≢◌, ◌↔◌, ◌⊎◌, true, [], ◌∷◌, ltb, if◌then◌else◌, some,
  arith, length,
}
use mini_os.Base.Words.{u32_mod}
use mini_os.Base.Bytes.{Memory}
use mini_os.Kernel.Layout.{
  user_fb_offset, user_fb_size, user_space_size, user_mmio_size, user_dma_offset, user_dma_size,
  user_stack_guard_off, err,
}
use mini_os.Kernel.Names.{CString}
use mini_os.Kernel.UserMemory.{
  user_range_ok, copy_str_loop, user_copy_str, Windows, Mapping, sys_sbrk, sys_map_phys,
  sys_dma_alloc,
}

-- The range check accepts exactly the ranges that lie whole in the program's memory or whole in
-- the framebuffer window.
pub user_range_ok_iff :
    (off len : ℕ)
    → (user_range_ok off len ≡ true) ↔ (
        ((off < user_fb_offset) × (off + len ≤ user_fb_offset))
        ⊎ ((user_fb_offset ≤ off)
            × (off < user_fb_offset + user_fb_size)
            × (off + len ≤ user_fb_offset + user_fb_size)))
unfolding user_range_ok
user_range_ok_iff off len = (λ h. ground arith, λ h. ground arith)

copy_str_end : (k : ℕ) (user : Memory) (a : ℕ) → copy_str_loop (suc k) user a ≡ some [] → user a ≡ 0
unfolding copy_str_loop
copy_str_end k user a h = ground arith

copy_str_step :
    (k : ℕ) (user : Memory) (a c : ℕ) (s : CString)
    → copy_str_loop (suc k) user a ≡ some (c ∷ s)
    → (user a ≢ 0) × (c ≡ user a) × (copy_str_loop k user (a + 1) ≡ some s)
unfolding copy_str_loop
copy_str_step k user a c s h = ground arith

-- The string that ends at `n` in memory.
abbrev pub StringAt : Memory → ℕ → CString → Type 0
StringAt user a [] = user a ≡ 0
StringAt user a (c ∷ s) = (user a ≢ 0) × (c ≡ user a) × StringAt user (a + 1) s

copy_str_loop_lem :
    (k : ℕ) (user : Memory) (a : ℕ) (s : CString)
    → copy_str_loop k user a ≡ some s
    → (length s < k) × StringAt user a s
copy_str_loop_lem zero user a s h = absurd (no_rounds h)
  where
    no_rounds : copy_str_loop 0 user a ≡ some s → ⊥
    no_rounds e = unfold copy_str_loop in cc
copy_str_loop_lem (suc k) user a [] h = (omega arith, copy_str_end k user a h)
copy_str_loop_lem (suc k) user a (c ∷ s) h =
    let (live, same, tail) = copy_str_step k user a c s h in
    let ih = copy_str_loop_lem k user (a + 1) s tail in (omega (arith, ih.0), (live, same, ih.1))

copy_str_loop_complete :
    (k : ℕ) (user : Memory) (a : ℕ) (s : CString)
    → length s < k
    → StringAt user a s
    → copy_str_loop k user a ≡ some s
unfolding copy_str_loop
copy_str_loop_complete zero user a s lt h = absurd (omega arith)
copy_str_loop_complete (suc k) user a [] lt h = ground arith
copy_str_loop_complete (suc k) user a (c ∷ s) lt h =
    ground (arith, copy_str_loop_complete k user (a + 1) s (omega arith) h.2)

-- The copy of a string argument succeeds exactly when a string shorter than the buffer starts at
-- the address and ends inside the user segment, and it is that string.
pub user_copy_str_iff :
    (user : Memory) (off max : ℕ) (s : CString)
    → (user_copy_str user off max ≡ some s)
      ↔ ((length s < max - 1) × (off + length s < user_space_size) × StringAt user off s)
unfolding user_copy_str
user_copy_str_iff user off max s =
    let limit = if ltb (max - 1) (user_space_size - off) then max - 1 else user_space_size - off in
    (
      λ h. ground (arith, copy_str_loop_lem limit user off s),
      λ h. ground (arith, copy_str_loop_complete limit user off s),
    )

-- The counters stay in their bands.
pub record IsValid (w : Windows) : Type 0 where
  pub brk : w.user_brk_off ≤ user_stack_guard_off
  pub mmio : w.user_mmio_used ≤ user_mmio_size
  pub dma : w.user_dma_used ≤ user_dma_size

pub sys_sbrk-IsValid :
    (inc : ℕ) {w : Windows} → IsValid w → inc < u32_mod → IsValid (sys_sbrk inc w).1
unfolding sys_sbrk
sys_sbrk-IsValid inc {w} v h = ground arith

-- On a valid heap, SYS_SBRK grants a 32-bit request exactly when the heap stays below the stack's
-- guard page: it then returns the old end and moves the end up by the request; otherwise it
-- returns -1 and changes nothing.
pub sys_sbrk_lem :
    (inc : ℕ) (w : Windows)
    → IsValid w
    → inc < u32_mod
    → ((w.user_brk_off + inc ≤ user_stack_guard_off)
        × (sys_sbrk inc w ≡ (w.user_brk_off, record w { user_brk_off = w.user_brk_off + inc })))
      ⊎ ((user_stack_guard_off < w.user_brk_off + inc) × (sys_sbrk inc w ≡ (err, w)))
unfolding sys_sbrk
sys_sbrk_lem inc w v h = ground arith

pub sys_map_phys-IsValid :
    (phys size : ℕ) {w : Windows} → IsValid w → IsValid (sys_map_phys phys size w).2
unfolding sys_map_phys
sys_map_phys-IsValid phys size {w} v = ground arith

pub sys_dma_alloc-IsValid :
    (bytes out : ℕ) {w : Windows} → IsValid w → IsValid (sys_dma_alloc bytes out w).2
unfolding sys_dma_alloc
sys_dma_alloc-IsValid bytes out {w} v = ground arith

-- On valid windows, a granted DMA block lies in the DMA window at the old mark, is not empty and
-- covers the request, and the mark moves to its end.
pub sys_dma_alloc-fresh :
    (bytes out : ℕ) (w : Windows) (m : Mapping)
    → IsValid w
    → bytes < u32_mod
    → (sys_dma_alloc bytes out w).1 ≡ some m
    → (m.virt ≡ user_dma_offset + w.user_dma_used)
      × (bytes ≤ m.size)
      × (0 < m.size)
      × ((sys_dma_alloc bytes out w).2.user_dma_used ≡ w.user_dma_used + m.size)
      × (m.virt + m.size ≤ user_space_size)
unfolding sys_dma_alloc
sys_dma_alloc-fresh bytes out w m v h e = ground arith
