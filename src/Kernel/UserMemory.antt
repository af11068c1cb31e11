-- ===== src/Kernel/UserMemory.antt =====
-- The program's address space as the kernel checks and hands it out (kernel/kernel.c). Addresses
-- are offsets in the user segment; every number is a uint32_t.
pub mod Bounds
mod Tests
use mini_os.Base.{
  ℕ, zero, suc, ◌+◌, ◌-◌, Bool, true, false, not, ◌&&◌, ◌||◌, List, [], ◌∷◌, ◌==◌, ltb, leb,
  if◌then◌else◌, Option, none, some, ◌%◌, ◌*◌,
}
use mini_os.Base.Words.{add32, sub32, page_up}
use mini_os.Base.Bytes.{Memory}
use mini_os.Kernel.Layout.{
  user_fb_offset, user_fb_size, user_space_size, user_mmio_offset, user_mmio_size, user_dma_offset,
  user_dma_size, user_stack_guard_off, err,
}
use mini_os.Kernel.Names.{CString}

unfoldable pub user_range_ok : ℕ → ℕ → Bool
user_range_ok off len =
    if ltb off user_fb_offset
    then not (ltb (user_fb_offset - off) len)
    else let fb_off = off - user_fb_offset in
      if leb user_fb_size fb_off then false else not (ltb (user_fb_size - fb_off) len)

-- The loop of `user_copy_str` with `k` rounds left: the string, or `none` where no 0 is met.
unfoldable pub copy_str_loop : ℕ → Memory → ℕ → Option CString
copy_str_loop zero user a = none
copy_str_loop (suc k) user a =
    let rest = copy_str_loop k user (a + 1) in
    if user a == 0 then some [] else elim rest [ none ↦ none | some s ↦ some (user a ∷ s) ]

-- `none` is the return value 0; what is left in `dst` then is not used by any caller.
unfoldable pub user_copy_str : Memory → ℕ → ℕ → Option CString
unfolding copy_str_loop
user_copy_str user off max =
    if max == 0
    then none
    else if leb user_space_size off
    then none
    else let limit = user_space_size - off in
      copy_str_loop (if ltb (max - 1) limit then max - 1 else limit) user off

-- The counters of the heap and of the two windows.
pub record Windows : Type 0 where
  pub user_brk_off : ℕ
  pub user_mmio_used : ℕ
  pub user_dma_used : ℕ
  pub dma_arena_base : ℕ

-- SYS_SBRK. The subtraction is of uint32_t.
unfoldable pub sys_sbrk : ℕ → Windows → ℕ × Windows
sys_sbrk inc w =
    if ltb (sub32 user_stack_guard_off w.user_brk_off) inc
    then (err, w)
    else (w.user_brk_off, record w { user_brk_off = add32 w.user_brk_off inc })

-- The pages that a call maps: user address, physical address and bytes.
pub record Mapping : Type 0 where
  pub virt : ℕ
  pub phys : ℕ
  pub size : ℕ

-- SYS_MAP_PHYS: the mapping that `map_phys_at` is called for, if any. `phys` is 64 bits wide.
unfoldable pub sys_map_phys : ℕ → ℕ → Windows → ℕ × Option Mapping × Windows
sys_map_phys phys size w =
    if (size == 0) || ltb user_mmio_size size
    then (err, none, w)
    else let page_off = phys % 4096 in
      let span = page_up (add32 page_off size) in
      if ltb (sub32 user_mmio_size w.user_mmio_used) span
      then (err, none, w)
      else let virt = add32 user_mmio_offset w.user_mmio_used in
        (
          add32 virt page_off,
          some (record { virt = virt; phys = phys; size = size }),
          record w { user_mmio_used = add32 w.user_mmio_used span },
        )

-- SYS_DMA_ALLOC: the two words stored at `out` are the mapping's addresses.
unfoldable pub sys_dma_alloc : ℕ → ℕ → Windows → ℕ × Option Mapping × Windows
unfolding user_range_ok
sys_dma_alloc bytes out w =
    let size = page_up bytes in
    if (size == 0) || ltb user_dma_size size
    then (err, none, w)
    else if ltb (sub32 user_dma_size w.user_dma_used) size
    then (err, none, w)
    else if not (user_range_ok out 8)
    then (err, none, w)
    else (
      0,
      some (record {
        virt = add32 user_dma_offset w.user_dma_used;
        phys = add32 w.dma_arena_base w.user_dma_used;
        size = size;
      }),
      record w { user_dma_used = add32 w.user_dma_used size },
    )
