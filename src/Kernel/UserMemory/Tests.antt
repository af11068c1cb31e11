-- ===== src/Kernel/UserMemory/Tests.antt =====
-- A program's memory and windows (kernel/kernel.c).
use mini_os.Base.{◌+◌, ◌≤◌, ◌<◌, ◌≡◌, ◌↔◌, ◌⊎◌, arith, [], ◌∷◌, some}
use mini_os.Base.Bytes.{Memory, of_list}
use mini_os.Kernel.Layout.{err, user_space_size, user_stack_guard_off, user_dma_offset}
use mini_os.Kernel.UserMemory.{
  user_range_ok, user_copy_str, Windows, Mapping, sys_sbrk, sys_dma_alloc,
}
use mini_os.Kernel.UserMemory.Bounds.{user_copy_str_iff, StringAt, IsValid, sys_sbrk_lem}

abbrev pub fresh : Windows
fresh = record {
  user_brk_off = 65536;
  user_mmio_used = 0;
  user_dma_used = 0;
  dma_arena_base = 16777216;
}

pub fresh-IsValid : IsValid fresh
fresh-IsValid = record { brk = omega arith; mmio = omega arith; dma = omega arith }

abbrev hi : Memory
hi = of_list (b'h' ∷ b'i' ∷ 0 ∷ [])

user_copy_str_iff_example :
    (user_copy_str hi 0 8 ≡ some (b'h' ∷ b'i' ∷ []))
    ↔ ((2 < 7) × (0 + 2 < user_space_size) × StringAt hi 0 (b'h' ∷ b'i' ∷ []))
user_copy_str_iff_example = user_copy_str_iff hi 0 8 (b'h' ∷ b'i' ∷ [])

sys_sbrk_lem_example :
    ((65536 + 4096 ≤ user_stack_guard_off)
      × (sys_sbrk 4096 fresh ≡ (65536, record fresh { user_brk_off = 65536 + 4096 })))
    ⊎ ((user_stack_guard_off < 65536 + 4096) × (sys_sbrk 4096 fresh ≡ (err, fresh)))
sys_sbrk_lem_example = sys_sbrk_lem 4096 fresh fresh-IsValid (omega arith)

abbrev page : Mapping
page = record { virt = user_dma_offset; phys = 16777216; size = 8192 }

page_given : (sys_dma_alloc 5000 64 fresh).1 ≡ some page
unfolding sys_dma_alloc user_range_ok
page_given = ground arith
