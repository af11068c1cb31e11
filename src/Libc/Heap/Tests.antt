-- ===== src/Libc/Heap/Tests.antt =====
-- A heap with one freed block (fs/lib/stdlib.c).
use mini_os.Base.{◌≤◌, ◌≡◌, inl, refl, arith, [], ◌∷◌, some}
use mini_os.Libc.Heap.{Block, Heap, round_size, first_fit, malloc, free}
use mini_os.Libc.Heap.Blocks.{IsValid, AreBlocks, IsClear, malloc-free-IsValid}

abbrev old : Block
old = record { start = 65536; size = 100 }

abbrev kept : Block
kept = record { start = 65644; size = 40 }

abbrev used_heap : Heap
used_heap = record {
  free_list = old ∷ [];
  windows = record {
    user_brk_off = 65692;
    user_mmio_used = 0;
    user_dma_used = 0;
    dma_arena_base = 0;
  };
}

used_heap-IsValid : IsValid used_heap (kept ∷ [])
unfolding AreBlocks IsClear
used_heap-IsValid = record {
  blocks = (omega arith, (inl (omega arith), tt), (omega arith, tt, tt));
  break = omega arith;
}

given : malloc 60 used_heap ≡ (some old, record used_heap { free_list = [] })
unfolding malloc first_fit round_size
given = refl

abbrev given_heap : Heap
given_heap = record used_heap { free_list = [] }

malloc-free-IsValid_example :
    (60 ≤ 100)
    × IsValid given_heap (old ∷ kept ∷ [])
    × IsValid (free old given_heap) (kept ∷ [])
    × IsValid (free kept given_heap) (old ∷ [])
malloc-free-IsValid_example =
    malloc-free-IsValid 60 used_heap [] [] kept old given_heap (omega arith) used_heap-IsValid given
