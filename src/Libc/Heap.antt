-- ===== src/Libc/Heap.antt =====
-- The heap of the C library, fs/lib/stdlib.c: a list of freed blocks below the program break.
-- `sbrk` is the kernel's SYS_SBRK. A block is its header's address and its size; the header is 8
-- bytes and is not overwritten by the program.
pub mod Blocks
mod Tests
use mini_os.Base.{
  ℕ, zero, suc, ◌+◌, ◌-◌, ◌*◌, ◌/◌, ◌^◌, ◌%◌, ◌≤◌, ◌<◌, ◌≡◌, ◌≢◌, ◌↔◌, ◌⊎◌, inl, inr, refl, sym, ap,
  ◌∙◌, Bool, true, false, not, ◌&&◌, ◌||◌, ◌==◌, ltb, leb, if◌then◌else◌, arith, List, [], ◌∷◌,
  Option, none, some, get_or, set, take, drop, length, Bool-cases, Option-cases, length-set,
  get_or-set_self, get_or-set_ne, ℕ_discrete, dec_lt, ◌++◌,
}
use mini_os.Base.Words.{add32, sub32, mul32, u32_mod}
use mini_os.Base.Bytes.{Memory, copy, fill, poke, copy_inside, copy_outside}
use mini_os.Kernel.UserMemory.{Windows, sys_sbrk}

pub record Block : Type 0 where
  pub start : ℕ
  pub size : ℕ

pub record Heap : Type 0 where
  pub free_list : List Block
  pub windows : Windows

-- `(size + 3) & ~3`
unfoldable pub round_size : ℕ → ℕ
round_size size = (size + 3) / 4 * 4

-- The loop of `malloc`: the first block that is large enough, and the list without it.
unfoldable pub first_fit : ℕ → List Block → Option (Block × List Block)
first_fit want [] = none
first_fit want (b ∷ bs) =
    let rest = first_fit want bs in
    if leb want b.size
    then some (b, bs)
    else elim rest [ none ↦ none | some r ↦ some (r.0, b ∷ r.1) ]

-- A new block from the break: none where `(int)b < 0`.
unfoldable pub grow : ℕ → Heap → Option Block × Heap
grow want h =
    let r = sys_sbrk (want + 8) h.windows in
    let after : Heap = record h { windows = r.1 } in
    if leb (2 ^ 31) r.0 then (none, after) else (some (record { start = r.0; size = want }), after)

-- `malloc`: the block that is handed out.
unfoldable pub malloc : ℕ → Heap → Option Block × Heap
malloc size h = if size == 0 then (none, h) else elim (first_fit (round_size size) h.free_list) [
  | none ↦ grow (round_size size) h
  | some r ↦ (some r.0, record h { free_list = r.1 })
]

-- `free`, of a pointer that is not null.
unfoldable pub free : Block → Heap → Heap
free b h = record h { free_list = b ∷ h.free_list }

-- `calloc`: what it asks `malloc` for.
unfoldable pub calloc : ℕ → ℕ → Heap → Option Block × Heap
calloc n size h =
    if (n == 0) || (size == 0)
    then (none, h)
    else if ltb (0x7fffffff / size) n
    then (none, h)
    else malloc (n * size) h

-- `realloc` of a block: the block it gives, which is the same one where that is large enough.
unfoldable pub realloc : Block → ℕ → Heap → Option Block × Heap
realloc b size h =
    let r = malloc size h in
    if leb size b.size
    then (some b, h)
    else elim (r.0) [ none ↦ (none, r.1) | some nb ↦ (some nb, free b r.1) ]
