-- ===== src/Kernel/Paging.antt =====
-- Page tables, kernel/kernel.c. A 64-bit entry is read and written at its physical address; the
-- kernel's identity mapping makes that its pointer. A page is named by its frame number, its address
-- over 4096, and flags are the twelve low bits.
pub mod Owners
pub mod Added
pub mod Mapped
mod Tests
use mini_os.Base.{
  ℕ, zero, suc, ◌+◌, ◌-◌, ◌*◌, ◌/◌, ◌%◌, ◌^◌, ◌≤◌, ◌<◌, ◌≡◌, ◌≢◌, ◌↔◌, ◌⊎◌, inl, inr, refl, sym, ap,
  ◌∙◌, Bool, true, false, not, ◌&&◌, ◌||◌, ◌==◌, ltb, leb, if◌then◌else◌, arith, List, [], ◌∷◌,
  ◌++◌, Option, none, some, get_or, set, take, drop, length, replicate, Bool-cases, Option-cases,
  length-set, length-append, get_or-append_left, get_or-append_right, take-append, get_or-set_self,
  get_or-set_ne, ℕ_discrete, dec_lt, ◌>>=◌,
}
use mathlib.Core.Path.{subst}
use mathlib.Core.List.{append-nil, append_assoc}
use mini_os.Base.Words.{add32, sub32, mul32, u32_mod, u64_mod}
use mini_os.Base.Bytes.{
  Memory, copy, fill, poke, of_list, read_bytes, word_at, put_word, copy_inside, copy_outside,
  fill_outside,
}

pub record Tables : Type 0 where
  pub entry : Memory
  pub phys_free : ℕ

-- `(u32)(e & ~0xFFF)`, as a frame number.
abbrev pub frame : ℕ → ℕ
frame e = e / 4096 % 1048576

abbrev pub slot : ℕ → ℕ → ℕ
slot f k = f * 4096 + k * 8

abbrev pub is_present : ℕ → Bool
is_present e = e % 2 == 1

-- `alloc_page_phys`: the page's address, and the entries in it set to 0.
unfoldable pub alloc_page_phys : Tables → ℕ × Tables
alloc_page_phys t = (
  t.phys_free,
  record { entry = fill t.entry t.phys_free 0 4096; phys_free = add32 t.phys_free 4096 },
)

-- `pae_pd`, as a frame number; `pdpt` is one too.
unfoldable pub pae_pd : ℕ → ℕ → Tables → ℕ
pae_pd pdpt virt t = frame (t.entry (slot pdpt (virt / 1073741824)))

-- The address of the directory entry for `virt`.
unfoldable pub pde_at : ℕ → ℕ → Tables → ℕ
pde_at pdpt virt t = slot (pae_pd pdpt virt t) (virt / 2097152 % 512)

-- PTE_P | PTE_W, and PTE_U as in `flags`.
abbrev pub pde_flags : ℕ → ℕ
pde_flags flags = 3 + flags / 4 % 2 * 4

-- The page table for `virt`, allocated where there is none. `phys_free` is a multiple of 4096, so that
-- the bitwise or with the flags is a sum.
unfoldable pub with_table : ℕ → ℕ → ℕ → Tables → Tables
with_table pdpt virt flags t =
    let a = pde_at pdpt virt t in
    let r = alloc_page_phys t in
    if is_present (t.entry a)
    then t
    else record (r.1) { entry = poke (r.1).entry a (r.0 + pde_flags flags) }

-- `map_page`: `flags | PTE_P` sets bit 0.
unfoldable pub map_page : ℕ → ℕ → ℕ → ℕ → Tables → Tables
map_page pdpt virt phys flags t =
    let t' = with_table pdpt virt flags t in
    let pt = frame (t'.entry (pde_at pdpt virt t')) in
    record t' {
      entry =
          poke t'.entry (slot pt (virt / 4096 % 512)) (phys / 4096 * 4096 + (flags / 2 * 2 + 1));
    }

-- The loop of `map_phys_at`, with `k` pages left from page `i` on.
unfoldable pub map_pages : ℕ → ℕ → ℕ → ℕ → ℕ → ℕ → Tables → Tables
map_pages zero i pdpt virt p flags t = t
map_pages (suc k) i pdpt virt p flags t =
    map_pages k (i + 1) pdpt virt p flags
      (map_page pdpt (add32 virt (i * 4096)) (p + i * 4096) flags t)

unfoldable pub map_phys_at : ℕ → ℕ → ℕ → ℕ → ℕ → Tables → Tables
map_phys_at pdpt virt phys size flags t =
    let total = add32 (phys % 4096) size in
    map_pages ((total + 4095) / 4096) 0 pdpt virt (phys / 4096 * 4096) flags t

-- What the processor does with an address (PAE paging): the physical address, none for a fault.
unfoldable pub translate : ℕ → ℕ → Tables → Option ℕ
translate pdpt virt t =
    let pde = t.entry (pde_at pdpt virt t) in
    let pte = t.entry (slot (frame pde) (virt / 4096 % 512)) in
    if is_present pde
    then if is_present pte then some (pte / 4096 * 4096 + virt % 4096) else none
    else none
