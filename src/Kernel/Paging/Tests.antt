-- ===== src/Kernel/Paging/Tests.antt =====
-- An address space without any page, as `pdpt_init` makes it, in frame 16 (kernel/kernel.c).
use mini_os.Base.{
  ℕ, ◌+◌, ◌-◌, ◌*◌, ◌/◌, ◌%◌, ◌≤◌, ◌<◌, ◌≡◌, refl, ◌&&◌, ◌==◌, ltb, leb, if◌then◌else◌, arith, some,
}
use mini_os.Kernel.Paging.{Tables, frame, slot, map_page, translate}
use mini_os.Kernel.Paging.Owners.{pde, AreApart}
use mini_os.Kernel.Paging.Mapped.{translate-map_page}

abbrev no_pages : Tables
no_pages = record {
  entry = λ a. if leb 65536 a && ltb a 65568 then (17 + (a - 65536) / 8) * 4096 + 1 else 0;
  phys_free = 131072;
}

abbrev uses : ℕ → ℕ
uses f = if f == 16 then 1 else if leb 17 f && leb f 20 then f - 15 else 0

dirs_lem : (i : ℕ) → i < 4 → uses (frame (no_pages.entry (slot 16 i))) ≡ 2 + i
dirs_lem i lt = ground arith

empty_slot : (f k : ℕ) → 17 ≤ f → no_pages.entry (slot f k) ≡ 0
empty_slot f k le = ground arith

dir_high : (n : ℕ) → n < 2048 → 17 ≤ frame (no_pages.entry (slot 16 (n / 512)))
dir_high n lt = ground arith

no_tables :
    (n : ℕ) → n < 2048 → pde 16 n no_pages % 2 ≡ 1 → uses (frame (pde 16 n no_pages)) ≡ 6 + n
no_tables n lt p =
    let z : pde 16 n no_pages ≡ 0 =
      empty_slot (frame (no_pages.entry (slot 16 (n / 512)))) (n % 512) (dir_high n lt) in
    absurd (omega (arith, p, z))

no_pages-AreApart : AreApart 16 no_pages uses
no_pages-AreApart = record {
  root = refl;
  dirs = dirs_lem;
  tables = no_tables;
  unused = λ f le. ground arith;
  aligned = omega arith;
  low = omega arith;
}

translate-map_page_example :
    (translate 16 0x14000123 (map_page 16 0x14000000 0x1FE000000 26 no_pages) ≡ (
      if 0x14000123 / 4096 == 0x14000000 / 4096
      then some (0x1FE000000 / 4096 * 4096 + 0x14000123 % 4096)
      else translate 16 0x14000123 no_pages))
    × ((own' : ℕ → ℕ) × AreApart 16 (map_page 16 0x14000000 0x1FE000000 26 no_pages) own')
translate-map_page_example =
    translate-map_page 16 0x14000000 0x1FE000000 26 no_pages uses 0x14000123 no_pages-AreApart
      (omega arith) (omega arith) (omega arith) (omega arith)
