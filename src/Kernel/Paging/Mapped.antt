-- ===== src/Kernel/Paging/Mapped.antt =====
-- What a page is mapped to, and what happens to all other pages (kernel/kernel.c).
use mini_os.Base.{
  ℕ, ◌+◌, ◌*◌, ◌/◌, ◌%◌, ◌<◌, ◌≡◌, ◌≢◌, ◌⊎◌, inl, inr, refl, sym, ap, ◌∙◌, true, false, ◌==◌,
  if◌then◌else◌, arith, some, Bool-cases, ℕ_discrete,
}
use mini_os.Base.Words.{u32_mod}
use mini_os.Base.Bytes.{poke}
use mini_os.Kernel.Paging.{
  Tables, frame, slot, is_present, alloc_page_phys, pae_pd, pde_at, with_table, map_page, translate,
}
use mini_os.Kernel.Paging.Owners.{
  pde, AreApart, dir_of, table_added, frame_ne, poke-slot, poke-slot_self,
}
use mini_os.Kernel.Paging.Added.{
  lookup, looked_up, looked_up_absent, pde_at_lem, translate_lem, own_added, table_added-AreApart,
  table_added-present, table_added-translate,
}
use mini_os.Base.{==_iff}

-- Entry `k` of the table of region `n` is written.
abbrev entry_set : ℕ → ℕ → ℕ → ℕ → Tables → Tables
entry_set pdpt n k v t = record t { entry = poke t.entry (slot (frame (pde pdpt n t)) k) v }

module _ (pdpt n k v : ℕ) (t : Tables) (own : ℕ → ℕ) (a : AreApart pdpt t own) (lt : n < 2048)
    (few : k < 512) (present : pde pdpt n t % 2 ≡ 1) where
  set-other :
      (f j u : ℕ)
      → own f ≡ u
      → u ≢ 6 + n
      → j < 512
      → (entry_set pdpt n k v t).entry (slot f j) ≡ t.entry (slot f j)
  set-other f j u e ne small = poke-slot t.entry (frame (pde pdpt n t)) k f j v few small (
      inl (
        frame_ne own (frame (pde pdpt n t)) f (6 + n) u (a.tables n lt present) e
          (λ s. ne (sym s))))

  set-dir : (i : ℕ) → i < 4 → (entry_set pdpt n k v t).entry (slot pdpt i) ≡ t.entry (slot pdpt i)
  set-dir i small = set-other pdpt i 1 a.root (omega arith) (omega arith)

  set-pde : (m : ℕ) → m < 2048 → pde pdpt m (entry_set pdpt n k v t) ≡ pde pdpt m t
  set-pde m small =
      ap (λ x. (entry_set pdpt n k v t).entry (slot (frame x) (m % 512)))
        (set-dir (m / 512) (omega arith))
      ∙ set-other (dir_of pdpt m t) (m % 512) (2 + m / 512) (a.dirs (m / 512) (omega arith))
          (omega arith) (omega arith)

  set-AreApart : AreApart pdpt (entry_set pdpt n k v t) own
  set-AreApart = record {
    root = a.root;
    dirs = λ i small. ap (λ x. own (frame x)) (set-dir i small) ∙ a.dirs i small;
    tables = λ m small p.
        ap (λ x. own (frame x)) (set-pde m small)
        ∙ a.tables m small (sym (ap (λ x. x % 2) (set-pde m small)) ∙ p);
    unused = a.unused;
    aligned = a.aligned;
    low = a.low;
  }

  -- The entry itself.
  set-lookup_self :
      (virt : ℕ) → lookup pdpt n k virt (entry_set pdpt n k v t) ≡ looked_up (pde pdpt n t) v virt
  set-lookup_self virt =
      ap (λ x. looked_up x ((entry_set pdpt n k v t).entry (slot (frame x) k)) virt) (set-pde n lt)
      ∙ ap (λ q. looked_up (pde pdpt n t) q virt)
          (poke-slot_self t.entry (frame (pde pdpt n t)) k v)

  set-pte :
      (m j : ℕ)
      → m < 2048
      → j < 512
      → pde pdpt m t % 2 ≡ 1
      → (m ≢ n) ⊎ (j ≢ k)
      → (entry_set pdpt n k v t).entry (slot (frame (pde pdpt m t)) j)
        ≡ t.entry (slot (frame (pde pdpt m t)) j)
  set-pte m j small less p (inl ne) =
      set-other (frame (pde pdpt m t)) j (6 + m) (a.tables m small p) (λ e. ne (omega arith)) less
  set-pte m j small less p (inr ne) =
      poke-slot t.entry (frame (pde pdpt n t)) k (frame (pde pdpt m t)) j v few less
        (inr (λ e. ne (sym e)))

  -- Another one.
  set-lookup :
      (m j virt : ℕ)
      → m < 2048
      → j < 512
      → (m ≢ n) ⊎ (j ≢ k)
      → lookup pdpt m j virt (entry_set pdpt n k v t) ≡ lookup pdpt m j virt t
  set-lookup m j virt small less ne =
      let t' = entry_set pdpt n k v t in
      ap (λ x. looked_up x (t'.entry (slot (frame x) j)) virt) (set-pde m small)
      ∙ elim (Bool-cases (is_present (pde pdpt m t))) [
        | inr h ↦
            looked_up_absent (pde pdpt m t) (t'.entry (slot (frame (pde pdpt m t)) j)) virt h
            ∙ sym (looked_up_absent (pde pdpt m t) (t.entry (slot (frame (pde pdpt m t)) j)) virt h)
        | inl h ↦
            ap (λ q. looked_up (pde pdpt m t) q virt)
              (set-pte m j small less ((==_iff (pde pdpt m t % 2) 1).0 h) ne)
      ]

looked_up_page :
    (e phys flags virt : ℕ)
    → e % 2 ≡ 1
    → flags < 4096
    → looked_up e (phys / 4096 * 4096 + (flags / 2 * 2 + 1)) virt
      ≡ some (phys / 4096 * 4096 + virt % 4096)
looked_up_page e phys flags virt p lt =
    let page : (phys / 4096 * 4096 + (flags / 2 * 2 + 1)) / 4096 ≡ phys / 4096 = omega arith in
    let bit : (phys / 4096 * 4096 + (flags / 2 * 2 + 1)) % 2 ≡ 1 = omega arith in
    rw (p, bit, page) refl

-- The tables once there is one for the address.
record Ready (pdpt virt : ℕ) (t t' : Tables) : Type 0 where
  own' : ℕ → ℕ
  apart : AreApart pdpt t' own'
  present : pde pdpt (virt / 2097152) t' % 2 ≡ 1
  same : (w : ℕ) → w < u32_mod → translate pdpt w t' ≡ translate pdpt w t

other_page :
    (w virt : ℕ)
    → (w / 4096 == virt / 4096) ≡ false
    → (w / 2097152 ≢ virt / 2097152) ⊎ (w / 4096 % 512 ≢ virt / 4096 % 512)
other_page w virt e = elim (ℕ_discrete (w / 2097152) (virt / 2097152)) [
  | no ne ↦ inl ne
  | yes m ↦ inr (λ j. let p : w / 4096 ≡ virt / 4096 = omega arith in absurd (ground arith))
]

pde_at-slot :
    (pdpt virt : ℕ) (t : Tables)
    → pde_at pdpt virt t ≡ slot (dir_of pdpt (virt / 2097152) t) (virt / 2097152 % 512)
unfolding pde_at pae_pd
pde_at-slot pdpt virt t =
    ap (λ i. slot (frame (t.entry (slot pdpt i))) (virt / 2097152 % 512)) (omega arith)

with_table_present :
    (pdpt virt flags : ℕ) (t : Tables)
    → is_present (pde pdpt (virt / 2097152) t) ≡ true
    → with_table pdpt virt flags t ≡ t
unfolding with_table
with_table_present pdpt virt flags t p =
    let e : is_present (t.entry (pde_at pdpt virt t)) ≡ true =
      ap is_present (pde_at_lem pdpt virt t) ∙ p in
    rw (e) refl

with_table_absent :
    (pdpt virt flags : ℕ) (t : Tables)
    → is_present (pde pdpt (virt / 2097152) t) ≡ false
    → with_table pdpt virt flags t ≡ table_added pdpt (virt / 2097152) flags t
unfolding with_table alloc_page_phys
with_table_absent pdpt virt flags t p =
    let e : is_present (t.entry (pde_at pdpt virt t)) ≡ false =
      ap is_present (pde_at_lem pdpt virt t) ∙ p in
    rw (e, pde_at-slot pdpt virt t) refl

with_table-Ready :
    (pdpt virt flags : ℕ) (t : Tables) (own : ℕ → ℕ)
    → AreApart pdpt t own
    → virt < u32_mod
    → t.phys_free + 4096 < u32_mod
    → Ready pdpt virt t (with_table pdpt virt flags t)
with_table-Ready pdpt virt flags t own a lt room =
    let n = virt / 2097152 in
    elim (Bool-cases (is_present (pde pdpt n t))) [
      | inl p ↦ rw (with_table_present pdpt virt flags t p) (record {
        own' = own;
        apart = a;
        present = (==_iff (pde pdpt n t % 2) 1).0 p;
        same = λ w small. refl;
      })
      | inr p ↦ rw (with_table_absent pdpt virt flags t p) (record {
        own' = own_added n own t;
        apart = table_added-AreApart pdpt n flags t own a (omega arith) p room;
        present = table_added-present pdpt n flags t own a (omega arith) p room;
        same = table_added-translate pdpt n flags t own a (omega arith) p room;
      })
    ]

map_page_set :
    (pdpt virt phys flags : ℕ) (t : Tables)
    → map_page pdpt virt phys flags t
      ≡ entry_set pdpt
          (virt / 2097152)
          (virt / 4096 % 512)
          (phys / 4096 * 4096 + (flags / 2 * 2 + 1))
          (with_table pdpt virt flags t)
unfolding map_page
map_page_set pdpt virt phys flags t = rw (pde_at_lem pdpt virt (with_table pdpt virt flags t)) refl

-- `map_page` of an address of 32 bits with flags of 12 bits, on tables whose pages are apart and with
-- a page to spare below 4 GB: the page of the address leads to the physical page, every other
-- address to where it led before, and the pages are apart again.
pub translate-map_page :
    (pdpt virt phys flags : ℕ) (t : Tables) (own : ℕ → ℕ) (w : ℕ)
    → AreApart pdpt t own
    → virt < u32_mod
    → flags < 4096
    → t.phys_free + 4096 < u32_mod
    → w < u32_mod
    → let t' = map_page pdpt virt phys flags t in
      (translate pdpt w t' ≡ (
        if w / 4096 == virt / 4096
        then some (phys / 4096 * 4096 + w % 4096)
        else translate pdpt w t))
      × ((own' : ℕ → ℕ) × AreApart pdpt t' own')
translate-map_page pdpt virt phys flags t own w a lt few room small =
    let n = virt / 2097152 in
    let k = virt / 4096 % 512 in
    let v = phys / 4096 * 4096 + (flags / 2 * 2 + 1) in
    let s = with_table pdpt virt flags t in
    let r = with_table-Ready pdpt virt flags t own a lt room in
    rw (map_page_set pdpt virt phys flags t) (
      translate_lem pdpt w (entry_set pdpt n k v s) ∙ elim (Bool-cases (w / 4096 == virt / 4096)) [
        | inl e ↦
            let page : w / 4096 ≡ virt / 4096 = (==_iff (w / 4096) (virt / 4096)).0 e in
            let m : w / 2097152 ≡ n = omega arith in
            let j : w / 4096 % 512 ≡ k = omega arith in
            rw (e, m, j)
              (set-lookup_self pdpt n k v s r.own' r.apart (omega arith) (omega arith) r.present w
                ∙ looked_up_page (pde pdpt n s) phys flags w r.present few)
        | inr e ↦ rw (e) (
            set-lookup pdpt n k v s r.own' r.apart (omega arith) (omega arith) r.present
              (w / 2097152) (w / 4096 % 512) w (omega arith) (omega arith) (other_page w virt e)
            ∙ sym (translate_lem pdpt w s)
            ∙ r.same w small)
      ],
      (r.own', set-AreApart pdpt n k v s r.own' r.apart (omega arith) (omega arith) r.present),
    )
