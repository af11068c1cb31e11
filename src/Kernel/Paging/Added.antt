-- ===== src/Kernel/Paging/Added.antt =====
-- A table that is added maps nothing, and keeps all pages apart (kernel/kernel.c).
use mini_os.Base.{
  ℕ, ◌+◌, ◌*◌, ◌/◌, ◌%◌, ◌<◌, ◌≡◌, ◌≢◌, inl, inr, refl, sym, ap, ◌∙◌, false, ◌==◌, if◌then◌else◌,
  arith, Option, none, some, Bool-cases, ℕ_discrete,
}
use mathlib.Core.Path.{subst}
use mini_os.Base.Words.{u32_mod}
use mini_os.Kernel.Paging.{Tables, frame, slot, is_present, pae_pd, pde_at, pde_flags, translate}
use mini_os.Kernel.Paging.Owners.{
  pde, AreApart, table_added, private_frame, added-dir, added-pde, added-pde_self, added-pte,
  added-pte_self,
}
use mini_os.Base.{==_iff}

-- The outcome of the two entries for an address.
abbrev pub looked_up : ℕ → ℕ → ℕ → Option ℕ
looked_up e q virt =
    if is_present e
    then (if is_present q then some (q / 4096 * 4096 + virt % 4096) else none)
    else none

pub pde_at_lem :
    (pdpt virt : ℕ) (t : Tables) → t.entry (pde_at pdpt virt t) ≡ pde pdpt (virt / 2097152) t
unfolding pde_at pae_pd
pde_at_lem pdpt virt t =
    ap (λ i. t.entry (slot (frame (t.entry (slot pdpt i))) (virt / 2097152 % 512))) (omega arith)

-- The lookup of entry `k` of the table of region `m`.
abbrev pub lookup : ℕ → ℕ → ℕ → ℕ → Tables → Option ℕ
lookup pdpt m k virt t = looked_up (pde pdpt m t) (t.entry (slot (frame (pde pdpt m t)) k)) virt

pub translate_lem :
    (pdpt virt : ℕ) (t : Tables)
    → translate pdpt virt t ≡ lookup pdpt (virt / 2097152) (virt / 4096 % 512) virt t
unfolding translate
translate_lem pdpt virt t = rw (pde_at_lem pdpt virt t) refl

pub looked_up_absent : (e q virt : ℕ) → is_present e ≡ false → looked_up e q virt ≡ none
looked_up_absent e q virt h = rw (h) refl

looked_up_empty : (e virt : ℕ) → looked_up e 0 virt ≡ none
looked_up_empty e virt = ground arith

abbrev pub own_added : ℕ → (ℕ → ℕ) → Tables → ℕ → ℕ
own_added n own t f = if f == t.phys_free / 4096 then 6 + n else own f

own_added_other :
    (n : ℕ) (own : ℕ → ℕ) (t : Tables) (f : ℕ)
    → f ≢ t.phys_free / 4096
    → own_added n own t f ≡ own f
own_added_other n own t f ne = ground arith

module _ (pdpt n flags : ℕ) (t : Tables) (own : ℕ → ℕ) (a : AreApart pdpt t own) (lt : n < 2048)
    (absent : is_present (pde pdpt n t) ≡ false) (room : t.phys_free + 4096 < u32_mod) where
  new_frame : frame (t.phys_free + pde_flags flags) ≡ t.phys_free / 4096
  new_frame = omega (arith, a.aligned, a.low)

  added_tables :
      (m : ℕ)
      → m < 2048
      → pde pdpt m (table_added pdpt n flags t) % 2 ≡ 1
      → own_added n own t (frame (pde pdpt m (table_added pdpt n flags t))) ≡ 6 + m
  added_tables m small present = elim (ℕ_discrete m n) [
    | yes e ↦ rw (e, added-pde_self pdpt n flags t own a lt, new_frame) (ground arith)
    | no ne ↦
        let same = added-pde pdpt n flags t own a lt m small ne in
        let was : pde pdpt m t % 2 ≡ 1 = sym (ap (λ x. x % 2) same) ∙ present in
        let o = a.tables m small was in
        rw (same) (
          own_added_other n own t (frame (pde pdpt m t))
            (private_frame pdpt n flags t own a lt (frame (pde pdpt m t)) (6 + m) o (omega arith))
          ∙ o)
  ]

  pub table_added-AreApart : AreApart pdpt (table_added pdpt n flags t) (own_added n own t)
  table_added-AreApart = record {
    root =
        own_added_other n own t pdpt
          (private_frame pdpt n flags t own a lt pdpt 1 a.root (omega arith))
        ∙ a.root;
    dirs = λ i small.
        let d = frame (t.entry (slot pdpt i)) in
        ap (λ x. own_added n own t (frame x)) (added-dir pdpt n flags t own a lt i small)
        ∙ own_added_other n own t d
            (private_frame pdpt n flags t own a lt d (2 + i) (a.dirs i small) (omega arith))
        ∙ a.dirs i small;
    tables = added_tables;
    unused = λ f le.
        own_added_other n own t f (λ e. absurd (omega (arith, a.aligned)))
        ∙ a.unused f (omega arith);
    aligned = omega (arith, a.aligned);
    low = omega arith;
  }

  pub table_added-present : pde pdpt n (table_added pdpt n flags t) % 2 ≡ 1
  table_added-present = rw (added-pde_self pdpt n flags t own a lt) (omega (arith, a.aligned))

  added_same :
      (k virt : ℕ)
      → k < 512
      → lookup pdpt n k virt (table_added pdpt n flags t) ≡ lookup pdpt n k virt t
  added_same k virt few =
      let t' = table_added pdpt n flags t in
      let at : frame (pde pdpt n t') ≡ t.phys_free / 4096 =
        ap frame (added-pde_self pdpt n flags t own a lt) ∙ new_frame in
      ap (λ f. looked_up (pde pdpt n t') (t'.entry (slot f k)) virt) at
      ∙ ap (λ q. looked_up (pde pdpt n t') q virt) (added-pte_self pdpt n flags t own a lt k few)
      ∙ looked_up_empty (pde pdpt n t') virt
      ∙ sym (looked_up_absent (pde pdpt n t) (t.entry (slot (frame (pde pdpt n t)) k)) virt absent)

  added_other :
      (m k virt : ℕ)
      → m < 2048
      → k < 512
      → m ≢ n
      → lookup pdpt m k virt (table_added pdpt n flags t) ≡ lookup pdpt m k virt t
  added_other m k virt small few ne =
      let t' = table_added pdpt n flags t in
      let e = added-pde pdpt n flags t own a lt m small ne in
      ap (λ x. looked_up x (t'.entry (slot (frame x) k)) virt) e
      ∙ elim (Bool-cases (is_present (pde pdpt m t))) [
        | inr h ↦
            looked_up_absent (pde pdpt m t) (t'.entry (slot (frame (pde pdpt m t)) k)) virt h
            ∙ sym (looked_up_absent (pde pdpt m t) (t.entry (slot (frame (pde pdpt m t)) k)) virt h)
        | inl h ↦
            ap (λ q. looked_up (pde pdpt m t) q virt)
              (added-pte pdpt n flags t own a lt m k small few ((==_iff (pde pdpt m t % 2) 1).0 h))
      ]

  -- No address is mapped elsewhere by it.
  pub table_added-translate :
      (virt : ℕ)
      → virt < u32_mod
      → translate pdpt virt (table_added pdpt n flags t) ≡ translate pdpt virt t
  table_added-translate virt small =
      let m = virt / 2097152 in
      let k = virt / 4096 % 512 in
      translate_lem pdpt virt (table_added pdpt n flags t)
      ∙ elim (ℕ_discrete m n) [
        | yes e ↦
            subst (λ x. lookup pdpt x k virt (table_added pdpt n flags t) ≡ lookup pdpt x k virt t)
              (sym e) (added_same k virt (omega arith))
        | no ne ↦ added_other m k virt (omega arith) (omega arith) ne
      ]
      ∙ sym (translate_lem pdpt virt t)
