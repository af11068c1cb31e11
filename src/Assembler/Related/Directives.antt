-- ===== src/Assembler/Related/Directives.antt =====
-- The directives of two related runs, user/as.c.
use mini_os.Base.{ℕ, zero, suc, ◌≡◌, refl, Bool, if◌then◌else◌, List, [], ◌∷◌}
use mathlib.Core.Path.{subst}
use mini_os.Assembler.{Asm, Run, ◌>>=◌, pure, err, Section, sec_text, sec_data, sec_bss, max_line}
use mini_os.Assembler.Expressions.{Expr, parse_expr}
use mini_os.Assembler.Directives.{
  emit_all, step_over, one_string, string_round, value_round, emit_string, emit_value, emit_values,
  emit_times, rounds, in_bss, reserve, fill_value, space, alignment, align_to, define_equ, equ,
  set_section, run_directive, Directive, section, values, ascii, align, ignored, spaced, assigned,
  unknown,
}
use mini_os.Assembler.Related.{
  Simulation, step_at, Related, Any, Related-pure, Related-then, err-Related, done-Related,
  emit8-Related,
}
use mini_os.Assembler.Related.Text.{
  SameExpr, known, symbolic, text_rules, Related-expr, Loose, parse_expr-Related,
}
use mini_os.Assembler.Related.Encoding.{emit_rules}

in_bss_at :
    (R : Simulation) (c d : Section) (u v x y : Unit {0} × Asm)
    → c ≡ d
    → (c ≡ sec_bss → R.Rel u.1 v.1)
    → R.Rel x.1 y.1
    → R.Rel (in_bss c u x).1 (in_bss d v y).1
unfolding in_bss
in_bss_at R c d u v x y e h g = subst (λ z. R.Rel (in_bss c u x).1 (in_bss z v y).1) e (at c h)
  where
    at : (c : Section) → (c ≡ sec_bss → R.Rel u.1 v.1) → R.Rel (in_bss c u x).1 (in_bss c v y).1
    at sec_bss h = h refl
    at sec_text h = g
    at sec_data h = g

module _ {R : Simulation} where
  emit_all-Related : (bs : List ℕ) → Related R Any (emit_all bs) (emit_all bs)
  unfolding emit_all
  emit_all-Related [] = search text_rules
  emit_all-Related (b ∷ bs) = Related-then _ _ _ _ (emit8-Related b b) (emit_all-Related bs)

  step_over-Related : (c : ℕ) → Related R Any (step_over c) (step_over c)
  unfolding step_over
  step_over-Related c = search text_rules

  one_string-Related : (b : Bool) → Related R Any (one_string b) (one_string b)
  unfolding one_string
  one_string-Related b =
      search (text_rules, emit8-Related, emit_all-Related, step_over-Related) depth 12

  string_round-Related :
      (b : Bool) (f g : Run (Unit {0}))
      → Related R Any f g
      → Related R Any (string_round b f) (string_round b g)
  unfolding string_round
  string_round-Related b f g h = search (text_rules, one_string-Related) depth 20

  emit_string-Related : (n : ℕ) (b : Bool) → Related R Any (emit_string n b) (emit_string n b)
  unfolding emit_string
  emit_string-Related zero b = search text_rules
  emit_string-Related (suc n) b = string_round-Related b _ _ (emit_string-Related n b)

  emit_value-Related : (n v w : ℕ) → Related R Any (emit_value n v) (emit_value n w)
  unfolding emit_value
  emit_value-Related n v w = search emit_rules depth 12

  value_round-Related :
      (w : ℕ) (f g : Run (Unit {0}))
      → Related R Any f g
      → Related R Any (value_round w f) (value_round w g)
  unfolding value_round
  value_round-Related w f g h =
      search (text_rules, Related-expr, parse_expr-Related, emit_value-Related) depth 20

  emit_values-Related : (n w : ℕ) → Related R Any (emit_values n w) (emit_values n w)
  unfolding emit_values
  emit_values-Related zero w = search text_rules
  emit_values-Related (suc n) w = value_round-Related w _ _ (emit_values-Related n w)

  emit_times-Related : (n v w : ℕ) → Related R Any (emit_times n v) (emit_times n w)
  unfolding emit_times
  emit_times-Related zero v w = search text_rules
  emit_times-Related (suc n) v w =
      Related-then _ _ _ _ (emit8-Related v w) (emit_times-Related n v w)

  reserve-Related : (n v w : ℕ) → Related R Any (reserve n v) (reserve n w)
  unfolding reserve
  reserve-Related n v w = record {
    value = λ s t r. tt;
    state = λ s t r.
        in_bss_at R _ _ _ _ _ _ (R.same_sec s t r) (R.bss_at n s t r)
          ((emit_times-Related (rounds n) v w).state s t r);
  }

  pure-Loose : (v w : ℕ) → Related R Loose (pure v) (pure w)
  pure-Loose v w = Related-pure Loose v w tt

  fill_value-Related : Related R Loose fill_value fill_value
  unfolding fill_value
  fill_value-Related = search (text_rules, pure-Loose, Related-expr, parse_expr-Related) depth 12

  space_of :
      (d e : Expr)
      → SameExpr d e
      → Related R Any
          (if d.has_sym then err else (fill_value >>= reserve d.val))
          (if e.has_sym then err else (fill_value >>= reserve e.val))
  space_of _ _ (known e) = search (text_rules, emit_rules, fill_value-Related, reserve-Related)
  space_of _ _ (symbolic v w) = err-Related

  space-Related : Related R Any space space
  unfolding space
  space-Related = search (Related-expr, parse_expr-Related, space_of)

  define_equ-Related :
      (name : List ℕ) (v w : ℕ) → Related R Any (define_equ name v) (define_equ name w)
  define_equ-Related name v w = record { value = λ s t r. tt; state = R.equ_at name v w }

  equ-Related : Related R Any equ equ
  unfolding equ
  equ-Related = search (text_rules, Related-expr, parse_expr-Related, define_equ-Related) depth 20

  set_section-Related : (c : Section) → Related R Any (set_section c) (set_section c)
  set_section-Related c = record { value = λ s t r. tt; state = R.sec_at c }

module _ (R : Simulation) where
  -- The alignments of two states at a `.align` may differ.
  abbrev pub FixedAt : Bool → Asm → Asm → Type 0
  FixedAt power s t =
      R.Fixed (alignment power (parse_expr s).0.val) (alignment power (parse_expr t).0.val)

  align_at :
      (power : Bool) (s t : Asm)
      → R.Rel s t
      → FixedAt power s t
      → R.Rel (align_to power s).1 (align_to power t).1
  unfolding align_to ◌>>=◌
  align_at power s t r h = R.pad_at _ _ _ _ h (step_at R s t parse_expr-Related r)

  pub directive_at :
      (k : Directive) (s t : Asm)
      → R.Rel s t
      → ((power : Bool) → k ≡ align power → FixedAt power s t)
      → R.Rel (run_directive k s).1 (run_directive k t).1
  unfolding run_directive
  directive_at (section c) s t r h = step_at R s t (set_section-Related c) r
  directive_at (values w) s t r h = step_at R s t (emit_values-Related max_line w) r
  directive_at (ascii b) s t r h = step_at R s t (emit_string-Related max_line b) r
  directive_at (align power) s t r h = align_at power s t r (h power refl)
  directive_at ignored s t r h = step_at R s t done-Related r
  directive_at spaced s t r h = step_at R s t space-Related r
  directive_at assigned s t r h = step_at R s t equ-Related r
  directive_at unknown s t r h = step_at R s t err-Related r
