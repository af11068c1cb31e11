-- ===== src/Assembler/Related/Text.antt =====
-- The lexer and the expressions of two related runs, user/as.c: the same text is read, and the
-- values of expressions without symbols agree.
use mini_os.Base.{
  ℕ, zero, suc, ◌≡◌, ◌⊎◌, inl, inr, refl, sym, Bool, true, false, ◌||◌, ◌==◌, if◌then◌else◌, arith,
  List, Bool-cases,
}
use mathlib.Core.Path.{subst}
use mini_os.Base.Words.{add32, sub32}
use mini_os.Assembler.{Asm, Run, ◌>>=◌, pure, err, max_line, cur_addr}
use mini_os.Assembler.Lexer.{skip_ws, peek, advance, eat, read_name}
use mini_os.Assembler.Expressions.{
  Expr, sym_value, resolved, symbol, here, bad_expression, value_of, closed_by_paren, atom_body,
  expr_loop, parse_atom, parse_expr,
}
use mini_os.Assembler.Related.{
  done-Related, Simulation, Related, Any, Related-pure, Related-bind, Related-then, Related-if,
  Related-text, Related-same, Related-err, err-Related, move-Related,
}

-- Two results of one expression: their values agree where no symbol takes part.
pub data SameExpr : Expr → Expr → Type 0 where
  known : (e : Expr) → SameExpr e e
  symbolic :
      (v w : ℕ) → SameExpr (record { val = v; has_sym = true }) (record { val = w; has_sym = true })

module _ {R : Simulation} where
  pub skip_ws-Related : Related R Any skip_ws skip_ws
  unfolding skip_ws
  skip_ws-Related = Related-text _ _ λ p. move-Related _ _ refl

  pub peek-Related : Related R ◌≡◌ peek peek
  unfolding peek
  peek-Related = Related-text _ _ λ p. Related-pure ◌≡◌ _ _ refl

  pub advance-Related : (n : ℕ) → Related R Any (advance n) (advance n)
  unfolding advance
  advance-Related n = Related-text _ _ λ p. move-Related _ _ refl

pub ruleset lexer_rules = (
  Related-pure, Related-then, Related-if, Related-text, Related-same, err-Related, done-Related,
  move-Related, skip_ws-Related, peek-Related, advance-Related,
)

module _ {R : Simulation} where
  pub eat-Related : (c : ℕ) → Related R ◌≡◌ (eat c) (eat c)
  unfolding eat
  eat-Related c = search lexer_rules

  pub read_name-Related : (n : ℕ) → Related R ◌≡◌ (read_name n) (read_name n)
  unfolding read_name
  read_name-Related n = search lexer_rules

pub ruleset text_rules = (lexer_rules, eat-Related, read_name-Related)

module _ {R : Simulation} where
  pub Related-expr :
      {B : Type 0} {W : B → B → Type 0} (f g : Run Expr) (k l : Expr → Run B)
      → Related R SameExpr f g
      → ((d e : Expr) → SameExpr d e → Related R W (k d) (l e))
      → Related R W (f >>= k) (g >>= l)
  Related-expr f g k l h hk = Related-bind f g k l h hk

-- Values that may differ, as those of symbols do.
abbrev pub Loose : ℕ → ℕ → Type 0
Loose v w = Unit

resolved_state :
    (name : List ℕ) (s : Asm) → ((resolved name s).1 ≡ s) ⊎ ((resolved name s).1 ≡ (err s).1)
unfolding resolved
resolved_state name s = ground arith

sym_value_state :
    (name : List ℕ) (s : Asm) → ((sym_value name s).1 ≡ s) ⊎ ((sym_value name s).1 ≡ (err s).1)
unfolding sym_value
sym_value_state name s = elim (Bool-cases (s.pass == 2)) [
  | inl e ↦ rw (e) (resolved_state name s)
  | inr e ↦ rw (e) (inl refl)
]

pub left_state : (R : Simulation) (u s t : Asm) → (u ≡ s) ⊎ (u ≡ (err s).1) → R.Rel s t → R.Rel u t
left_state R u s t (inl e) r = subst (λ x. R.Rel x t) (sym e) r
left_state R u s t (inr e) r = subst (λ x. R.Rel x t) (sym e) (R.err_left s t r)

pub right_state : (R : Simulation) (u s t : Asm) → (u ≡ t) ⊎ (u ≡ (err t).1) → R.Rel s t → R.Rel s u
right_state R u s t (inl e) r = subst (λ x. R.Rel s x) (sym e) r
right_state R u s t (inr e) r = subst (λ x. R.Rel s x) (sym e) (R.err_right s t r)

negated :
    (d e : Expr)
    → SameExpr d e
    → SameExpr (record d { val = sub32 0 d.val }) (record e { val = sub32 0 e.val })
negated _ _ (known e) = known _
negated _ _ (symbolic v w) = symbolic _ _

with_symbol :
    (v w : ℕ) (h : Bool)
    → h ≡ true
    → SameExpr (record { val = v; has_sym = h }) (record { val = w; has_sym = h })
with_symbol v w true e = symbolic v w
with_symbol v w false e = absurd (ground arith)

or_true : (h : Bool) → (h || true) ≡ true
or_true true = refl
or_true false = refl

combined :
    (c : Bool) (d e x y : Expr)
    → SameExpr d e
    → SameExpr x y
    → SameExpr
        (record {
          val = if c then sub32 d.val x.val else add32 d.val x.val;
          has_sym = d.has_sym || x.has_sym;
        })
        (record {
          val = if c then sub32 e.val y.val else add32 e.val y.val;
          has_sym = e.has_sym || y.has_sym;
        })
combined c _ _ _ _ (known d) (known x) = known _
combined c _ _ _ _ (symbolic v w) h = symbolic _ _
combined c _ _ _ _ (known d) (symbolic _ _) =
    with_symbol _ _ (d.has_sym || true) (or_true d.has_sym)

module _ {R : Simulation} where
  sym_value-Related : (name : List ℕ) → Related R Loose (sym_value name) (sym_value name)
  sym_value-Related name = record {
    value = λ s t r. tt;
    state = λ s t r.
        left_state R _ s _ (sym_value_state name s)
          (right_state R _ s t (sym_value_state name t) r);
  }

  pub cur_addr-Related : Related R Loose cur_addr cur_addr
  unfolding cur_addr
  cur_addr-Related = record { value = λ s t r. tt; state = λ s t r. r }

  symbolic_value :
      (f g : Run ℕ)
      → Related R Loose f g
      → Related R SameExpr
          (f >>= λ v. pure (record { val = v; has_sym = true }))
          (g >>= λ v. pure (record { val = v; has_sym = true }))
  symbolic_value f g h = Related-bind f g _ _ h λ v w _. Related-pure SameExpr _ _ (symbolic v w)

  symbol-Related : Related R SameExpr symbol symbol
  unfolding symbol
  symbol-Related = search (text_rules, symbolic_value, sym_value-Related)

  here-Related : Related R SameExpr here here
  unfolding here
  here-Related = search (text_rules, symbolic_value, cur_addr-Related)

  bad_expression-Related : Related R SameExpr bad_expression bad_expression
  unfolding bad_expression
  bad_expression-Related = search (text_rules, known)

  value_of-Related : (r : ℕ × List ℕ) → Related R SameExpr (value_of r) (value_of r)
  unfolding value_of
  value_of-Related r = search (text_rules, known)

  closed_by_paren-Related :
      (d e : Expr) → SameExpr d e → Related R SameExpr (closed_by_paren d) (closed_by_paren e)
  unfolding closed_by_paren
  closed_by_paren-Related d e h = search text_rules

  atom_body-Related :
      (f g k l : Run Expr)
      → Related R SameExpr f g
      → Related R SameExpr k l
      → Related R SameExpr (atom_body f k) (atom_body g l)
  unfolding atom_body
  atom_body-Related f g k l h hk =
      search
        (
          text_rules, Related-expr, symbol-Related, here-Related, bad_expression-Related,
          value_of-Related, closed_by_paren-Related, negated,
        )
        depth 40 fits 4000

  expr_loop-Related :
      (n : ℕ) (f g : Run Expr) (d e : Expr)
      → Related R SameExpr f g
      → SameExpr d e
      → Related R SameExpr (expr_loop n f d) (expr_loop n g e)
  unfolding expr_loop
  expr_loop-Related zero f g d e h hd = Related-pure SameExpr d e hd
  expr_loop-Related (suc n) f g d e h hd =
      search (text_rules, Related-expr, combined, expr_loop-Related n f g) depth 40 fits 4000

  parse_atom-Related : (n : ℕ) → Related R SameExpr (parse_atom n) (parse_atom n)
  unfolding parse_atom
  parse_atom-Related zero = Related-pure SameExpr _ _ (known _)
  parse_atom-Related (suc n) =
      let ih = parse_atom-Related n in
      atom_body-Related _ _ _ _ (Related-expr _ _ _ _ ih λ d e h. expr_loop-Related n _ _ d e ih h)
        ih

  pub parse_expr-Related : Related R SameExpr parse_expr parse_expr
  unfolding parse_expr
  parse_expr-Related =
      let atom = parse_atom-Related max_line in
      Related-expr _ _ _ _ atom λ d e h. expr_loop-Related max_line _ _ d e atom h
