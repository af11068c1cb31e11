-- ===== src/Assembler/Related/Operands.antt =====
-- The operands of two related runs, user/as.c: they are alike but for the values of symbols.
use mini_os.Base.{ℕ, zero, suc, ◌≡◌, refl, Bool, ◌==◌, Option, none, some}
use mini_os.Assembler.{Run, ◌>>=◌, pure}
use mini_os.Assembler.Operands.{
  op_imm, op_mem, Operand, no_operand, known_register, parse_reg_operand, checked, mem_register,
  mem_scale, mem_end, with_index, with_base, mem_disp, mem_operand, reg_operand, parse_operand,
}
use mini_os.Assembler.Expressions.{Expr, parse_expr}
use mini_os.Assembler.Related.{
  Simulation, Related, Related-bind, Related-then, Related-if, Related-same,
}
use mini_os.Assembler.Related.Text.{
  skip_ws-Related, peek-Related, SameExpr, known, symbolic, text_rules, Related-expr,
  parse_expr-Related,
}

pub data SameOperand : Operand → Operand → Type 0 where
  alike :
      (o : Operand) (n : ℕ) (d e : Expr)
      → SameExpr d e
      → SameOperand (record o { disp = d }) (record o { scale = n; disp = e })

-- Two results that fail alike.
pub data SameOption {A : Type 0} (V : A → A → Type 0) : Option A → Option A → Type 0 where
  both_none : SameOption V none none
  both_some : (a b : A) → V a b → SameOption V (some a) (some b)

pub SameOperand-refl : (o : Operand) → SameOperand o o
SameOperand-refl o = alike o o.scale o.disp o.disp (known o.disp)

scaled :
    (o p : Operand) (d e : Expr)
    → SameOperand o p
    → SameExpr d e
    → SameOperand (record o { scale = d.val }) (record p { scale = e.val })
scaled _ _ _ _ (alike o n d e h) (known x) = alike (record o { scale = x.val }) x.val d e h
scaled _ _ _ _ (alike o n d e h) (symbolic v w) = alike (record o { scale = v }) w d e h

indexed :
    (o p : Operand) (i : Option ℕ)
    → SameOperand o p
    → SameOperand (record o { index = i }) (record p { index = i })
indexed _ _ i (alike o n d e h) = alike (record o { index = i }) n d e h

based :
    (o p : Operand) (i : Option ℕ)
    → SameOperand o p
    → SameOperand (record o { base = i }) (record p { base = i })
based _ _ i (alike o n d e h) = alike (record o { base = i }) n d e h

displaced :
    (d e : Expr)
    → SameExpr d e
    → SameOperand
        (record no_operand { kind = op_mem; disp = d })
        (record no_operand { kind = op_mem; disp = e })
displaced d e h = alike (record no_operand { kind = op_mem }) 1 d e h

immediate :
    (d e : Expr)
    → SameExpr d e
    → SameOperand
        (record no_operand { kind = op_imm; disp = d })
        (record no_operand { kind = op_imm; disp = e })
immediate d e h = alike (record no_operand { kind = op_imm }) 1 d e h

reg_operand_same : (r : Option (ℕ × ℕ)) → SameOption SameOperand (reg_operand r) (reg_operand r)
unfolding reg_operand
reg_operand_same none = both_none
reg_operand_same (some (r, size)) = both_some _ _ (SameOperand-refl _)

module _ {R : Simulation} where
  known_register-Related :
      (r : Option (ℕ × ℕ)) → Related R ◌≡◌ (known_register r) (known_register r)
  unfolding known_register
  known_register-Related none = search text_rules
  known_register-Related (some r) = search text_rules

  parse_reg_operand-Related : Related R ◌≡◌ parse_reg_operand parse_reg_operand
  unfolding parse_reg_operand
  parse_reg_operand-Related = search (text_rules, known_register-Related)

  checked-Related : (b : Bool) (r : Option (ℕ × ℕ)) → Related R ◌≡◌ (checked b r) (checked b r)
  unfolding checked
  checked-Related b none = search text_rules
  checked-Related b (some (r, size)) = search text_rules

  mem_register-Related : (b : Bool) → Related R ◌≡◌ (mem_register b) (mem_register b)
  unfolding mem_register
  mem_register-Related b = search (text_rules, parse_reg_operand-Related, checked-Related) depth 9

  mem_scale-Related :
      (o p : Operand) → SameOperand o p → Related R SameOperand (mem_scale o) (mem_scale p)
  unfolding mem_scale
  mem_scale-Related o p h = search (text_rules, Related-expr, parse_expr-Related, scaled) depth 12

  mem_end-Related :
      (o p : Operand) → SameOperand o p → Related R (SameOption SameOperand) (mem_end o) (mem_end p)
  unfolding mem_end
  mem_end-Related o p h = search (text_rules, both_none, both_some) depth 12

  Related-operand :
      {B : Type 0} {W : B → B → Type 0} (f g : Run Operand) (k l : Operand → Run B)
      → Related R SameOperand f g
      → ((o p : Operand) → SameOperand o p → Related R W (k o) (l p))
      → Related R W (f >>= k) (g >>= l)
  Related-operand f g k l h hk = Related-bind f g k l h hk

  with_index-Related :
      (o p : Operand) (r : Option (Option ℕ))
      → SameOperand o p
      → Related R (SameOption SameOperand) (with_index o r) (with_index p r)
  unfolding with_index
  with_index-Related o p none h = search (text_rules, both_none)
  with_index-Related o p (some i) h =
      search (Related-operand, mem_scale-Related, mem_end-Related, indexed)

  with_base-Related :
      (o p : Operand) (r : Option (Option ℕ))
      → SameOperand o p
      → Related R (SameOption SameOperand) (with_base o r) (with_base p r)
  unfolding with_base
  with_base-Related o p none h = search (text_rules, both_none)
  with_base-Related o p (some i) h =
      search (text_rules, mem_register-Related, with_index-Related, mem_end-Related, based) depth 12

  mem_disp-Related : Related R SameOperand mem_disp mem_disp
  unfolding mem_disp
  mem_disp-Related =
      search (text_rules, Related-expr, parse_expr-Related, displaced, SameOperand-refl) depth 12

  mem_operand-Related : Related R (SameOption SameOperand) mem_operand mem_operand
  unfolding mem_operand
  mem_operand-Related =
      search
        (
          text_rules, Related-operand, mem_disp-Related, mem_register-Related, with_base-Related,
          both_some,
        )
        depth 12

  reg_case :
      (r : Option (ℕ × ℕ))
      → Related R (SameOption SameOperand) (pure (reg_operand r)) (pure (reg_operand r))
  reg_case r = search (text_rules, reg_operand_same)

  imm_case :
      Related R
        (SameOption SameOperand)
        (parse_expr >>= λ e. pure (some (record no_operand { kind = op_imm; disp = e })))
        (parse_expr >>= λ e. pure (some (record no_operand { kind = op_imm; disp = e })))
  imm_case = search (text_rules, Related-expr, parse_expr-Related, immediate, both_some)

  pub parse_operand-Related :
      (n : ℕ) → Related R (SameOption SameOperand) (parse_operand n) (parse_operand n)
  unfolding parse_operand
  parse_operand-Related zero = search (text_rules, both_none)
  parse_operand-Related (suc n) = Related-then _ _ _ _ skip_ws-Related (
      Related-same _ _ _ _ peek-Related λ c.
        Related-if (c == 0) (c == 0) _ _ _ _ refl (search (text_rules, both_none)) (
          Related-if (c == 37) (c == 37) _ _ _ _ refl
            (search (text_rules, parse_reg_operand-Related, reg_case))
            (Related-if (c == 36) (c == 36) _ _ _ _ refl (search (text_rules, imm_case)) (
              Related-if (c == 42) (c == 42) _ _ _ _ refl
                (search (text_rules, parse_operand-Related n)) mem_operand-Related))))
