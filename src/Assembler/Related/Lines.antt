-- ===== src/Assembler/Related/Lines.antt =====
-- The lines of two related runs, user/as.c.
use mini_os.Base.{
  ℕ, zero, suc, ◌≡◌, refl, sym, ap, ◌∙◌, Bool, true, false, ◌==◌, if◌then◌else◌, List, [], ◌∷◌,
  ◌++◌, Option, none, some, get_or, length,
}
use mathlib.Core.Path.{subst}
use mini_os.Assembler.{Asm, Run, ◌>>=◌, ◌>>◌, pure, done, err}
use mini_os.Assembler.Lexer.{first, skip_ws}
use mini_os.Assembler.Operands.{Operand, no_operand}
use mini_os.Assembler.Encoding.{is_reg}
use mini_os.Assembler.Mnemonics.{asm_insn}
use mini_os.Assembler.Directives.{align, directives, directive_of, do_directive, is_empty}
use mini_os.Assembler.Lines.{
  define_label, label_round, labels, after_operand, operands, width, instruction, dotted, statement,
  mnemonic, behind_mnemonic, asm_line,
}
use mini_os.Assembler.Related.{
  Simulation, step_at, value_at, Related, Any, Related-then, Related-text, Related-bind,
  err-Related, done-Related,
}
use mini_os.Assembler.Related.Text.{skip_ws-Related, text_rules}
use mini_os.Assembler.Related.Operands.{
  SameOperand, alike, SameOperand-refl, SameOption, both_none, both_some, parse_operand-Related,
}
use mini_os.Assembler.Related.Encoding.{is_reg_same}
use mini_os.Assembler.Related.Instructions.{asm_insn-Related}
use mini_os.Assembler.Related.Directives.{FixedAt, directive_at}

pub data SameOperands : List Operand → List Operand → Type 0 where
  none_left : SameOperands [] []
  one_more :
      (a b : Operand) (xs ys : List Operand)
      → SameOperand a b
      → SameOperands xs ys
      → SameOperands (a ∷ xs) (b ∷ ys)

SameOperands-append :
    (xs ys : List Operand) (a b : Operand)
    → SameOperands xs ys
    → SameOperand a b
    → SameOperands (xs ++ (a ∷ [])) (ys ++ (b ∷ []))
SameOperands-append _ _ a b none_left h = one_more a b [] [] h none_left
SameOperands-append _ _ a b (one_more c d cs ds hc hs) h =
    one_more c d _ _ hc (SameOperands-append cs ds a b hs h)

length_same : (xs ys : List Operand) → SameOperands xs ys → length xs ≡ length ys
length_same _ _ none_left = refl
length_same _ _ (one_more c d cs ds hc hs) = ap suc (length_same cs ds hs)

get_or_same :
    (xs ys : List Operand) (i : ℕ)
    → SameOperands xs ys
    → SameOperand (get_or xs i no_operand) (get_or ys i no_operand)
get_or_same _ _ i none_left = SameOperand-refl no_operand
get_or_same _ _ zero (one_more c d cs ds hc hs) = hc
get_or_same _ _ (suc i) (one_more c d cs ds hc hs) = get_or_same cs ds i hs

size_same : (a b : Operand) → SameOperand a b → a.size ≡ b.size
size_same _ _ (alike o n d e h) = refl

width_same : (xs ys : List Operand) (d : ℕ) → SameOperands xs ys → width d xs ≡ width d ys
unfolding width
width_same _ _ d none_left = refl
width_same _ _ d (one_more a b cs ds hc hs) =
    ap (λ x. width x cs)
      (ap (λ x. if x then a.size else d) (is_reg_same a b hc)
        ∙ ap (λ x. if is_reg b then x else d) (size_same a b hc))
    ∙ width_same cs ds (if is_reg b then b.size else d) hs

module _ {R : Simulation} where
  define_label-Related : (name : List ℕ) → Related R Any (define_label name) (define_label name)
  define_label-Related name = record { value = λ s t r. tt; state = R.label_at name }

  label_round-Related :
      (p : List ℕ) (f g : Run Bool)
      → Related R ◌≡◌ f g
      → Related R ◌≡◌ (label_round p f) (label_round p g)
  unfolding label_round
  label_round-Related p f g h = search (text_rules, define_label-Related) depth 20

  labels-Related : (n : ℕ) → Related R ◌≡◌ (labels n) (labels n)
  unfolding labels
  labels-Related zero = search text_rules
  labels-Related (suc n) =
      Related-then _ _ _ _ skip_ws-Related
        (Related-text _ _ λ p. label_round-Related p _ _ (labels-Related n))

  pub mnemonic-Related : Related R ◌≡◌ mnemonic mnemonic
  unfolding mnemonic
  mnemonic-Related = search (text_rules, labels-Related) depth 12

  after_operand-Related :
      (xs ys : List Operand) (f g : List Operand → Run (Option (List Operand)))
      (o p : Option Operand)
      → SameOperands xs ys
      → ((cs ds : List Operand)
          → SameOperands cs ds
          → Related R (SameOption SameOperands) (f cs) (g ds))
      → SameOption SameOperand o p
      → Related R (SameOption SameOperands) (after_operand xs f o) (after_operand ys g p)
  unfolding after_operand
  after_operand-Related xs ys f g _ _ h hf both_none = search (text_rules, both_none)
  after_operand-Related xs ys f g _ _ h hf (both_some a b ho) =
      search (text_rules, hf, both_some, SameOperands-append) depth 12

  Related-parsed :
      {B : Type 0} {W : B → B → Type 0} (f g : Run (Option Operand)) (k l : Option Operand → Run B)
      → Related R (SameOption SameOperand) f g
      → ((o p : Option Operand) → SameOption SameOperand o p → Related R W (k o) (l p))
      → Related R W (f >>= k) (g >>= l)
  Related-parsed f g k l h hk = Related-bind f g k l h hk

  operands-Related :
      (n : ℕ) (xs ys : List Operand)
      → SameOperands xs ys
      → Related R (SameOption SameOperands) (operands n xs) (operands n ys)
  unfolding operands
  operands-Related zero xs ys h = search (text_rules, both_none, both_some) depth 12
  operands-Related (suc n) xs ys h =
      search
        (
          text_rules,
          both_some,
          Related-parsed,
          parse_operand-Related,
          after_operand-Related,
          operands-Related n,
        )
        depth 12

  instruction-Related :
      (stem : List ℕ) (size : ℕ) (o p : Option (List Operand))
      → SameOption SameOperands o p
      → Related R Any (instruction stem size o) (instruction stem size p)
  unfolding instruction
  instruction-Related stem size _ _ both_none = done-Related
  instruction-Related stem size _ _ (both_some xs ys h) =
      subst
        (λ k.
          Related R Any
            (asm_insn stem (get_or xs 0 no_operand) (get_or xs 1 no_operand)
              (get_or xs 2 no_operand) (length xs) (if size == 0 then width 4 xs else size))
            (asm_insn stem (get_or ys 0 no_operand) (get_or ys 1 no_operand)
              (get_or ys 2 no_operand) (length ys) k))
        (ap (λ w. if size == 0 then w else size) (width_same xs ys 4 h))
        (subst
          (λ n.
            Related R Any
              (asm_insn stem (get_or xs 0 no_operand) (get_or xs 1 no_operand)
                (get_or xs 2 no_operand) (length xs) (if size == 0 then width 4 xs else size))
              (asm_insn stem (get_or ys 0 no_operand) (get_or ys 1 no_operand)
                (get_or ys 2 no_operand) n (if size == 0 then width 4 xs else size)))
          (length_same xs ys h)
          (asm_insn-Related stem _ _ _ _ _ _ _ _ (get_or_same xs ys 0 h) (get_or_same xs ys 1 h)
            (get_or_same xs ys 2 h)))

  Related-operands :
      {B : Type 0} {W : B → B → Type 0} (f g : Run (Option (List Operand)))
      (k l : Option (List Operand) → Run B)
      → Related R (SameOption SameOperands) f g
      → ((o p : Option (List Operand)) → SameOption SameOperands o p → Related R W (k o) (l p))
      → Related R W (f >>= k) (g >>= l)
  Related-operands f g k l h hk = Related-bind f g k l h hk

  instruction_line-Related :
      (stem : List ℕ) (size : ℕ)
      → Related R Any
          (skip_ws >> (operands 3 [] >>= instruction stem size))
          (skip_ws >> (operands 3 [] >>= instruction stem size))
  instruction_line-Related stem size =
      search (text_rules, Related-operands, operands-Related, instruction-Related, none_left)

module _ (R : Simulation) where
  -- At a `.align` the alignments may differ.
  abbrev pub FixedFor : List ℕ → Asm → Asm → Type 0
  FixedFor mnem s t =
      (power : Bool) → directive_of mnem directives ≡ align power → FixedAt R power s t

  dotted_at :
      (b : Bool) (mnem : List ℕ) (s t : Asm)
      → R.Rel s t
      → FixedFor mnem s t
      → R.Rel (dotted b mnem s).1 (dotted b mnem t).1
  unfolding dotted do_directive
  dotted_at true mnem s t r h = directive_at R (directive_of mnem directives) s t r h
  dotted_at false mnem s t r h = step_at R s t (instruction_line-Related _ _) r

  pub statement_at :
      (mnem : List ℕ) (s t : Asm)
      → R.Rel s t
      → FixedFor mnem s t
      → R.Rel (statement mnem s).1 (statement mnem t).1
  unfolding statement
  statement_at mnem s t r h = at (is_empty mnem)
    where
      at :
          (b : Bool)
          → R.Rel
              ((if b then err else dotted (first mnem == b'.') mnem) s).1
              ((if b then err else dotted (first mnem == b'.') mnem) t).1
      at true = step_at R s t err-Related r
      at false = dotted_at (first mnem == b'.') mnem s t r h

  pub asm_line_at :
      (s t : Asm)
      → R.Rel s t
      → ((mnem : List ℕ) → (mnemonic t).0 ≡ some mnem → FixedFor mnem (mnemonic s).1 (mnemonic t).1)
      → R.Rel (asm_line s).1 (asm_line t).1
  unfolding asm_line behind_mnemonic ◌>>=◌ done pure
  asm_line_at s t r h =
      behind_at (mnemonic s).0 (mnemonic t).0 _ _ (mnemonic-value s t r)
        (step_at R s t mnemonic-Related r) h
    where
      mnemonic-value : (s t : Asm) → R.Rel s t → (mnemonic s).0 ≡ (mnemonic t).0
      mnemonic-value s t r = value_at R s t mnemonic-Related r

      behind_at :
          (m n : Option (List ℕ)) (u v : Asm)
          → m ≡ n
          → R.Rel u v
          → ((mnem : List ℕ) → n ≡ some mnem → FixedFor mnem u v)
          → R.Rel (behind_mnemonic m u).1 (behind_mnemonic n v).1
      behind_at m none u v e r h =
          subst (λ x. R.Rel (behind_mnemonic x u).1 v) (sym e) (step_at R u v done-Related r)
      behind_at m (some k) u v e r h =
          subst (λ x. R.Rel (behind_mnemonic x u).1 (statement k v).1) (sym e)
            (statement_at k u v r (h k refl))
