-- ===== src/Assembler/Operands.antt =====
-- The registers and the operands of the assembler, user/as.c.
use mini_os.Base.{
  ℕ, zero, suc, ◌+◌, Bool, true, false, not, ◌&&◌, ◌||◌, ◌==◌, if◌then◌else◌, List, [], ◌∷◌, Option,
  none, some,
}
use Prim.Native.String.{String}
use mini_os.Assembler.{Run, ◌>>=◌, ◌>>◌, pure, err, is}
use mini_os.Assembler.Lexer.{skip_ws, peek, advance, eat, read_name}
use mini_os.Assembler.Expressions.{Expr, constant, parse_expr}

abbrev pub reg32 : List String
reg32 = "eax" ∷ "ecx" ∷ "edx" ∷ "ebx" ∷ "esp" ∷ "ebp" ∷ "esi" ∷ "edi" ∷ []

abbrev pub reg8 : List String
reg8 = "al" ∷ "cl" ∷ "dl" ∷ "bl" ∷ "ah" ∷ "ch" ∷ "dh" ∷ "bh" ∷ []

abbrev pub reg16 : List String
reg16 = "ax" ∷ "cx" ∷ "dx" ∷ "bx" ∷ "sp" ∷ "bp" ∷ "si" ∷ "di" ∷ []

-- The place of a name in a table, from `i` on.
unfoldable pub place : List ℕ → ℕ → List String → Option ℕ
unfolding is
place m i [] = none
place m i (t ∷ ts) = let later = place m (i + 1) ts in if is m t then some i else later

unfoldable pub or_else : {A : Type 0} → Option A → Option A → Option A
or_else (some a) b = some a
or_else none b = b

unfoldable pub sized : ℕ → Option ℕ → Option (ℕ × ℕ)
sized size none = none
sized size (some r) = some (r, size)

-- The register's number and its size, none for -1.
unfoldable pub reg_lookup : List ℕ → Option (ℕ × ℕ)
unfolding place or_else sized
reg_lookup name =
    or_else (sized 4 (place name 0 reg32))
      (or_else (sized 1 (place name 0 reg8)) (sized 2 (place name 0 reg16)))

pub data OpKind : Type 0 where
  op_none op_reg op_imm op_mem : OpKind

-- `base` and `index` are none for -1.
pub record Operand : Type 0 where
  pub kind : OpKind
  pub reg : ℕ
  pub size : ℕ
  pub base : Option ℕ
  pub index : Option ℕ
  pub scale : ℕ
  pub disp : Expr

-- The operand after `memset` and the lines that follow it.
abbrev pub no_operand : Operand
no_operand = record {
  kind = op_none;
  reg = 0;
  size = 0;
  base = none;
  index = none;
  scale = 1;
  disp = constant 0;
}

unfoldable pub known_register : Option (ℕ × ℕ) → Run (Option (ℕ × ℕ))
known_register none = do err; pure none
known_register (some r) = pure (some r)

-- The register's number and size, none where the function returns 0.
unfoldable pub parse_reg_operand : Run (Option (ℕ × ℕ))
unfolding reg_lookup
parse_reg_operand = do
  name ← read_name 32
  if same_empty name then (do err; pure none) else known_register (reg_lookup name)
  where
    same_empty : List ℕ → Bool
    same_empty [] = true
    same_empty _ = false

-- The checks on a base register and on an index register.
unfoldable pub checked : Bool → Option (ℕ × ℕ) → Run (Option (Option ℕ))
checked no_esp none = pure none
checked no_esp (some (r, size)) =
    if not (size == 4) || (no_esp && (r == 4)) then (do err; pure none) else pure (some (some r))

-- The register behind a `%`, if there is one; none where the function returns 0.
unfoldable pub mem_register : Bool → Run (Option (Option ℕ))
mem_register no_esp = do
  skip_ws
  c ← peek
  if c == b'%' then (do advance 1; r ← parse_reg_operand; checked no_esp r) else pure (some none)

unfoldable pub mem_scale : Operand → Run Operand
mem_scale o = do
  skip_ws
  c ← peek
  if c == b',' then (do advance 1; e ← parse_expr; pure (record o { scale = e.val })) else pure o

-- `return 1` behind the closing parenthesis.
unfoldable pub mem_end : Operand → Run (Option Operand)
mem_end o = do ok ← eat b')'; if ok then pure (some o) else (do err; pure none)

unfoldable pub with_index : Operand → Option (Option ℕ) → Run (Option Operand)
with_index o none = pure none
with_index o (some r) = mem_scale (record o { index = r }) >>= mem_end

unfoldable pub with_base : Operand → Option (Option ℕ) → Run (Option Operand)
with_base o none = pure none
with_base o (some r) = do
  skip_ws
  c ← peek
  if c == b','
      then (do advance 1; i ← mem_register true; with_index (record o { base = r }) i)
      else mem_end (record o { base = r })

unfoldable pub mem_disp : Run Operand
mem_disp = do
  skip_ws
  c ← peek
  if c == b'('
      then pure (record no_operand { kind = op_mem })
      else (do e ← parse_expr; pure (record no_operand { kind = op_mem; disp = e }))

unfoldable pub mem_operand : Run (Option Operand)
mem_operand = do
  o ← mem_disp
  skip_ws
  c ← peek
  if c == b'(' then (do advance 1; r ← mem_register false; with_base o r) else pure (some o)

unfoldable pub reg_operand : Option (ℕ × ℕ) → Option Operand
reg_operand none = none
reg_operand (some (r, size)) = some (record no_operand { kind = op_reg; reg = r; size = size })

-- `parse_operand`, none where it returns 0. A `*` in front of an operand is skipped, here as often
-- as the line has characters.
unfoldable pub parse_operand : ℕ → Run (Option Operand)
unfolding reg_operand
parse_operand zero = pure none
parse_operand (suc n) = do
  skip_ws
  c ← peek
  if c == 0
      then pure none
      else if c == b'%'
      then (do advance 1; r ← parse_reg_operand; pure (reg_operand r))
      else if c == b'$'
      then (do
        advance 1
        e ← parse_expr
        pure (some (record no_operand { kind = op_imm; disp = e })))
      else if c == b'*'
      then (do advance 1; parse_operand n)
      else mem_operand
