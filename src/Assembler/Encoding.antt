-- ===== src/Assembler/Encoding.antt =====
-- ModRM, SIB and displacement, and the tables of the instructions, user/as.c.
use mini_os.Base.{
  ℕ, ◌+◌, ◌*◌, ◌%◌, Bool, true, false, not, ◌&&◌, ◌||◌, ◌==◌, ltb, leb, if◌then◌else◌, List, [],
  ◌∷◌, Option, none, some, take, drop, length,
}
use mini_os.Base.Words.{add32, sub32}
use Prim.Native.String.{String}
use mini_os.Assembler.{Run, ◌>>=◌, ◌>>◌, pure, done, err, emit8, emit32, is, same, codes, cur_addr}
use mini_os.Assembler.Expressions.{Expr}
use mini_os.Assembler.Operands.{OpKind, op_none, op_reg, op_imm, op_mem, Operand}

unfoldable pub is_kind : OpKind → OpKind → Bool
is_kind op_none op_none = true
is_kind op_reg op_reg = true
is_kind op_imm op_imm = true
is_kind op_mem op_mem = true
is_kind _ _ = false

unfoldable pub is_reg : Operand → Bool
unfolding is_kind
is_reg o = is_kind o.kind op_reg

unfoldable pub is_imm : Operand → Bool
unfolding is_kind
is_imm o = is_kind o.kind op_imm

unfoldable pub is_mem : Operand → Bool
unfolding is_kind
is_mem o = is_kind o.kind op_mem

-- `r < 0`
unfoldable pub absent : Option ℕ → Bool
absent none = true
absent (some r) = false

-- A memory operand with neither base nor index.
unfoldable pub is_absolute : Operand → Bool
is_absolute o = is_mem o && absent o.base && absent o.index

unfoldable pub scale_bits : ℕ → Run ℕ
scale_bits s =
    if s == 1
    then pure 0
    else if s == 2
    then pure 1
    else if s == 4
    then pure 2
    else if s == 8
    then pure 3
    else (do err; pure 0)

-- `v >= -128 && v <= 127`, in two's complement.
unfoldable pub byte_value : ℕ → Bool
byte_value v = ltb v 128 || leb 4294967168 v

unfoldable pub mod_of : Operand → ℕ → ℕ
unfolding byte_value
mod_of o base =
    if o.disp.has_sym
    then 2
    else if (o.disp.val == 0) && not (base == 5)
    then 0
    else if byte_value o.disp.val
    then 1
    else 2

-- The bytes of a SIB, `5` or `4` standing for no base and no index.
unfoldable pub emit_sib : ℕ → ℕ → ℕ → Run (Unit {0})
emit_sib scale index base = do bits ← scale_bits scale; emit8 (bits * 64 + index * 8 + base)

unfoldable pub emit_disp : ℕ → ℕ → Run (Unit {0})
emit_disp form v = if form == 1 then emit8 (v % 256) else if form == 2 then emit32 v else done

unfoldable pub emit_based : ℕ → Operand → ℕ → Run (Unit {0})
unfolding mod_of
emit_based reg o base = do
  if not (absent o.index) || (base == 4)
      then (do emit8 (mod_of o base * 64 + reg * 8 + 4); emit_sib o.scale (index_or_4 o.index) base)
      else emit8 (mod_of o base * 64 + reg * 8 + base)
  emit_disp (mod_of o base) o.disp.val
  where
    index_or_4 : Option ℕ → ℕ
    index_or_4 none = 4
    index_or_4 (some i) = i

unfoldable pub emit_unbased : ℕ → Operand → Option ℕ → Run (Unit {0})
emit_unbased reg o none = do emit8 (reg * 8 + 5); emit32 o.disp.val
emit_unbased reg o (some i) = do emit8 (reg * 8 + 4); emit_sib o.scale i 5; emit32 o.disp.val

unfoldable pub emit_mem : ℕ → Operand → Option ℕ → Run (Unit {0})
emit_mem reg o none = emit_unbased reg o o.index
emit_mem reg o (some base) = emit_based reg o base

unfoldable pub emit_modrm : ℕ → Operand → Run (Unit {0})
emit_modrm reg o =
    if is_reg o
    then emit8 (192 + reg % 8 * 8 + o.reg)
    else if not (is_mem o)
    then err
    else emit_mem (reg % 8) o o.base

unfoldable pub imm_fits8 : Operand → Bool
unfolding byte_value
imm_fits8 o = not o.disp.has_sym && byte_value o.disp.val

-- What `emit_rel32` writes at `here`: 0 in pass 1.
unfoldable pub rel32 : ℕ → ℕ → Run ℕ
rel32 target at s = (if s.pass == 2 then sub32 target (add32 at 4) else 0, s)

unfoldable pub emit_rel32 : Expr → Run (Unit {0})
emit_rel32 target = do at ← cur_addr; v ← rel32 target.val at; emit32 v

unfoldable pub lookup : List ℕ → List (String × ℕ) → Option ℕ
unfolding is
lookup m [] = none
lookup m ((t, n) ∷ ts) = let later = lookup m ts in if is m t then some n else later

abbrev pub alu_ops : List (String × ℕ)
alu_ops =
    ("add", 0)
    ∷ ("or", 1)
    ∷ ("adc", 2)
    ∷ ("sbb", 3)
    ∷ ("and", 4)
    ∷ ("sub", 5)
    ∷ ("xor", 6)
    ∷ ("cmp", 7)
    ∷ []

abbrev pub cc_ops : List (String × ℕ)
cc_ops =
    ("o", 0)
    ∷ ("no", 1)
    ∷ ("b", 2)
    ∷ ("nae", 2)
    ∷ ("c", 2)
    ∷ ("ae", 3)
    ∷ ("nb", 3)
    ∷ ("nc", 3)
    ∷ ("e", 4)
    ∷ ("z", 4)
    ∷ ("ne", 5)
    ∷ ("nz", 5)
    ∷ ("be", 6)
    ∷ ("na", 6)
    ∷ ("a", 7)
    ∷ ("nbe", 7)
    ∷ ("s", 8)
    ∷ ("ns", 9)
    ∷ ("p", 10)
    ∷ ("np", 11)
    ∷ ("l", 12)
    ∷ ("nge", 12)
    ∷ ("ge", 13)
    ∷ ("nl", 13)
    ∷ ("le", 14)
    ∷ ("ng", 14)
    ∷ ("g", 15)
    ∷ ("nle", 15)
    ∷ []

unfoldable pub cc_lookup : List ℕ → Option ℕ
unfolding lookup
cc_lookup s = lookup s cc_ops

-- The condition behind a prefix: `!strncmp(m, prefix, n)` and `cc_lookup(m + n)`.
unfoldable pub cc_after : String → List ℕ → Option ℕ
unfolding same cc_lookup
cc_after prefix m =
    if same (take (length (codes prefix)) m) (codes prefix)
    then cc_lookup (drop (length (codes prefix)) m)
    else none

unfoldable pub shift_digit : List ℕ → Option ℕ
unfolding lookup
shift_digit m =
    lookup m (("shl", 4) ∷ ("sal", 4) ∷ ("shr", 5) ∷ ("sar", 7) ∷ ("rol", 0) ∷ ("ror", 1) ∷ [])

unfoldable pub unary_digit : List ℕ → Option ℕ
unfolding lookup
unary_digit m = lookup m (("not", 2) ∷ ("neg", 3) ∷ ("mul", 4) ∷ ("div", 6) ∷ ("idiv", 7) ∷ [])
