-- ===== src/Assembler/Passes.antt =====
-- The two passes of the assembler over a source, and the image it writes, user/as.c.
use mini_os.Base.{
  ℕ, zero, suc, ◌+◌, ◌/◌, ◌%◌, ◌≡◌, inl, inr, refl, true, false, not, ◌||◌, ◌==◌, ltb,
  if◌then◌else◌, arith, List, [], ◌∷◌, ◌++◌, Option, none, some, get_or, drop, length, Bool-cases,
}
use mathlib.Core.Path.{subst}
use mini_os.Base.Words.{add32}
use mini_os.Base.Bytes.{Memory, copy, fill, poke, of_list, put_word}
use mini_os.Assembler.{
  Sym, Asm, Run, ◌>>=◌, codes, sec_text, base_of, max_text, max_data, elf_hdr_size,
}
use mini_os.Assembler.Lexer.{sym_find, no_sym, first}
use mini_os.Assembler.Lines.{asm_line}
use mathlib.Core.List.{map}

-- A line of the source for a buffer with room for `n` characters, and what follows them.
unfoldable pub take_line : ℕ → List ℕ → List ℕ × List ℕ
take_line zero p = ([], p)
take_line (suc n) [] = ([], [])
take_line (suc n) (c ∷ p) =
    let r = take_line n p in if (c == 0) || (c == b'\n') then ([], c ∷ p) else (c ∷ r.0, r.1)

unfoldable pub skip_newline : List ℕ → List ℕ
skip_newline p = if first p == b'\n' then drop 1 p else p

-- The line's buffer, behind whose NUL the lines before are left.
unfoldable pub fill_line : List ℕ → Run (Unit {0})
fill_line chars s =
    let b = chars ++ (0 ∷ drop (length chars + 1) s.line) in (tt, record s { line = b; lp = b })

-- The state after a line.
unfoldable pub after_line : List ℕ → Asm → Asm
after_line chars s = ((fill_line chars >>= λ _. asm_line) s).1

-- The lines of a source; each round takes a character at least.
unfoldable pub pass_loop : ℕ → List ℕ → Asm → Asm
pass_loop zero p s = s
pass_loop (suc n) p s = elim (first p == 0) [
  | true ↦ s
  | false ↦
      let r = take_line 255 p in
      let t = after_line (r.0) s in
      elim (ltb 20 t.err_count) [ true ↦ t | false ↦ pass_loop n (skip_newline (r.1)) t ]
]

pub pass_loop_end :
    (n : ℕ) (p : List ℕ) (s : Asm) → (first p == 0) ≡ true → pass_loop (suc n) p s ≡ s
unfolding pass_loop
pass_loop_end n p s e = rw (e, pass_loop) refl

pub pass_loop_stop :
    (n : ℕ) (p : List ℕ) (s : Asm)
    → (first p == 0) ≡ false
    → ltb 20 (after_line ((take_line 255 p).0) s).err_count ≡ true
    → pass_loop (suc n) p s ≡ after_line ((take_line 255 p).0) s
unfolding pass_loop
pass_loop_stop n p s e f = rw (e, f, pass_loop) refl

pub pass_loop_next :
    (n : ℕ) (p : List ℕ) (s : Asm)
    → (first p == 0) ≡ false
    → ltb 20 (after_line ((take_line 255 p).0) s).err_count ≡ false
    → pass_loop (suc n) p s
      ≡ pass_loop n (skip_newline ((take_line 255 p).1)) (after_line ((take_line 255 p).0) s)
unfolding pass_loop
pass_loop_next n p s e f = rw (e, f, pass_loop) refl

-- A pass without errors goes on behind each line.
pub few_errors :
    (n : ℕ) (p : List ℕ) (s : Asm)
    → (first p == 0) ≡ false
    → (pass_loop (suc n) p s).err_count ≡ 0
    → ltb 20 (after_line ((take_line 255 p).0) s).err_count ≡ false
few_errors n p s e z = elim (Bool-cases (ltb 20 (after_line ((take_line 255 p).0) s).err_count)) [
  | inl f ↦ absurd (ground (arith, subst (λ x. x.err_count ≡ 0) (pass_loop_stop n p s e f) z))
  | inr f ↦ f
]

-- The state at the start of a pass: `left` is what the line's buffer holds, which the code does
-- not set.
abbrev pub pass_start : ℕ → List ℕ → Asm → Asm
pass_start which left s = record s {
  pass = which;
  cur_sec = sec_text;
  text_len = 0;
  data_len = 0;
  bss_len = 0;
  line = left;
}

unfoldable pub run_pass : ℕ → List ℕ → List ℕ → Asm → Asm
run_pass which src left s = pass_loop (length src) src (pass_start which left s)

-- The bases of the sections, and the addresses of the labels.
unfoldable pub sym_addr : Asm → Sym → Sym
unfolding base_of
sym_addr s y =
    if y.is_abs || not y.defined
    then y
    else record y { addr = add32 (base_of y.section s) y.offset }

unfoldable pub layout : Asm → Asm
unfolding sym_addr
layout s =
    let t = record s {
      base_text = elf_hdr_size;
      base_data = elf_hdr_size + s.text_len;
      base_bss = elf_hdr_size + s.text_len + s.data_len;
    } in
    record t { syms = map (sym_addr t) t.syms }

unfoldable pub defined_sym : List ℕ → List Sym → Option ℕ
unfolding sym_find
defined_sym name syms = elim (sym_find name syms) [
  | none ↦ none
  | some i ↦ let found = get_or syms i no_sym in if found.defined then some found.addr else none
]

unfoldable pub entry_of : Asm → ℕ
unfolding defined_sym
entry_of s = elim (defined_sym (codes "_start") s.syms) [
  | some a ↦ a
  | none ↦ get_or_base (defined_sym (codes "main") s.syms) s
]
  where
    get_or_base : Option ℕ → Asm → ℕ
    get_or_base (some a) s = a
    get_or_base none s = s.base_text

-- A 16-bit word, least significant byte first.
unfoldable pub put_half : Memory → ℕ → ℕ → Memory
unfolding poke
put_half m a v = poke (poke m a (v % 256)) (a + 1) (v / 256 % 256)

-- The ELF header and the program header.
unfoldable pub elf_header : ℕ → ℕ → ℕ → Memory
unfolding put_half put_word of_list fill
elf_header entry file_sz mem_sz =
    let ident = copy (λ _. 0) 0 (of_list (0x7F ∷ b'E' ∷ b'L' ∷ b'F' ∷ 1 ∷ 1 ∷ 1 ∷ [])) 0 7 in
    let e0 = put_half (put_half ident 16 2) 18 3 in
    let e1 = put_word (put_word (put_word e0 20 1) 24 entry) 28 52 in
    let e2 = put_half (put_half (put_half e1 40 52) 42 32) 44 1 in
    let p0 = put_word (put_word (put_word (put_word e2 52 1) 56 0) 60 0) 64 0 in
    put_word (put_word (put_word (put_word p0 68 file_sz) 72 mem_sz) 76 7) 80 0x1000

-- The size of the image and its bytes, none for -1.
unfoldable pub build_elf : ℕ → Asm → Option (ℕ × Memory)
unfolding entry_of elf_header copy
build_elf out_max s =
    let file_sz = elf_hdr_size + s.text_len + s.data_len in
    let header = elf_header (entry_of s) file_sz (add32 file_sz s.bss_len) in
    let text = copy header elf_hdr_size s.text_buf 0 s.text_len in
    if ltb out_max file_sz
    then none
    else some (file_sz, copy text (elf_hdr_size + s.text_len) s.data_buf 0 s.data_len)

abbrev pub image_max : ℕ
image_max = max_text + max_data + elf_hdr_size

-- How `main` ends behind the read of the source: with the final state, and what it hands to
-- `sys_save`.
pub data Outcome : Type 0 where
  errors too_large : Asm → Outcome
  image : ℕ → Memory → Asm → Outcome

unfoldable pub written : Asm → Option (ℕ × Memory) → Outcome
written s none = too_large s
written s (some (size, m)) = image size m s

-- The state between the two emitting passes, whose first one finds `left` in its line's buffer.
abbrev pub between_passes : List ℕ → List ℕ → Asm → Asm
between_passes src left s = record (run_pass 2 src left s) { err_count = 0 }

-- The two emitting passes, each with what it finds in its line's buffer.
unfoldable pub emitted : List ℕ → (ℕ → List ℕ) → Asm → Asm
emitted src left s = run_pass 2 src (left 2) (between_passes src (left 1) s)

-- How `main` ends behind the sizing pass and behind the emitting passes.
unfoldable pub ending : Asm → Asm → Outcome
ending s1 s2 =
    if not (s1.err_count == 0)
    then errors s1
    else if not (s2.err_count == 0)
    then errors s2
    else written s2 (build_elf image_max s2)

-- `main` for a source that was read. The buffer of `run_pass` is not set at the start of a call:
-- `left 0`, `left 1` and `left 2` are what the three passes find there.
unfoldable pub assemble : List ℕ → (ℕ → List ℕ) → Asm → Outcome
assemble src left s = let s1 = run_pass 1 src (left 0) s in ending s1 (emitted src left (layout s1))
