-- ===== src/Assembler/Related.antt =====
-- Runs of the assembler side by side, user/as.c: a relation on its states that the basic actions
-- keep, and the rules by which the composed actions keep it.
pub mod Text
pub mod Operands
pub mod Encoding
pub mod Instructions
pub mod Directives
pub mod Lines
use mini_os.Base.{
  ℕ, zero, suc, ◌+◌, ◌-◌, ◌*◌, ◌/◌, ◌%◌, ◌^◌, ◌≤◌, ◌<◌, ◌≡◌, ◌≢◌, ◌↔◌, ◌⊎◌, inl, inr, refl, sym, ap,
  ◌∙◌, Bool, true, false, not, ◌&&◌, ◌||◌, ◌==◌, ltb, leb, if◌then◌else◌, arith, List, [], ◌∷◌,
  ◌++◌, Option, none, some, get_or, set, take, drop, length, replicate, Bool-cases, Option-cases,
  length-set, length-append, get_or-append_left, get_or-append_right, take-append, get_or-set_self,
  get_or-set_ne, ℕ_discrete, dec_lt,
}
use mathlib.Core.Path.{subst}
use mathlib.Core.List.{append-nil, append_assoc}
use mini_os.Base.Words.{add32, sub32, mul32, u32_mod, u64_mod}
use mini_os.Base.Bytes.{
  Memory, copy, fill, poke, of_list, read_bytes, word_at, put_word, copy_inside, copy_outside,
  fill_outside,
}
use mini_os.Assembler.{
  Asm, Run, ◌>>=◌, ◌>>◌, pure, done, err, cursor, move, emit8, Section, sec_bss,
}
use mini_os.Assembler.Expressions.{sym_value}
use mini_os.Assembler.Directives.{set_section, pad_to, define_equ}
use mini_os.Assembler.Lines.{define_label}

-- What the basic actions keep, whatever the values are that they write. `Fixed` says which two
-- alignments may differ.
pub record Simulation : Type 1 where
  pub Rel : Asm → Asm → Type 0
  pub Fixed : ℕ → ℕ → Type 0
  pub same_lp : (s t : Asm) → Rel s t → s.lp ≡ t.lp
  pub same_sec : (s t : Asm) → Rel s t → s.cur_sec ≡ t.cur_sec
  pub move_at : (p : List ℕ) (s t : Asm) → Rel s t → Rel (move p s).1 (move p t).1
  pub sec_at : (c : Section) (s t : Asm) → Rel s t → Rel (set_section c s).1 (set_section c t).1
  pub emit_at : (b c : ℕ) (s t : Asm) → Rel s t → Rel (emit8 b s).1 (emit8 c t).1
  pub err_left : (s t : Asm) → Rel s t → Rel (err s).1 t
  pub err_right : (s t : Asm) → Rel s t → Rel s (err t).1
  pub bss_at :
      (n : ℕ) (s t : Asm)
      → Rel s t
      → s.cur_sec ≡ sec_bss
      → Rel (record s { bss_len = add32 s.bss_len n }) (record t { bss_len = add32 t.bss_len n })
  pub pad_at : (a b : ℕ) (s t : Asm) → Fixed a b → Rel s t → Rel (pad_to a s).1 (pad_to b t).1
  pub label_at :
      (name : List ℕ) (s t : Asm) → Rel s t → Rel (define_label name s).1 (define_label name t).1
  pub equ_at :
      (name : List ℕ) (v w : ℕ) (s t : Asm)
      → Rel s t
      → Rel (define_equ name v s).1 (define_equ name w t).1

-- From related states the actions give related values and states.
pub record Related (R : Simulation) {A : Type 0} (V : A → A → Type 0) (f g : Run A) : Type 0 where
  pub value : (s t : Asm) → R.Rel s t → V (f s).0 (g t).0
  pub state : (s t : Asm) → R.Rel s t → R.Rel (f s).1 (g t).1

abbrev pub Any : Unit {0} → Unit {0} → Type 0
Any x y = Unit

module _ {R : Simulation} where
  pub Related-pure :
      {A : Type 0} (V : A → A → Type 0) (a b : A) → V a b → Related R V (pure a) (pure b)
  unfolding pure
  Related-pure V a b v = record { value = λ s t r. v; state = λ s t r. r }

  pub Related-bind :
      {A B : Type 0} {V : A → A → Type 0} {W : B → B → Type 0} (f g : Run A) (k l : A → Run B)
      → Related R V f g
      → ((a b : A) → V a b → Related R W (k a) (l b))
      → Related R W (f >>= k) (g >>= l)
  unfolding ◌>>=◌
  Related-bind f g k l h hk = record {
    value = λ s t r. (hk (f s).0 (g t).0 (h.value s t r)).value (f s).1 (g t).1 (h.state s t r);
    state = λ s t r. (hk (f s).0 (g t).0 (h.value s t r)).state (f s).1 (g t).1 (h.state s t r);
  }

  pub Related-then :
      {B : Type 0} {W : B → B → Type 0} (f g : Run (Unit {0})) (k l : Run B)
      → Related R Any f g
      → Related R W k l
      → Related R W (f >>= λ _. k) (g >>= λ _. l)
  Related-then f g k l h hk = Related-bind f g (λ _. k) (λ _. l) h (λ a b v. hk)

  pub Related-if :
      {A : Type 0} {V : A → A → Type 0} (b c : Bool) (f g k l : Run A)
      → b ≡ c
      → Related R V f k
      → Related R V g l
      → Related R V (if b then f else g) (if c then k else l)
  Related-if {V = V} b c f g k l e hf hg =
      subst (λ (d : Bool). Related R V (if b then f else g) (if d then k else l)) e (on b hf hg)
    where
      on :
          {A : Type 0} {V : A → A → Type 0} {f g k l : Run A} (b : Bool)
          → Related R V f k
          → Related R V g l
          → Related R V (if b then f else g) (if b then k else l)
      on true hf hg = hf
      on false hf hg = hg

  pub err-Related : Related R Any err err
  err-Related = record {
    value = λ s t r. tt;
    state = λ s t r. R.err_left s (err t).1 (R.err_right s t r);
  }

  pub done-Related : Related R Any done done
  unfolding done pure
  done-Related = record { value = λ s t r. tt; state = λ s t r. r }

  pub emit8-Related : (b c : ℕ) → Related R Any (emit8 b) (emit8 c)
  emit8-Related b c = record { value = λ s t r. tt; state = λ s t r. R.emit_at b c s t r }

  pub move-Related : (p q : List ℕ) → p ≡ q → Related R Any (move p) (move q)
  move-Related p q e =
      subst (λ (d : List ℕ). Related R Any (move p) (move d)) e
        (record { value = λ s t r. tt; state = λ s t r. R.move_at p s t r })

  pub cursor-Related : Related R ◌≡◌ cursor cursor
  unfolding cursor
  cursor-Related = record { value = λ s t r. R.same_lp s t r; state = λ s t r. r }

module _ {R : Simulation} where
  -- An action that returns what it reads from the text, and moves behind it.
  pub Related-text :
      {B : Type 0} {W : B → B → Type 0} (k l : List ℕ → Run B)
      → ((p : List ℕ) → Related R W (k p) (l p))
      → Related R W (cursor >>= k) (cursor >>= l)
  Related-text {W = W} k l h =
      Related-bind cursor cursor k l cursor-Related
        λ p q e. subst (λ x. Related R W (k p) (l x)) e (h p)

  -- The same value in both runs.
  pub Related-same :
      {A B : Type 0} {W : B → B → Type 0} (f g : Run A) (k l : A → Run B)
      → Related R ◌≡◌ f g
      → ((a : A) → Related R W (k a) (l a))
      → Related R W (f >>= k) (g >>= l)
  Related-same {W = W} f g k l h hk =
      Related-bind f g k l h λ a b e. subst (λ x. Related R W (k a) (l x)) e (hk a)

  pub Related-err : {A : Type 0} (a : A) → Related R ◌≡◌ (err >>= λ _. pure a) (err >>= λ _. pure a)
  Related-err a = Related-then err err (pure a) (pure a) err-Related (Related-pure ◌≡◌ a a refl)

pub step_at :
    (R : Simulation) {A : Type 0} {V : A → A → Type 0} {f g : Run A} (s t : Asm)
    → Related R V f g
    → R.Rel s t
    → R.Rel (f s).1 (g t).1
step_at R s t h r = h.state s t r

pub value_at :
    (R : Simulation) {A : Type 0} {V : A → A → Type 0} {f g : Run A} (s t : Asm)
    → Related R V f g
    → R.Rel s t
    → V (f s).0 (g t).0
value_at R s t h r = h.value s t r
