-- ===== src/Libc/Heap/Blocks.antt =====
-- Blocks of the heap never overlap (fs/lib/stdlib.c).
use mini_os.Base.{
  ℕ, ◌+◌, ◌^◌, ◌≤◌, ◌<◌, ◌≡◌, ◌⊎◌, inl, inr, refl, sym, ap, ◌==◌, ltb, leb, arith, List, [], ◌∷◌,
  Option, none, some, Bool-cases, Option-cases, ◌++◌,
}
use mini_os.Base.Words.{add32, sub32}
use mathlib.Core.Path.{subst}
use mathlib.Core.List.{append_assoc}
use mini_os.Kernel.Layout.{user_stack_guard_off}
use mini_os.Kernel.UserMemory.{sys_sbrk}
use mini_os.Libc.Heap.{Block, Heap, round_size, first_fit, grow, malloc, free}

-- The bytes of two blocks, with their headers, are apart.
abbrev pub AreApart : Block → Block → Type 0
AreApart a b = (a.start + 8 + a.size ≤ b.start) ⊎ (b.start + 8 + b.size ≤ a.start)

AreApart-sym : (a b : Block) → AreApart a b → AreApart b a
AreApart-sym a b (inl h) = inr h
AreApart-sym a b (inr h) = inl h

unfoldable pub IsClear : Block → List Block → Type 0
IsClear b [] = Unit
IsClear b (c ∷ cs) = AreApart b c × IsClear b cs

-- Every two blocks are apart and all lie below the break.
unfoldable pub AreBlocks : ℕ → List Block → Type 0
AreBlocks brk [] = Unit
AreBlocks brk (b ∷ bs) = (b.start + 8 + b.size ≤ brk) × IsClear b bs × AreBlocks brk bs

-- The heap, with the blocks that are handed out: all blocks are apart and below the break, which is
-- below the guard page.
pub record IsValid (h : Heap) (live : List Block) : Type 0 where
  pub blocks : AreBlocks h.windows.user_brk_off (h.free_list ++ live)
  pub break : h.windows.user_brk_off ≤ user_stack_guard_off

IsClear-front :
    (a b : Block) (xs ys : List Block) → IsClear a (xs ++ (b ∷ ys)) → IsClear a (b ∷ (xs ++ ys))
unfolding IsClear
IsClear-front a b [] ys c = c
IsClear-front a b (x ∷ xs) ys c = let r = IsClear-front a b xs ys c.1 in (r.0, (c.0, r.1))

IsClear-back :
    (a b : Block) (xs ys : List Block) → IsClear a (b ∷ (xs ++ ys)) → IsClear a (xs ++ (b ∷ ys))
unfolding IsClear
IsClear-back a b [] ys c = c
IsClear-back a b (x ∷ xs) ys c = (c.1.0, IsClear-back a b xs ys (c.0, c.1.1))

-- A block may be moved to the front, and back.
AreBlocks-front :
    (brk : ℕ) (b : Block) (xs ys : List Block)
    → AreBlocks brk (xs ++ (b ∷ ys))
    → AreBlocks brk (b ∷ (xs ++ ys))
unfolding AreBlocks IsClear
AreBlocks-front brk b [] ys v = v
AreBlocks-front brk b (x ∷ xs) ys v =
    let r = AreBlocks-front brk b xs ys v.2 in
    let c = IsClear-front x b xs ys v.1 in (r.0, (AreApart-sym x b c.0, r.1), (v.0, c.1, r.2))

AreBlocks-back :
    (brk : ℕ) (b : Block) (xs ys : List Block)
    → AreBlocks brk (b ∷ (xs ++ ys))
    → AreBlocks brk (xs ++ (b ∷ ys))
unfolding AreBlocks IsClear
AreBlocks-back brk b [] ys v = v
AreBlocks-back brk b (x ∷ xs) ys v =
    let r = AreBlocks-back brk b xs ys (v.0, v.1.1, v.2.2) in
    (v.2.0, IsClear-back x b xs ys (AreApart-sym b x v.1.0, v.2.1), r)

-- A larger break, and a block at the old one.
AreBlocks-grow :
    (brk more : ℕ) (b : Block) (bs : List Block)
    → brk ≤ b.start
    → AreBlocks brk bs
    → IsClear b bs × AreBlocks (brk + more) bs
unfolding AreBlocks IsClear
AreBlocks-grow brk more b [] le v = (v, v)
AreBlocks-grow brk more b (c ∷ cs) le v =
    let r = AreBlocks-grow brk more b cs le v.2 in
    ((inr (omega arith), r.0), (omega arith, v.1, r.1))

-- Where `first_fit` finds its block.
Found : ℕ → List Block → Option (Block × List Block) → Type 0
Found want bs none = Unit
Found want bs (some r) =
    (xs : List Block) × (ys : List Block) × (bs ≡ xs ++ (r.0 ∷ ys))
    × (r.1 ≡ xs ++ ys)
    × (want ≤ r.0.size)

first_fit-Found : (want : ℕ) (bs : List Block) → Found want bs (first_fit want bs)
unfolding first_fit Found
first_fit-Found want [] = tt
first_fit-Found want (b ∷ bs) = elim (Bool-cases (leb want b.size)) [
  | inl e ↦ rw (e, first_fit) ([], bs, refl, refl, ground arith)
  | inr e ↦ elim (Option-cases (first_fit want bs)) [
    | inl f ↦ rw (e, f, first_fit) tt
    | inr (r, f) ↦
        let q = subst (Found want bs) f (first_fit-Found want bs) in
        rw (e, f, first_fit) (b ∷ q.0, q.1, ap (b ∷◌) q.2, ap (b ∷◌) q.3, q.4)
  ]
]

found-AreBlocks :
    (brk : ℕ) (bs live : List Block) (b : Block) (xs ys : List Block)
    → bs ≡ xs ++ (b ∷ ys)
    → AreBlocks brk (bs ++ live)
    → AreBlocks brk ((xs ++ ys) ++ (b ∷ live))
found-AreBlocks brk bs live b xs ys e v =
    let split = subst (λ zs. AreBlocks brk (zs ++ live)) e v in
    let front =
      AreBlocks-front brk b xs (ys ++ live)
        (subst (AreBlocks brk) (append_assoc xs (b ∷ ys) live) split) in
    AreBlocks-back brk b (xs ++ ys) live
      (subst (λ zs. AreBlocks brk (b ∷ zs)) (sym (append_assoc xs ys live)) front)

-- What an allocation of `want` bytes gives.
Gives : ℕ → List Block → Option Block × Heap → Type 0
Gives want live (none, h) = IsValid h live
Gives want live (some b, h) = IsValid h (b ∷ live) × (want ≤ b.size)

grow-Gives :
    (want : ℕ) (h : Heap) (live : List Block)
    → want + 8 < 2 ^ 31
    → IsValid h live
    → Gives want live (grow want h)
unfolding grow sys_sbrk Gives AreBlocks
grow-Gives want h live lt v =
    elim (Bool-cases (ltb (sub32 user_stack_guard_off h.windows.user_brk_off) (want + 8))) [
      | inl e ↦ rw (e, grow) v
      | inr e ↦
          let sum : h.windows.user_brk_off + (want + 8) ≡ add32 h.windows.user_brk_off (want + 8) =
            ground arith in
          let b : Block = record { start = h.windows.user_brk_off; size = want } in
          let grown =
            AreBlocks-grow h.windows.user_brk_off (want + 8) b (h.free_list ++ live) (omega arith)
              v.blocks in
          elim (Bool-cases (leb (2 ^ 31) h.windows.user_brk_off)) [
            | inl f ↦
                rw (e, f, grow)
                  (record {
                    blocks = subst (λ n. AreBlocks n (h.free_list ++ live)) sum grown.1;
                    break = ground arith;
                  })
            | inr f ↦
                rw (e, f, grow)
                  (
                    record {
                      blocks =
                          subst (λ n. AreBlocks n (h.free_list ++ (b ∷ live))) sum
                            (AreBlocks-back _ b h.free_list live (omega arith, grown.0, grown.1));
                      break = ground arith;
                    },
                    omega arith,
                  )
          ]
    ]

Gives-more :
    (size want : ℕ) (live : List Block) (r : Option Block × Heap)
    → size ≤ want
    → Gives want live r
    → Gives size live r
unfolding Gives
Gives-more size want live (none, h) le g = g
Gives-more size want live (some b, h) le g = (g.0, omega (arith, g.1))

round_size_lem : (size : ℕ) → (size ≤ round_size size) × (round_size size ≤ size + 3)
unfolding round_size
round_size_lem size = omega arith

malloc-Gives :
    (size : ℕ) (h : Heap) (live : List Block)
    → size + 11 < 2 ^ 31
    → IsValid h live
    → Gives size live (malloc size h)
unfolding malloc Gives Found
malloc-Gives size h live lt v =
    let bounds = round_size_lem size in
    elim (Bool-cases (size == 0)) [
      | inl e ↦ rw (e, malloc) v
      | inr e ↦ elim (Option-cases (first_fit (round_size size) h.free_list)) [
        | inl f ↦
            rw (e, f, malloc)
              (Gives-more size (round_size size) live (grow (round_size size) h) bounds.0
                (grow-Gives (round_size size) h live (omega (arith, bounds.1)) v))
        | inr (r, f) ↦
            rw (e, f, malloc)
              (let q =
                  subst (Found (round_size size) h.free_list) f
                    (first_fit-Found (round_size size) h.free_list) in
                (
                  record {
                    blocks =
                        subst (λ zs. AreBlocks h.windows.user_brk_off (zs ++ (r.0 ∷ live)))
                          (sym q.3) (found-AreBlocks _ h.free_list live r.0 q.0 q.1 q.2 v.blocks);
                    break = v.break;
                  },
                  omega (arith, q.4, bounds.0),
                ))
      ]
    ]

-- On a heap whose blocks, in use or free, are apart and below the break, what `malloc` hands out
-- for a size below 2 ^ 31 - 11 is at least that large and the blocks stay apart and below the
-- break.
pub malloc-IsValid :
    (size : ℕ) (h : Heap) (live : List Block) (b : Block) (after : Heap)
    → size + 11 < 2 ^ 31
    → IsValid h live
    → malloc size h ≡ (some b, after)
    → IsValid after (b ∷ live) × (size ≤ b.size)
unfolding Gives
malloc-IsValid size h live b after lt v e =
    subst (Gives size live) e (malloc-Gives size h live lt v)

-- A block in use may be freed, wherever it stands among those in use, and all blocks stay apart
-- and below the break.
pub free-IsValid :
    (h : Heap) (b : Block) (xs ys : List Block)
    → IsValid h (xs ++ (b ∷ ys))
    → IsValid (free b h) (xs ++ ys)
unfolding free
free-IsValid h b xs ys v =
    let joined =
      subst (AreBlocks h.windows.user_brk_off) (sym (append_assoc h.free_list xs (b ∷ ys)))
        v.blocks in
    let front = AreBlocks-front _ b (h.free_list ++ xs) ys joined in
    record {
      blocks =
          subst (λ zs. AreBlocks h.windows.user_brk_off (b ∷ zs)) (append_assoc h.free_list xs ys)
            front;
      break = v.break;
    }

-- On a heap whose blocks, in use or free, are apart and below the break, what `malloc` hands out for
-- a size below 2 ^ 31 - 11 is at least that large and the blocks stay apart and below the break;
-- they do so when any block in use is freed, the new one or an older one.
pub malloc-free-IsValid :
    (size : ℕ) (h : Heap) (xs ys : List Block) (old b : Block) (after : Heap)
    → size + 11 < 2 ^ 31
    → IsValid h (xs ++ (old ∷ ys))
    → malloc size h ≡ (some b, after)
    → (size ≤ b.size)
      × IsValid after (b ∷ (xs ++ (old ∷ ys)))
      × IsValid (free b after) (xs ++ (old ∷ ys))
      × IsValid (free old after) (b ∷ (xs ++ ys))
malloc-free-IsValid size h xs ys old b after lt v e =
    let (w, le) = malloc-IsValid size h (xs ++ (old ∷ ys)) b after lt v e in
    (le, w, free-IsValid after b [] (xs ++ (old ∷ ys)) w, free-IsValid after old (b ∷ xs) ys w)
