-- ===== src/Kernel/Keyboard/Ring.antt =====
-- The ring of keys is a queue of at most 63 keys (kernel/kernel.c).
use mini_os.Base.{
  ℕ, zero, suc, ◌+◌, ◌-◌, ◌%◌, ◌≤◌, ◌<◌, ◌≡◌, ◌≢◌, refl, ap, ◌∙◌, ◌==◌, if◌then◌else◌, arith, List,
  [], ◌∷◌, ℕ_discrete, ◌++◌,
}
use mini_os.Base.Bytes.{Memory, poke}
use mini_os.Kernel.Keyboard.{Keyboard, kbd_buf_size, kbd_push, kbd_pop}

abbrev pub IsRing : Keyboard → Type 0
IsRing s = (s.kbd_head < kbd_buf_size) × (s.kbd_tail < kbd_buf_size)

-- `k` keys of the ring, from slot `i` on.
unfoldable pub keys_from : ℕ → ℕ → Memory → List ℕ
keys_from zero i m = []
keys_from (suc k) i m = m i ∷ keys_from k ((i + 1) % kbd_buf_size) m

abbrev pub held : Keyboard → ℕ
held s = (s.kbd_head + kbd_buf_size - s.kbd_tail) % kbd_buf_size

-- The keys waiting, the oldest first.
abbrev pub keys : Keyboard → List ℕ
keys s = keys_from (held s) s.kbd_tail s.kbd_buf

keys_from-poke :
    (k i h v : ℕ) (m : Memory)
    → i < kbd_buf_size
    → h < kbd_buf_size
    → k ≤ (h + kbd_buf_size - i) % kbd_buf_size
    → keys_from k i (poke m h v) ≡ keys_from k i m
unfolding keys_from poke
keys_from-poke zero i h v m lt lh le = refl
keys_from-poke (suc k) i h v m lt lh le =
    ground (arith, keys_from-poke k ((i + 1) % kbd_buf_size) h v m (ground arith) lh (ground arith))

keys_from-suc :
    (k i : ℕ) (m : Memory)
    → i < kbd_buf_size
    → keys_from (suc k) i m ≡ keys_from k i m ++ (m ((i + k) % kbd_buf_size) ∷ [])
unfolding keys_from
keys_from-suc zero i m lt = ground arith
keys_from-suc (suc k) i m lt = ap (m i ∷◌) (
    keys_from-suc k ((i + 1) % kbd_buf_size) m (omega arith)
    ∙ ap (λ j. keys_from k ((i + 1) % kbd_buf_size) m ++ (m j ∷ [])) (omega arith))

held_more :
    (s : Keyboard)
    → IsRing s
    → (s.kbd_head + 1) % kbd_buf_size ≢ s.kbd_tail
    → ((s.kbd_head + 1) % kbd_buf_size + kbd_buf_size - s.kbd_tail) % kbd_buf_size ≡ suc (held s)
held_more s r ne = omega arith

keys_from-push :
    (v : ℕ) (s : Keyboard)
    → IsRing s
    → keys_from (suc (held s)) s.kbd_tail (poke s.kbd_buf s.kbd_head v) ≡ keys s ++ (v ∷ [])
unfolding poke
keys_from-push v s r =
    keys_from-suc (held s) s.kbd_tail (poke s.kbd_buf s.kbd_head v) (omega arith)
    ∙ ap (λ n. keys_from (held s) s.kbd_tail (poke s.kbd_buf s.kbd_head v) ++ (n ∷ []))
        (ground arith)
    ∙ ap (λ xs. xs ++ (v ∷ []))
        (keys_from-poke (held s) s.kbd_tail s.kbd_head v s.kbd_buf (omega arith) (omega arith)
          (omega arith))

keys_pushed :
    (v : ℕ) (s : Keyboard)
    → IsRing s
    → (s.kbd_head + 1) % kbd_buf_size ≢ s.kbd_tail
    → keys (kbd_push v s) ≡ (if held s == 63 then keys s else keys s ++ (v ∷ []))
unfolding kbd_push
keys_pushed v s r ne = ground (arith, held_more s r ne, keys_from-push v s r)

-- On a ring that is in order, a key that comes is the last of the queue, and is lost where 63
-- keys wait; the ring stays in order.
pub keys-kbd_push :
    (v : ℕ) (s : Keyboard)
    → IsRing s
    → IsRing (kbd_push v s)
      × (keys (kbd_push v s) ≡ (if held s == 63 then keys s else keys s ++ (v ∷ [])))
unfolding kbd_push
keys-kbd_push v s r = elim (ℕ_discrete ((s.kbd_head + 1) % kbd_buf_size) s.kbd_tail) [
  | yes e ↦ ground arith
  | no ne ↦ (ground arith, keys_pushed v s r ne)
]

keys_popped :
    (s : Keyboard)
    → IsRing s
    → s.kbd_head ≢ s.kbd_tail
    → keys s
      ≡ s.kbd_buf s.kbd_tail
        ∷ keys_from
            ((s.kbd_head + kbd_buf_size - (s.kbd_tail + 1) % kbd_buf_size) % kbd_buf_size)
            ((s.kbd_tail + 1) % kbd_buf_size)
            s.kbd_buf
unfolding keys_from
keys_popped s r ne =
    let one_less : held s
        ≡ suc ((s.kbd_head + kbd_buf_size - (s.kbd_tail + 1) % kbd_buf_size) % kbd_buf_size) =
      omega arith in
    ap (λ k. keys_from k s.kbd_tail s.kbd_buf) one_less

-- On a ring that is in order, the key that is taken is the first of the queue, 0 is returned and
-- nothing changes where the queue is empty, and the ring stays in order.
pub keys-kbd_pop :
    (s : Keyboard)
    → IsRing s
    → IsRing (kbd_pop s).1
      × (keys s ≡ (if held s == 0 then [] else (kbd_pop s).0 ∷ keys (kbd_pop s).1))
      × ((held s ≡ 0) → kbd_pop s ≡ (0, s))
unfolding kbd_pop keys_from
keys-kbd_pop s r = elim (ℕ_discrete s.kbd_head s.kbd_tail) [
  | yes e ↦ (ground arith, ground arith, λ h. ground arith)
  | no ne ↦ (ground arith, ground (arith, keys_popped s r ne), λ h. absurd (omega arith))
]

-- On a ring that is in order, a key that comes is the last of the queue, and is lost where 63 keys
-- wait; the key that is taken is the first of the queue, 0 where the queue is empty, which then
-- stays so. The ring stays in order.
pub queue_lem :
    (v : ℕ) (s : Keyboard)
    → IsRing s
    → IsRing (kbd_push v s)
      × (keys (kbd_push v s) ≡ (if held s == 63 then keys s else keys s ++ (v ∷ [])))
      × IsRing (kbd_pop s).1
      × (keys s ≡ (if held s == 0 then [] else (kbd_pop s).0 ∷ keys (kbd_pop s).1))
      × (kbd_pop s ≡ (if held s == 0 then (0, s) else kbd_pop s))
queue_lem v s r =
    let (i, k) = keys-kbd_push v s r in
    let (j, l, e) = keys-kbd_pop s r in
    (
      i,
      k,
      j,
      l,
      elim (ℕ_discrete (held s) 0) [ yes h ↦ ground (arith, e h) | no ne ↦ ground arith ],
    )
