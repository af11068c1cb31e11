-- ===== src/Kernel/Keyboard/Line/Stored.antt =====
-- The bytes of a line that is typed into memory, for `readline` of kernel/kernel.c.
use mini_os.Base.{
  ℕ, ◌+◌, ◌-◌, ◌<◌, ◌≡◌, ◌≢◌, sym, ap, ◌∙◌, arith, List, [], ◌∷◌, ◌++◌, take, length, take-append,
}
use mini_os.Base.Words.{add32, sub32, u32_mod}
use mini_os.Base.Bytes.{
  Memory, poke, read_bytes, read_bytes-same, read_bytes-last, length-read_bytes,
}

pub poke_self : (m : Memory) (a v : ℕ) → poke m a v a ≡ v
unfolding poke
poke_self m a v = ground arith

pub poke_other : (m : Memory) (a v p : ℕ) → a ≢ p → poke m a v p ≡ m p
unfolding poke
poke_other m a v p ne = ground arith

-- The NUL or a character behind a line is not of the line.
pub kept_line :
    (user : Memory) (off n c : ℕ) → read_bytes (poke user (off + n) c) off n ≡ read_bytes user off n
kept_line user off n c =
    read_bytes-same n off off (poke user (off + n) c) user
      λ p q le lt e. poke_other user (off + n) c p (omega arith) ∙ ap user (omega arith)

pub nothing_to_erase :
    (user : Memory) (off n : ℕ) (buf : List ℕ)
    → n ≡ 0
    → read_bytes user off n ≡ buf
    → read_bytes user off n ≡ take (length buf - 1) buf
unfolding read_bytes
nothing_to_erase user off n [] z e = e
nothing_to_erase user off n (x ∷ xs) z e =
    absurd (ground (arith, ap (λ l. length l) e, length-read_bytes user off n))

-- A character behind those that are there.
pub longer_line :
    (user : Memory) (off n c : ℕ) (buf : List ℕ)
    → off + n < u32_mod
    → n + 1 < u32_mod
    → read_bytes user off n ≡ buf
    → read_bytes (poke user (add32 off n) c) off (add32 n 1) ≡ buf ++ (c ∷ [])
longer_line user off n c buf fits room e =
    let at : add32 off n ≡ off + n = omega arith in
    let more : add32 n 1 ≡ n + 1 = omega arith in
    rw (at, more)
      (read_bytes-last n off (poke user (off + n) c)
        ∙ ap (λ x. x ++ (poke user (off + n) c (off + n) ∷ [])) (kept_line user off n c ∙ e)
        ∙ ap (λ x. buf ++ (x ∷ [])) (poke_self user (off + n) c))

-- The last character taken away.
pub shorter_line :
    (user : Memory) (off n : ℕ) (buf : List ℕ)
    → 0 < n
    → n < u32_mod
    → read_bytes user off n ≡ buf
    → read_bytes user off (sub32 n 1) ≡ take (length buf - 1) buf
shorter_line user off n buf pos fits e =
    let k = n - 1 in
    let less : sub32 n 1 ≡ k = omega arith in
    let len : length buf ≡ n = ap (λ x. length x) (sym e) ∙ length-read_bytes user off n in
    let cut : length buf - 1 ≡ k = omega (arith, len) in
    let front : read_bytes user off n ≡ read_bytes user off k ++ (user (off + k) ∷ []) =
      ap (read_bytes user off) (omega arith) ∙ read_bytes-last k off user in
    rw (less, cut, ← e, front)
      (sym (
        take-append (read_bytes user off k) (user (off + k) ∷ []) k
          (sym (length-read_bytes user off k))))
