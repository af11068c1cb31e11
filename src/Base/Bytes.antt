-- ===== src/Base/Bytes.antt =====
-- Byte-addressed memory as a function from addresses, with the C library's copies into it.
use Prim.Native.Nat.{ℕ, zero, suc, ◌+◌, ◌-◌, ◌*◌, ◌/◌, ◌%◌, ◌≤◌, ◌<◌}
use mathlib.Core.Path.{◌≡◌, refl}
use mathlib.Core.Logic.{◌⊎◌}
use mathlib.Core.Bool.{◌&&◌}
use mathlib.Core.List.{List, [], ◌∷◌, ◌++◌}
use native.Mathlib.Omega.{arith}
use mini_os.Base.Tests.{ltb, leb, if◌then◌else◌}
use mini_os.Base.Lists.{length, get_or}

abbrev pub Memory : Type 0
Memory = ℕ → ℕ

-- The memory `dst` after the `n` bytes of `src` from `s` on are written at `d`.
unfoldable pub copy : Memory → ℕ → Memory → ℕ → ℕ → Memory
copy dst d src s n p = if leb d p && ltb p (d + n) then src (s + (p - d)) else dst p

-- The memory `dst` after `n` bytes at `d` are set to `v`.
unfoldable pub fill : Memory → ℕ → ℕ → ℕ → Memory
fill dst d v n p = if leb d p && ltb p (d + n) then v else dst p

-- One byte written.
unfoldable pub poke : Memory → ℕ → ℕ → Memory
poke m a v p = if leb a p && leb p a then v else m p

-- A list's bytes as memory from address 0 on, with zeros behind them.
unfoldable pub of_list : List ℕ → Memory
of_list xs p = get_or xs p 0

-- The `n` bytes from address `a` on.
unfoldable pub read_bytes : Memory → ℕ → ℕ → List ℕ
read_bytes m a zero = []
read_bytes m a (suc n) = m a ∷ read_bytes m (a + 1) n

-- A 32-bit word, least significant byte first, and its bytes.
unfoldable pub word_at : Memory → ℕ → ℕ
word_at m a = m a + 256 * m (a + 1) + 65536 * m (a + 2) + 16777216 * m (a + 3)

unfoldable pub word_byte : ℕ → ℕ → ℕ
word_byte w zero = w % 256
word_byte w (suc k) = word_byte (w / 256) k

unfoldable pub put_word : Memory → ℕ → ℕ → Memory
unfolding word_byte
put_word m a w p = if leb a p && ltb p (a + 4) then word_byte w (p - a) else m p

pub copy_outside :
    (m : Memory) (d : ℕ) (src : Memory) (s n p : ℕ)
    → (p < d) ⊎ (d + n ≤ p)
    → copy m d src s n p ≡ m p
unfolding copy
copy_outside m d src s n p h = ground arith

pub copy_inside :
    (m : Memory) (d : ℕ) (src : Memory) (s n i : ℕ) → i < n → copy m d src s n (d + i) ≡ src (s + i)
unfolding copy
copy_inside m d src s n i h = ground arith

pub fill_outside : (m : Memory) (d v n p : ℕ) → (p < d) ⊎ (d + n ≤ p) → fill m d v n p ≡ m p
unfolding fill
fill_outside m d v n p h = ground arith

pub length-read_bytes : (m : Memory) (a n : ℕ) → length (read_bytes m a n) ≡ n
unfolding read_bytes
length-read_bytes m a zero = refl
length-read_bytes m a (suc n) = omega (arith, length-read_bytes m (a + 1) n)

-- Two stretches of memory with the same bytes.
pub read_bytes-same :
    (n a b : ℕ) (m w : Memory)
    → ((p q : ℕ) → a ≤ p → p < a + n → p + b ≡ q + a → m p ≡ w q)
    → read_bytes m a n ≡ read_bytes w b n
unfolding read_bytes
read_bytes-same zero a b m w same = refl
read_bytes-same (suc n) a b m w same = ground (
  arith,
  same a b (omega arith) (omega arith) (omega arith),
  read_bytes-same n (a + 1) (b + 1) m w
      (λ p q le lt e. same p q (omega arith) (omega arith) (omega arith)),
)

pub read_bytes-last :
    (n a : ℕ) (m : Memory) → read_bytes m a (n + 1) ≡ read_bytes m a n ++ (m (a + n) ∷ [])
unfolding read_bytes
read_bytes-last zero a m = ground arith
read_bytes-last (suc n) a m = ground (arith, read_bytes-last n (a + 1) m)

pub get_or-read_bytes : (m : Memory) (a n i : ℕ) → i < n → get_or (read_bytes m a n) i 0 ≡ m (a + i)
unfolding read_bytes
get_or-read_bytes m a zero i h = absurd (omega arith)
get_or-read_bytes m a (suc n) zero h = ground arith
get_or-read_bytes m a (suc n) (suc i) h = ground (arith, get_or-read_bytes m (a + 1) n i)

-- A word that is stored is read back.
pub word_at-put_word : (m : Memory) (a w : ℕ) → w < 4294967296 → word_at (put_word m a w) a ≡ w
unfolding word_at put_word
word_at-put_word m a w h = ground arith
