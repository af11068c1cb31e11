-- ===== src/Libc/Strings/Move.antt =====
-- Copies that overlap (fs/lib/string.c).
use mini_os.Base.{
  ℕ, zero, suc, ◌+◌, ◌-◌, ◌≤◌, ◌<◌, ◌≡◌, ◌⊎◌, inl, inr, ◌&&◌, ltb, leb, if◌then◌else◌, arith,
  dec_lt,
}
use mini_os.Base.Bytes.{Memory, poke}
use mini_os.Libc.Strings.{copy_up, copy_down, memmove}

-- What byte `p` is after `n` bytes went from `s` to `d`.
abbrev pub moved : ℕ → ℕ → ℕ → Memory → Memory
moved d s n m p = if leb d p && ltb p (d + n) then m (s + (p - d)) else m p

copy_up_lem :
    (k i d s p : ℕ) (m : Memory)
    → (d < s) ⊎ (s + i + k ≤ d)
    → copy_up k i d s m p ≡ (if leb (d + i) p && ltb p (d + i + k) then m (s + (p - d)) else m p)
unfolding copy_up poke
copy_up_lem zero i d s p m safe = ground arith
copy_up_lem (suc k) i d s p m (inl lt) =
    ground (arith, copy_up_lem k (i + 1) d s p (poke m (d + i) (m (s + i))) (inl lt))
copy_up_lem (suc k) i d s p m (inr le) =
    ground (arith, copy_up_lem k (i + 1) d s p (poke m (d + i) (m (s + i))) (inr (omega arith)))

copy_down_lem : (k d s p : ℕ) (m : Memory) → s ≤ d → copy_down k d s m p ≡ moved d s k m p
unfolding copy_down poke
copy_down_lem zero d s p m le = ground arith
copy_down_lem (suc k) d s p m le =
    ground (arith, copy_down_lem k d s p (poke m (d + k) (m (s + k))) le)

-- `memmove` copies the bytes that were there before the call, also where the two ranges overlap,
-- and changes nothing else.
pub memmove_lem : (d s n p : ℕ) (m : Memory) → memmove d s n m p ≡ moved d s n m p
unfolding memmove
memmove_lem d s n p m = elim (dec_lt d s) [
  | yes lt ↦ ground (arith, copy_up_lem n 0 d s p m (inl lt))
  | no ge ↦ ground (arith, copy_down_lem n d s p m (omega arith))
]
