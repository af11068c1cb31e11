-- ===== src/Kernel/Keyboard/Decoder.antt =====
-- What a scancode does to the queue of keys (kernel/kernel.c).
use mini_os.Base.{
  ℕ, ◌≤◌, ◌<◌, ◌≡◌, ◌≢◌, ◌↔◌, inl, inr, refl, true, false, ◌&&◌, ◌||◌, ◌==◌, leb, if◌then◌else◌,
  arith, List, [], ◌∷◌, Bool-cases, ℕ_discrete, ◌++◌,
}
use mini_os.Base.Bytes.{Memory, poke}
use mini_os.Kernel.Keyboard.{
  Keyboard, kbd_push, page_up, page_down, ext_key, key_char, plain_key, break_code, make_code,
  kbd_handle_scancode,
}
use mini_os.Kernel.Keyboard.Ring.{IsRing, keys, held, keys-kbd_push}

-- The key of a scancode that comes after 0xE0, 0 where there is none.
unfoldable pub ext_key_of : ℕ → ℕ
ext_key_of sc =
    if sc == 0x48
    then 0x100
    else if sc == 0x50
    then 0x101
    else if sc == 0x4B
    then 0x102
    else if sc == 0x4D
    then 0x103
    else if sc == 0x53
    then 0x104
    else 0

-- The key that a scancode stands for, 0 where it stands for none.
unfoldable pub key_of : ℕ → Keyboard → ℕ
key_of sc s =
    if leb 0x80 sc || (sc == 0x2A) || (sc == 0x36) || (sc == 0x1D)
    then 0
    else if s.kbd_ext
    then ext_key_of sc
    else if s.kbd_ctrl && (key_char sc s == 3)
    then 0
    else key_char sc s

-- The same keys wait.
IsSame : Keyboard → Keyboard → Type 0
IsSame s t = (t.kbd_head ≡ s.kbd_head) × (t.kbd_tail ≡ s.kbd_tail) × (t.kbd_buf ≡ s.kbd_buf)

-- The key `v` is the last of the queue `ks`, if there is one and room for it.
abbrev pub enqueue : ℕ → List ℕ → ℕ → List ℕ
enqueue v ks n = if (v == 0) || (n == 63) then ks else ks ++ (v ∷ [])

-- `t` is `s` with the key `v` in its queue, if it is one.
Takes : ℕ → Keyboard → Keyboard → Type 0
Takes v s t = IsRing t × (keys t ≡ enqueue v (keys s) (held s))

Takes-none : (s t : Keyboard) → IsRing s → IsSame s t → Takes 0 s t
unfolding IsSame Takes
Takes-none s t r same = ground arith

Takes-push : (v : ℕ) (s t : Keyboard) → IsRing s → 1 ≤ v → IsSame s t → Takes v s (kbd_push v t)
unfolding IsSame Takes
Takes-push v s t r le same = ground (arith, keys-kbd_push v t (ground arith))

IsSame-view : (s t : Keyboard) → IsSame s t → IsSame s (page_up t) × IsSame s (page_down t)
unfolding page_up page_down IsSame
IsSame-view s t same = (ground arith, ground arith)

ext_key-Takes :
    (sc : ℕ) (s t : Keyboard) → IsRing s → IsSame s t → Takes (ext_key_of sc) s (ext_key sc t)
unfolding ext_key ext_key_of
ext_key-Takes sc s t r same =
    let pages = IsSame-view s t same in
    ground (
      arith,
      Takes-push 0x100 s t r (omega arith) same,
      Takes-push 0x101 s t r (omega arith) same,
      Takes-push 0x102 s t r (omega arith) same,
      Takes-push 0x103 s t r (omega arith) same,
      Takes-push 0x104 s t r (omega arith) same,
      Takes-none s t r same,
      Takes-none s (page_up t) r pages.0,
      Takes-none s (page_down t) r pages.1,
    )

plain_key-Takes :
    (sc : ℕ) (s t : Keyboard)
    → IsRing s
    → IsSame s t
    → Takes (if t.kbd_ctrl && (key_char sc t == 3) then 0 else key_char sc t) s (plain_key sc t).1
unfolding plain_key Takes
plain_key-Takes sc s t r same = elim (Bool-cases (t.kbd_ctrl && (key_char sc t == 3))) [
  | inl e ↦ rw (e, plain_key) (Takes-none s _ r same)
  | inr e ↦ elim (ℕ_discrete (key_char sc t) 0) [
    | yes f ↦ ground (arith, Takes-none s t r same)
    | no ne ↦ ground (arith, Takes-push (key_char sc t) s t r (omega arith) same)
  ]
]

key_char-held :
    (sc : ℕ) (s : Keyboard) (m : Memory) → key_char sc (record s { key_down = m }) ≡ key_char sc s
unfolding key_char
key_char-held sc s m = refl

make_code-Takes :
    (sc : ℕ) (s : Keyboard)
    → IsRing s
    → Takes
        (if s.kbd_ext
          then ext_key_of sc
          else if s.kbd_ctrl && (key_char sc s == 3)
          then 0
          else key_char sc s)
        s
        (make_code sc s).1
unfolding make_code IsSame
make_code-Takes sc s r = ground (
  arith,
  ext_key-Takes sc s (record s { ext_key_down = poke s.ext_key_down sc 1; kbd_ext = false }) r
      (refl, refl, refl),
  plain_key-Takes sc s (record s { key_down = poke s.key_down sc 1 }) r (refl, refl, refl),
  key_char-held sc s (poke s.key_down sc 1),
)

-- On a ring that is in order, a scancode adds to the queue the key that it stands for, if it
-- stands for one and there is room, and changes nothing else in it; the ring stays in order.
pub keys-kbd_handle_scancode :
    (sc : ℕ) (s : Keyboard)
    → IsRing s
    → IsRing (kbd_handle_scancode sc s).1
      × (keys (kbd_handle_scancode sc s).1 ≡ enqueue (key_of sc s) (keys s) (held s))
unfolding kbd_handle_scancode key_of break_code Takes
keys-kbd_handle_scancode sc s r = ground (arith, make_code-Takes sc s r)

-- Ctrl+C, and no other scancode, asks for the end of the program.
pub kbd_handle_scancode-kill :
    (sc : ℕ) (s : Keyboard)
    → ((kbd_handle_scancode sc s).0 ≡ 1) ↔ (
        (sc < 0x80)
        × (sc ≢ 0x2A)
        × (sc ≢ 0x36)
        × (sc ≢ 0x1D)
        × (s.kbd_ext ≡ false)
        × (s.kbd_ctrl ≡ true)
        × (key_char sc s ≡ 3))
unfolding kbd_handle_scancode make_code plain_key
kbd_handle_scancode-kill sc s =
    let same = key_char-held sc s (poke s.key_down sc 1) in
    (λ h. ground (arith, same), λ h. ground (arith, same))
