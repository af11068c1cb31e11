-- ===== src/Kernel/Keyboard.antt =====
-- The keyboard of kernel/kernel.c: the ring of keys and the decoder of scancodes. The port, the
-- interrupt and what the reader echoes are not part of the state.
pub mod Ring
pub mod Line
pub mod Decoder
mod Tests
use mini_os.Base.{
  ℕ, zero, suc, ◌+◌, ◌-◌, ◌*◌, ◌%◌, Bool, true, false, not, ◌&&◌, ◌||◌, ◌==◌, ltb, leb,
  if◌then◌else◌, List, [], ◌∷◌, get_or,
}
use mini_os.Base.Bytes.{Memory, poke}
use mini_os.Kernel.Console.{Console, console_view_up, console_view_down}

abbrev pub kbd_buf_size : ℕ
kbd_buf_size = 64

-- The characters of the keys, up to the last one that is not 0 in the table.
abbrev pub keymap : List ℕ
keymap =
    0 ∷ 27 ∷ 49 ∷ 50 ∷ 51 ∷ 52 ∷ 53 ∷ 54 ∷ 55 ∷ 56 ∷ 57 ∷ 48 ∷ 45 ∷ 61 ∷ 8 ∷ 9 ∷ 113 ∷ 119 ∷ 101
    ∷ 114 ∷ 116 ∷ 121 ∷ 117 ∷ 105 ∷ 111 ∷ 112 ∷ 91 ∷ 93 ∷ 10 ∷ 0 ∷ 97 ∷ 115 ∷ 100 ∷ 102 ∷ 103 ∷ 104
    ∷ 106 ∷ 107 ∷ 108 ∷ 59 ∷ 39 ∷ 96 ∷ 0 ∷ 92 ∷ 122 ∷ 120 ∷ 99 ∷ 118 ∷ 98 ∷ 110 ∷ 109 ∷ 44 ∷ 46 ∷ 47
    ∷ 0 ∷ 42 ∷ 0 ∷ 32 ∷ 0 ∷ 0 ∷ 0 ∷ 0 ∷ 0 ∷ 0 ∷ 0 ∷ 0 ∷ 0 ∷ 0 ∷ 0 ∷ 0 ∷ 0 ∷ 0 ∷ 0 ∷ 0 ∷ 0 ∷ 0 ∷ 0
    ∷ 0 ∷ 0 ∷ 55 ∷ 56 ∷ 57 ∷ 45 ∷ 52 ∷ 53 ∷ 54 ∷ 43 ∷ 49 ∷ 50 ∷ 51 ∷ 48 ∷ 46 ∷ []

abbrev pub keymap_shift : List ℕ
keymap_shift =
    0 ∷ 27 ∷ 33 ∷ 64 ∷ 35 ∷ 36 ∷ 37 ∷ 94 ∷ 38 ∷ 42 ∷ 40 ∷ 41 ∷ 95 ∷ 43 ∷ 8 ∷ 9 ∷ 81 ∷ 87 ∷ 69 ∷ 82
    ∷ 84 ∷ 89 ∷ 85 ∷ 73 ∷ 79 ∷ 80 ∷ 123 ∷ 125 ∷ 10 ∷ 0 ∷ 65 ∷ 83 ∷ 68 ∷ 70 ∷ 71 ∷ 72 ∷ 74 ∷ 75 ∷ 76
    ∷ 58 ∷ 34 ∷ 126 ∷ 0 ∷ 124 ∷ 90 ∷ 88 ∷ 67 ∷ 86 ∷ 66 ∷ 78 ∷ 77 ∷ 60 ∷ 62 ∷ 63 ∷ 0 ∷ 42 ∷ 0 ∷ 32
    ∷ 0 ∷ 0 ∷ 0 ∷ 0 ∷ 0 ∷ 0 ∷ 0 ∷ 0 ∷ 0 ∷ 0 ∷ 0 ∷ 0 ∷ 0 ∷ 0 ∷ 0 ∷ 0 ∷ 0 ∷ 0 ∷ 0 ∷ 0 ∷ 0 ∷ 55 ∷ 56
    ∷ 57 ∷ 45 ∷ 52 ∷ 53 ∷ 54 ∷ 43 ∷ 49 ∷ 50 ∷ 51 ∷ 48 ∷ 46 ∷ []

-- `kbd_shift`, `kbd_ctrl` and `kbd_ext` are flags; the held keys are bytes, one for a scancode.
pub record Keyboard : Type 0 where
  pub kbd_buf : Memory
  pub kbd_head : ℕ
  pub kbd_tail : ℕ
  pub kbd_shift : Bool
  pub kbd_ctrl : Bool
  pub kbd_ext : Bool
  pub key_down : Memory
  pub ext_key_down : Memory
  pub kill_program : Bool
  pub console : Console

unfoldable pub kbd_push : ℕ → Keyboard → Keyboard
kbd_push v s =
    let next = (s.kbd_head + 1) % kbd_buf_size in
    if next == s.kbd_tail
    then s
    else record s { kbd_buf = poke s.kbd_buf s.kbd_head v; kbd_head = next }

unfoldable pub kbd_pop : Keyboard → ℕ × Keyboard
kbd_pop s =
    if s.kbd_head == s.kbd_tail
    then (0, s)
    else (s.kbd_buf s.kbd_tail, record s { kbd_tail = (s.kbd_tail + 1) % kbd_buf_size })

-- `console_view((int)fb_rows - 2)` and its opposite.
unfoldable pub page_up : Keyboard → Keyboard
page_up s =
    let c = s.console in
    record s {
      console =
          if leb 2 c.fb_rows
          then console_view_up (c.fb_rows - 2) c
          else console_view_down (2 - c.fb_rows) c;
    }

unfoldable pub page_down : Keyboard → Keyboard
page_down s =
    let c = s.console in
    record s {
      console =
          if ltb 2 c.fb_rows
          then console_view_down (c.fb_rows - 2) c
          else console_view_up (2 - c.fb_rows) c;
    }

-- A key that comes after 0xE0.
unfoldable pub ext_key : ℕ → Keyboard → Keyboard
ext_key sc s =
    if sc == 0x48
    then kbd_push 0x100 s
    else if sc == 0x50
    then kbd_push 0x101 s
    else if sc == 0x4B
    then kbd_push 0x102 s
    else if sc == 0x4D
    then kbd_push 0x103 s
    else if sc == 0x53
    then kbd_push 0x104 s
    else if (sc == 0x49) && s.kbd_shift
    then page_up s
    else if (sc == 0x51) && s.kbd_shift
    then page_down s
    else s

-- The character of a key, with the shift and control keys as they are.
unfoldable pub key_char : ℕ → Keyboard → ℕ
key_char sc s =
    let c = if s.kbd_shift then get_or keymap_shift sc 0 else get_or keymap sc 0 in
    if s.kbd_ctrl && leb b'A' c && leb c b'Z'
    then c - b'A' + 1
    else if s.kbd_ctrl && leb b'a' c && leb c b'z'
    then c - b'a' + 1
    else c

-- A key that does not come after 0xE0: 1 for Ctrl+C.
unfoldable pub plain_key : ℕ → Keyboard → ℕ × Keyboard
plain_key sc s =
    let c = key_char sc s in
    if s.kbd_ctrl && (c == 3)
    then (1, record s { kill_program = true })
    else (0, if c == 0 then s else kbd_push c s)

-- A key let go: `base` is the scancode without its top bit.
unfoldable pub break_code : ℕ → Keyboard → Keyboard
break_code base s =
    if s.kbd_ext
    then record s { ext_key_down = poke s.ext_key_down base 0; kbd_ext = false }
    else record s { key_down = poke s.key_down base 0 }

unfoldable pub make_code : ℕ → Keyboard → ℕ × Keyboard
make_code sc s =
    if s.kbd_ext
    then (0, ext_key sc (record s { ext_key_down = poke s.ext_key_down sc 1; kbd_ext = false }))
    else plain_key sc (record s { key_down = poke s.key_down sc 1 })

unfoldable pub kbd_handle_scancode : ℕ → Keyboard → ℕ × Keyboard
kbd_handle_scancode sc s =
    if sc == 0xE0
    then (0, record s { kbd_ext = true })
    else if (sc == 0x2A) || (sc == 0x36)
    then (0, record s { kbd_shift = true; kbd_ext = false })
    else if (sc == 0xAA) || (sc == 0xB6)
    then (0, record s { kbd_shift = false; kbd_ext = false })
    else if sc == 0x1D
    then (0, record s { kbd_ctrl = true; kbd_ext = false })
    else if sc == 0x9D
    then (0, record s { kbd_ctrl = false; kbd_ext = false })
    else if leb 0x80 sc
    then (0, break_code (sc - 0x80) s)
    else make_code sc s

-- SYS_KEYSTATE.
unfoldable pub sys_keystate : ℕ → Keyboard → ℕ
sys_keystate k s =
    if ltb k 128
    then s.key_down k
    else if k == 0x100
    then s.ext_key_down 0x48
    else if k == 0x101
    then s.ext_key_down 0x50
    else if k == 0x102
    then s.ext_key_down 0x4B
    else if k == 0x103
    then s.ext_key_down 0x4D
    else if k == 0x104
    then s.ext_key_down 0x53
    else 0
