-- ===== src/Kernel/Keyboard/Tests.antt =====
-- A keyboard on which two keys wait (kernel/kernel.c).
use mini_os.Base.{
  ℕ, List, ◌+◌, ◌<◌, inr, refl, true, some, ◌≡◌, false, ◌==◌, if◌then◌else◌, arith, [], ◌∷◌,
}
use mini_os.Kernel.Console.{Console}
use mini_os.Kernel.Keyboard.{Keyboard, kbd_handle_scancode}
use mini_os.Kernel.Keyboard.Ring.{IsRing, keys, held}
use mini_os.Base.Bytes.{Memory, read_bytes}
use mini_os.Kernel.UserMemory.{user_range_ok}
use mini_os.Kernel.Keyboard.Line.{has_enter, typed_line, sys_read, sys_read_lem}
use mini_os.Kernel.Keyboard.Decoder.{key_of, enqueue, keys-kbd_handle_scancode}

abbrev blank : Console
blank = record {
  fb_enabled = false;
  lfb = false;
  font = false;
  fb_cols = 80;
  fb_rows = 25;
  cur_x = 0;
  cur_y = 0;
  cells = λ p. 0;
  hist = λ p. 0;
  hist_next = 0;
  hist_count = 0;
  view_off = 0;
  vga = λ p. 0;
}

-- The ring wraps: slots 63 and 0 are in use.
abbrev typed : Keyboard
typed = record {
  kbd_buf = λ i. if i == 63 then b'a' else b'b';
  kbd_head = 1;
  kbd_tail = 63;
  kbd_shift = false;
  kbd_ctrl = false;
  kbd_ext = false;
  key_down = λ i. 0;
  ext_key_down = λ i. 0;
  kill_program = false;
  console = blank;
}

keys-kbd_handle_scancode_example :
    IsRing (kbd_handle_scancode 0x10 typed).1
    × (keys (kbd_handle_scancode 0x10 typed).1
        ≡ enqueue (key_of 0x10 typed) (keys typed) (held typed))
keys-kbd_handle_scancode_example = keys-kbd_handle_scancode 0x10 typed (omega arith, omega arith)

-- a, b, the backspace and enter
abbrev keys_typed : List ℕ
keys_typed = b'a' ∷ b'b' ∷ 8 ∷ b'\n' ∷ []

enter_comes : has_enter keys_typed ≡ true
unfolding has_enter
enter_comes = refl

range_ok : user_range_ok 4096 16 ≡ true
unfolding user_range_ok
range_ok = refl

sys_read_lem_example :
    (r : ℕ × Memory × List ℕ) × (sys_read keys_typed 0 4096 16 (λ p. 7) ≡ some r)
    × (r.0 < 16)
    × (read_bytes (r.1) 4096 (r.0) ≡ b'a' ∷ [])
    × (r.1 (4096 + r.0) ≡ 0)
    × (r.1 5000 ≡ 7)
unfolding typed_line
sys_read_lem_example =
    sys_read_lem keys_typed 4096 16 (λ p. 7) 5000 enter_comes range_ok (omega arith)
      (inr (omega arith))
