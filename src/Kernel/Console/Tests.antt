-- ===== src/Kernel/Console/Tests.antt =====
-- A framebuffer console of 80 columns and 30 rows (kernel/kernel.c).
use mini_os.Base.{◌+◌, ◌-◌, ◌<◌, ◌≡◌, true, ◌==◌, if◌then◌else◌, arith}
use mini_os.Kernel.Console.{
  Console, fb_scroll, vga_putc, vga_cls, vga_setcursor, console_view_up, console_view_down,
}
use mini_os.Kernel.Console.Cursor.{IsValid, console-IsValid}
use mini_os.Kernel.Console.History.{hist_line, fb_scroll-hist_line}

abbrev pub screen : Console
screen = record {
  fb_enabled = true;
  lfb = true;
  font = true;
  fb_cols = 80;
  fb_rows = 30;
  cur_x = 79;
  cur_y = 29;
  cells = λ p. b'x';
  hist = λ p. b'.';
  hist_next = 5;
  hist_count = 5;
  view_off = 2;
  vga = λ p. 0;
}

pub screen-IsValid : IsValid screen
screen-IsValid = ground arith

console-IsValid_example :
    IsValid (vga_putc b'a' screen)
    × IsValid (vga_cls screen)
    × IsValid (vga_setcursor 200 7 screen)
    × IsValid (console_view_up 28 screen)
    × IsValid (console_view_down 28 screen)
console-IsValid_example = console-IsValid screen b'a' 200 7 28 screen-IsValid

one_held : 5 < (fb_scroll screen).hist_count
unfolding fb_scroll
one_held = ground arith

fb_scroll-hist_line_example :
    ((fb_scroll screen).hist_count ≡ 6)
    × (hist_line (fb_scroll screen) 5 3 ≡ (
        if 5 + 1 == (fb_scroll screen).hist_count
        then screen.cells 3
        else hist_line screen (5 + (5 + 1 - (fb_scroll screen).hist_count)) 3))
fb_scroll-hist_line_example =
    fb_scroll-hist_line screen 5 3 (omega arith, omega arith) (omega arith) one_held
