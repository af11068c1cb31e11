-- ===== src/Libc/Stdio/Tests.antt =====
-- Runs of fs/lib/stdio.c on small inputs.
use mini_os.Base.{
  ℕ, ◌-◌, ◌≡◌, ◌≢◌, refl, true, false, ◌&&◌, ◌==◌, ltb, if◌then◌else◌, arith, List, [], ◌∷◌, ◌++◌,
  some, get_or, length,
}
use mini_os.Base.Bytes.{Memory}
use mini_os.Libc.Stdio.{stdout, out_int, out_uint, vformat_loop, vsnprintf, printf}
use mini_os.Libc.Stdio.Parse.{first, is_digit, parse_int, parse_uint}
use mini_os.Libc.Stdio.RoundTrip.{parse_int-out_int}
use mini_os.Libc.Stdio.Enough.{vformat_loop_enough}
use mini_os.Libc.Stdio.Buffer.{vsnprintf-printf}

abbrev no_bytes : Memory
no_bytes = λ p. 0

abbrev no_floats : ℕ → ℕ → List ℕ
no_floats = λ w prec. []

abbrev strings : ℕ → List ℕ
strings = λ a. b'o' ∷ b'k' ∷ []

-- "%d %s"
abbrev int_and_string : List ℕ
int_and_string = b'%' ∷ b'd' ∷ b' ' ∷ b'%' ∷ b's' ∷ []

-- -12 and an address
abbrev args : ℕ → ℕ
args = λ k. if k == 0 then 4294967284 else 4096

stop_at : is_digit (first (b' ' ∷ b'7' ∷ [])) ≡ false
unfolding is_digit
stop_at = refl

abbrev minus_twelve : ℕ
minus_twelve = 4294967284

ne_min : minus_twelve ≢ 2147483648
ne_min = omega arith

parse_int-out_int_example :
    (parse_int ((out_int 4294967284 (stdout no_bytes)).printed ++ (b' ' ∷ b'7' ∷ []))
      ≡ some (4294967284, b' ' ∷ b'7' ∷ []))
    × (parse_uint ((out_uint 4294967284 (stdout no_bytes)).printed ++ (b' ' ∷ b'7' ∷ []))
        ≡ some (4294967284, b' ' ∷ b'7' ∷ []))
parse_int-out_int_example =
    parse_int-out_int no_bytes 4294967284 (b' ' ∷ b'7' ∷ []) (omega arith) ne_min stop_at

vformat_loop_enough_example :
    vformat_loop strings no_floats no_floats 9 int_and_string args 0 (stdout no_bytes)
    ≡ vformat_loop strings no_floats no_floats 5 int_and_string args 0 (stdout no_bytes)
vformat_loop_enough_example =
    vformat_loop_enough strings no_floats no_floats 9 int_and_string args 0 (stdout no_bytes)
      (omega arith)

abbrev printed_text : List ℕ
printed_text = (printf strings no_floats no_floats no_bytes int_and_string args).printed

abbrev in_six : ℕ
in_six = if ltb (6 - 1) (length printed_text) then 6 - 1 else length printed_text

-- The fifth byte of a buffer of six.
vsnprintf-printf_example :
    ((printf strings no_floats no_floats no_bytes int_and_string args).len ≡ length printed_text)
    × ((vsnprintf strings no_floats no_floats true no_bytes 6 int_and_string args).len
        ≡ length printed_text)
    × ((vsnprintf strings no_floats no_floats true no_bytes 6 int_and_string args).mem 4 ≡ (
        if ltb 4 in_six
        then get_or printed_text 4 0
        else if ltb 0 6 && (4 == in_six)
        then 0
        else 0))
vsnprintf-printf_example =
    vsnprintf-printf strings no_floats no_floats no_bytes no_bytes 6 int_and_string args 4
