-- ===== src/Kernel/Keyboard/Line.antt =====
-- Lines read from the keyboard, `readline` and SYS_READ of kernel/kernel.c. The keys that
-- `kbd_getkey` gives, one after another, are a list; none is the outcome where they run out and the
-- call still waits. The echo is output.
mod Stored
use mini_os.Base.{
  ℕ, ◌+◌, ◌-◌, ◌≤◌, ◌<◌, ◌≡◌, ◌≢◌, ◌⊎◌, refl, sym, ap, ◌∙◌, Bool, true, false, not, ◌==◌, ltb, leb,
  if◌then◌else◌, arith, List, [], ◌∷◌, ◌++◌, Option, none, some, ◌>>=◌, take, length, take-append,
}
use mini_os.Base.Words.{add32, sub32, u32_mod}
use mini_os.Base.Bytes.{Memory, poke, read_bytes, length-read_bytes}
use mini_os.Kernel.Layout.{err}
use mini_os.Kernel.UserMemory.{user_range_ok}
use mini_os.Kernel.Keyboard.Line.Stored.{
  poke_self, poke_other, kept_line, nothing_to_erase, longer_line, shorter_line,
}

-- The loop of `readline` with `n` characters in the buffer, which starts at `off`: the length, the
-- memory and the keys left.
unfoldable pub line_loop : List ℕ → ℕ → ℕ → ℕ → Memory → Option (ℕ × Memory × List ℕ)
unfolding poke
line_loop [] off max n user = if ltb (add32 n 1) max then none else some (n, user, [])
line_loop (k ∷ keys) off max n user =
    let c = if ltb k 256 then k else 0 in
    let same = line_loop keys off max n user in
    let shorter = line_loop keys off max (sub32 n 1) user in
    let longer = line_loop keys off max (add32 n 1) (poke user (add32 off n) c) in
    if not (ltb (add32 n 1) max)
    then some (n, user, k ∷ keys)
    else if c == 0
    then same
    else if c == b'\n'
    then some (n, user, keys)
    else if c == 8
    then if n == 0 then same else shorter
    else longer

-- `readline` into the memory from `off` on: the length, the memory and the keys left.
unfoldable pub readline : List ℕ → ℕ → ℕ → Memory → Option (ℕ × Memory × List ℕ)
readline keys off max user =
    line_loop keys off max 0 user >>= λ r. some (r.0, poke (r.1) (add32 off (r.0)) 0, r.2)

unfoldable pub sys_read : List ℕ → ℕ → ℕ → ℕ → Memory → Option (ℕ × Memory × List ℕ)
sys_read keys fd off len user =
    if not (user_range_ok off len)
    then some (err, user, keys)
    else if len == 0
    then some (0, user, keys)
    else if not (fd == 0)
    then some (err, user, keys)
    else readline keys off len user

-- The enter key is among the keys.
unfoldable pub has_enter : List ℕ → Bool
has_enter [] = false
has_enter (k ∷ keys) = let rest = has_enter keys in if k == b'\n' then true else rest

-- The line that keys type, on the characters `buf` before them, in a buffer of `max` bytes: enter
-- and a full buffer end it, and a backspace takes the last character away if there is one.
unfoldable pub typed_line : List ℕ → ℕ → List ℕ → List ℕ
typed_line [] max buf = buf
typed_line (k ∷ keys) max buf =
    let c = if ltb k 256 then k else 0 in
    let same = typed_line keys max buf in
    let shorter = typed_line keys max (take (length buf - 1) buf) in
    let longer = typed_line keys max (buf ++ (c ∷ [])) in
    if leb max (length buf + 1)
    then buf
    else if c == 0
    then same
    else if c == b'\n'
    then buf
    else if c == 8
    then shorter
    else longer

-- The loop ends with the line `l`, of less than `max` characters, and has changed no byte outside
-- the range.
abbrev Ends : ℕ → ℕ → Memory → Option (ℕ × Memory × List ℕ) → List ℕ → Type 0
Ends off max user o l =
    (r : ℕ × Memory × List ℕ) × (o ≡ some r)
    × (r.0 < max)
    × (read_bytes (r.1) off (r.0) ≡ l)
    × ((p : ℕ) → (p < off) ⊎ (off + max ≤ p) → r.1 p ≡ user p)

if-Ends :
    (off max : ℕ) (user : Memory) (b : Bool) (x y : Option (ℕ × Memory × List ℕ)) (l m : List ℕ)
    → (b ≡ true → Ends off max user x l)
    → (b ≡ false → Ends off max user y m)
    → Ends off max user (if b then x else y) (if b then l else m)
if-Ends off max user true x y l m f g = f refl
if-Ends off max user false x y l m f g = g refl

-- Two ways to the same line.
either-Ends :
    (off max : ℕ) (user : Memory) (b : Bool) (x y : Option (ℕ × Memory × List ℕ)) (l : List ℕ)
    → (b ≡ true → Ends off max user x l)
    → (b ≡ false → Ends off max user y l)
    → Ends off max user (if b then x else y) l
either-Ends off max user true x y l f g = f refl
either-Ends off max user false x y l f g = g refl

-- A character put behind the others.
stored-Ends :
    (off max n c : ℕ) (user : Memory) (o : Option (ℕ × Memory × List ℕ)) (l : List ℕ)
    → n < max
    → off + max < u32_mod
    → Ends off max (poke user (add32 off n) c) o l
    → Ends off max user o l
stored-Ends off max n c user o l lt fits (r, e, less, line, same) =
    (r, e, less, line, λ p out. same p out ∙ poke_other user (add32 off n) c p (ground arith))

line_loop-Ends :
    (keys : List ℕ) (off max n : ℕ) (user : Memory) (buf : List ℕ)
    → has_enter keys ≡ true
    → n < max
    → off + max < u32_mod
    → read_bytes user off n ≡ buf
    → Ends off max user (line_loop keys off max n user) (typed_line keys max buf)
unfolding line_loop has_enter typed_line
line_loop-Ends [] off max n user buf e lt fits h = absurd (ground arith)
line_loop-Ends (k ∷ keys) off max n user buf e lt fits h =
    let c = if ltb k 256 then k else 0 in
    let later : (c == b'\n') ≡ false → has_enter keys ≡ true = λ ne. ground arith in
    let len : length buf ≡ n = ap (λ x. length x) (sym h) ∙ length-read_bytes user off n in
    let full_test : leb max (length buf + 1) ≡ not (ltb (add32 n 1) max) = ground (arith, len) in
    rw full_test (
      if-Ends off max user (not (ltb (add32 n 1) max)) _ _ _ _
        (λ full. ((n, user, k ∷ keys), refl, lt, h, λ p out. refl))
        (λ room.
          if-Ends off max user (c == 0) _ _ _ _
            (λ z. line_loop-Ends keys off max n user buf (later (ground arith)) lt fits h)
            (λ nz.
              if-Ends off max user (c == b'\n') _ _ _ _
                (λ enter. ((n, user, keys), refl, lt, h, λ p out. refl))
                (λ ne.
                  if-Ends off max user (c == 8) _ _ _ _
                    (λ back.
                      either-Ends off max user (n == 0) _ _ _
                        (λ none_yet.
                          line_loop-Ends keys off max n user _ (later ne) lt fits
                            (nothing_to_erase user off n buf (ground arith) h))
                        (λ some_yet.
                          line_loop-Ends keys off max (sub32 n 1) user _ (later ne) (ground arith)
                            fits (shorter_line user off n buf (ground arith) (omega arith) h)))
                    (λ other. stored-Ends off max n c user _ _ lt fits (
                      line_loop-Ends keys off max (add32 n 1) (poke user (add32 off n) c)
                        (buf ++ (c ∷ [])) (later ne) (ground arith) fits
                        (longer_line user off n c buf (omega arith) (ground arith) h)))))))

range_fits : (off len : ℕ) → user_range_ok off len ≡ true → off + len < u32_mod
unfolding user_range_ok
range_fits off len ok = ground arith

-- SYS_READ of descriptor 0 into a range of the program's memory that is not empty returns where
-- enter is among the keys that come. The length it returns is less than that of the range, the bytes
-- of that length from the start of the range on are the line that the keys type, with a NUL behind
-- it, and no byte outside the range is changed.
pub sys_read_lem :
    (keys : List ℕ) (off len : ℕ) (user : Memory) (p : ℕ)
    → has_enter keys ≡ true
    → user_range_ok off len ≡ true
    → 0 < len
    → (p < off) ⊎ (off + len ≤ p)
    → (r : ℕ × Memory × List ℕ) × (sys_read keys 0 off len user ≡ some r)
      × (r.0 < len)
      × (read_bytes (r.1) off (r.0) ≡ typed_line keys len [])
      × (r.1 (off + r.0) ≡ 0)
      × (r.1 p ≡ user p)
unfolding sys_read readline
sys_read_lem keys off len user p enter ok pos out =
    let fits = range_fits off len ok in
    let (r, e, lt, line, same) =
      line_loop-Ends keys off len 0 user [] enter pos fits (unfold read_bytes in refl) in
    let z : (len == 0) ≡ false = ground arith in
    let at : add32 off (r.0) ≡ off + r.0 = omega (arith, lt, fits) in
    (
      (r.0, poke (r.1) (add32 off (r.0)) 0, r.2),
      rw (ok, z, e) refl,
      lt,
      rw at (kept_line (r.1) off (r.0) 0 ∙ line),
      rw at (poke_self (r.1) (off + r.0) 0),
      poke_other (r.1) (add32 off (r.0)) 0 p (ground (arith, at)) ∙ same p out,
    )
