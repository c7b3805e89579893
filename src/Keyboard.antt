-- ===== src/Keyboard.antt =====
-- The keyboard driver: k/keyboard.c, with the character functions of libs/libc/include/ctype.h.
-- What the handler prints is kept in a list.
pub mod Typing
mod Tests
use project_k.Base.{
  ℕ, zero, suc, ◌+◌, ◌-◌, ◌%◌, ◌^◌, leb, ◌==◌, ◌&&◌, ◌||◌, Bool, true, false, not, if◌then◌else◌,
  Option, none, some, List, [], ◌∷◌, get_or, u8, u16, has_bit,
}
use project_k.Base.Int.{ℤ, pos, negsuc}
use project_k.Bus.{Bus, Hardware, inb}

-- 39 and 92 are the quote and the backslash; the rest of the 128 entries is 0.
unfoldable pub scan_code_chars : List ℕ
scan_code_chars =
    0 ∷ 27 ∷ b'1' ∷ b'2' ∷ b'3' ∷ b'4' ∷ b'5' ∷ b'6' ∷ b'7' ∷ b'8' ∷ b'9' ∷ b'0' ∷ b'-' ∷ b'=' ∷ 8
    ∷ 9 ∷ b'q' ∷ b'w' ∷ b'e' ∷ b'r' ∷ b't' ∷ b'y' ∷ b'u' ∷ b'i' ∷ b'o' ∷ b'p' ∷ b'[' ∷ b']' ∷ 10 ∷ 0
    ∷ b'a' ∷ b's' ∷ b'd' ∷ b'f' ∷ b'g' ∷ b'h' ∷ b'j' ∷ b'k' ∷ b'l' ∷ b';' ∷ 39 ∷ b'`' ∷ 0 ∷ 92
    ∷ b'z' ∷ b'x' ∷ b'c' ∷ b'v' ∷ b'b' ∷ b'n' ∷ b'm' ∷ b',' ∷ b'.' ∷ b'/' ∷ 0 ∷ b'*' ∷ 0 ∷ b' ' ∷ 0
    ∷ 0 ∷ 0 ∷ 0 ∷ 0 ∷ 0 ∷ 0 ∷ 0 ∷ 0 ∷ 0 ∷ 0 ∷ 0 ∷ 0 ∷ 0 ∷ 0 ∷ 0 ∷ b'-' ∷ 0 ∷ 0 ∷ 0 ∷ b'+' ∷ []

unfoldable pub alternate_chars : ℕ → ℕ
alternate_chars c =
    if c == b'`'
    then b'~'
    else if c == b'1'
    then b'!'
    else if c == b'2'
    then b'@'
    else if c == b'3'
    then b'#'
    else if c == b'4'
    then b'$'
    else if c == b'5'
    then b'%'
    else if c == b'6'
    then b'^'
    else if c == b'7'
    then b'&'
    else if c == b'8'
    then b'*'
    else if c == b'9'
    then b'('
    else if c == b'0'
    then b')'
    else if c == b'-'
    then b'_'
    else if c == b'='
    then b'+'
    else if c == b'['
    then b'{'
    else if c == b']'
    then b'}'
    else if c == 92
    then b'|'
    else if c == b';'
    then b':'
    else if c == 39
    then b'"'
    else if c == b','
    then b'<'
    else if c == b'.'
    then b'>'
    else if c == b'/'
    then b'?'
    else c

unfoldable pub isalpha : ℕ → Bool
isalpha c = leb b'A' c && leb c b'Z' || leb b'a' c && leb c b'z'

unfoldable pub toupper : ℕ → ℕ
toupper c = if leb b'a' c && leb c b'z' then c - 32 else c

-- `key` is -1 if no scan code came. `printed` is what `console_printf` put on the console, the
-- last first.
pub record Keyboard : Type 0 where
  pub caps_lock : Bool
  pub shift_pressed : Bool
  pub key : ℤ
  pub ch : ℕ
  pub printed : List ℕ
  pub bus : Bus

abbrev pub key_tab : ℕ
key_tab = 15

abbrev pub key_enter : ℕ
key_enter = 28

abbrev pub key_lshift : ℕ
key_lshift = 42

abbrev pub key_majlock : ℕ
key_majlock = 58

-- The loop of `getKey`, with the rounds left until its counter `i` overflows.
unfoldable pub get_key : Hardware → (rounds : ℕ) → Bus → ℤ × Bus
get_key dev zero bus = (negsuc 0, bus)
get_key dev (suc rounds) bus =
    let (status, asked) = inb dev 0x64 bus in
    let (scancode, taken) = inb dev 0x60 asked in
    let rest = get_key dev rounds asked in if has_bit status 0 then (pos scancode, taken) else rest

-- The branch for keys with a character.
unfoldable pub character : ℕ → Keyboard → Keyboard
character scancode k =
    let ch = get_or scan_code_chars scancode 0 in
    if k.caps_lock
    then record k { ch = if k.shift_pressed then alternate_chars ch else toupper ch }
    else record k {
      ch = if k.shift_pressed then (if isalpha ch then toupper ch else alternate_chars ch) else ch;
      shift_pressed = false;
    }

-- The `switch` on a key that is pressed.
unfoldable pub pressed : ℕ → Keyboard → Keyboard
pressed scancode k =
    if scancode == key_majlock
    then record k { caps_lock = not k.caps_lock }
    else if scancode == key_enter
    then record k { ch = 10 }
    else if scancode == key_tab
    then record k { ch = 9 }
    else if scancode == key_lshift
    then record k { shift_pressed = true }
    else character scancode k

-- -1 has its bit 7 set.
unfoldable pub on_scancode : ℤ → Keyboard → Keyboard
on_scancode (negsuc n) k = k
on_scancode (pos scancode) k =
    let after = pressed scancode k in
    if has_bit scancode 7 then k else record after { printed = after.ch ∷ after.printed }

-- From 1000 on there are 2^31 - 1000 values up to the largest `int`.
unfoldable pub keyboard_handler : Hardware → Keyboard → Keyboard
keyboard_handler dev k =
    let (scancode, bus) = get_key dev (2 ^ 31 - 1000) k.bus in
    on_scancode scancode (record k { ch = 0; key = scancode; bus = bus })

-- `keyboard_getScancode` and `keyboard_getChar`, once their waits have ended.
unfoldable pub take_scancode : Keyboard → ℤ × Keyboard
take_scancode k = (k.key, record k { ch = 0; key = pos 0 })

unfoldable pub take_char : Keyboard → ℕ × Keyboard
take_char k = (k.ch, record k { ch = 0; key = pos 0 })
