-- ===== src/Console/Format.antt =====
-- `itoa` and `console_printf` of k/console.c. The buffer of `itoa` is a function of the index. Its
-- loops run on fuel, and `none` is a loop that the fuel does not end, or a read behind an end.
use project_k.Base.{
  ℕ, zero, suc, ◌+◌, ◌-◌, ◌/◌, ◌%◌, ◌^◌, ltb, leb, ◌==◌, ◌&&◌, ◌||◌, if◌then◌else◌, Bool, true,
  false, Option, none, some, List, [], ◌∷◌, u8, u32,
}
use project_k.Console.{Console, Cells, put, console_putchar}

abbrev pub digit : ℕ → ℕ
digit remainder = if ltb remainder 10 then remainder + b'0' else remainder + b'a' - 10

-- `do { … } while (ud /= divisor)`: the pointer behind the last digit, and the buffer.
unfoldable pub digit_loop : (fuel divisor ud p : ℕ) → Cells → Option (ℕ × Cells)
digit_loop zero divisor ud p buf = none
digit_loop (suc fuel) divisor ud p buf =
    let written = put buf p (digit (ud % divisor)) in
    let rest = digit_loop fuel divisor (ud / divisor) (p + 1) written in
    if ud / divisor == 0 then some (p + 1, written) else rest

unfoldable pub reverse_loop : (fuel p1 p2 : ℕ) → Cells → Option Cells
reverse_loop zero p1 p2 buf = none
reverse_loop (suc fuel) p1 p2 buf =
    let rest = reverse_loop fuel (p1 + 1) (p2 - 1) (put (put buf p1 (buf p2)) p2 (buf p1)) in
    if ltb p1 p2 then rest else some buf

infixl 5 ◌>>=◌
abbrev pub ◌>>=◌ {ℓ κ} : {A : Type ℓ} {B : Type κ} → Option A → (A → Option B) → Option B
none >>= f = none
some a >>= f = f a

-- `base == 'd' && d < 0`, for the bits of an `int`.
abbrev pub is_negative : (base d : ℕ) → Bool
is_negative base d = base == b'd' && leb (2 ^ 31) d

-- `ud` and `divisor` after the branch on the sign.
abbrev pub magnitude : (base d : ℕ) → ℕ
magnitude base d = if is_negative base d then u32 (2 ^ 32 - d) else d

abbrev pub divisor_of : (base : ℕ) → ℕ
divisor_of base = if base == b'x' then 16 else 10

abbrev pub first_digit : (base d : ℕ) → ℕ
first_digit base d = if is_negative base d then 1 else 0

-- No 32-bit number has more than 32 digits.
unfoldable pub itoa : (base d : ℕ) → Cells → Option Cells
itoa base d buf =
    let start = first_digit base d in
    let signed = if is_negative base d then put buf 0 b'-' else buf in
    digit_loop 32 (divisor_of base) (magnitude base d) start signed >>= λ (p, buf).
    reverse_loop 32 start (p - 1) (put buf p 0)

-- The bytes of a buffer from `p` up to its zero.
unfoldable pub text_at : (fuel p : ℕ) → Cells → Option (List ℕ)
text_at zero p buf = none
text_at (suc fuel) p buf =
    let rest = text_at fuel (p + 1) buf in
    if buf p == 0 then some [] else rest >>= λ str. some (buf p ∷ str)

-- `while (*p1) console_putchar(*p1++)` on a text, its bytes before the zero, and `n` fillers.
unfoldable pub put_text : List ℕ → Console → Option Console
put_text [] c = some c
put_text (ch ∷ str) c = console_putchar ch c >>= put_text str

unfoldable pub put_fill : ℕ → ℕ → Console → Option Console
put_fill zero ch c = some c
put_fill (suc n) ch c = console_putchar ch c >>= put_fill n ch

abbrev pub length : List ℕ → ℕ
length [] = 0
length (ch ∷ str) = suc (length str)

-- What stands behind the label `string`.
unfoldable pub put_string : (pad0 : Bool) (pad : ℕ) → List ℕ → Console → Option Console
put_string pad0 pad str c =
    put_fill (pad - length str) (if pad0 then b'0' else b' ') c >>= put_text str

-- An argument: the bits of an `int`, or the address of a text and the text.
pub data Argument : Type 0 where
  int : ℕ → Argument
  pointer : (address : ℕ) → List ℕ → Argument

abbrev pub null_text : List ℕ
null_text = b'(' ∷ b'n' ∷ b'u' ∷ b'l' ∷ b'l' ∷ b')' ∷ []

-- An argument read as an `int`, and as a text: the null pointer stands for a text of its own, and other
-- bits that are no address of a text are a fault.
abbrev pub bits : Argument → ℕ
bits (int d) = d
bits (pointer address str) = address

abbrev pub string_of : Argument → Option (List ℕ)
string_of (int d) = if d == 0 then some null_text else none
string_of (pointer address str) = if address == 0 then some null_text else some str

-- The branch for `%d`, `%u` and `%x`.
unfoldable pub put_number : (base : ℕ) (pad0 : Bool) (pad : ℕ) → (d : ℕ) → Console → Option Console
put_number base pad0 pad d c =
    itoa base d (λ i. 0) >>= λ buf. text_at 32 0 buf >>= λ str. put_string pad0 pad str c

-- The `switch` on the conversion character, with the arguments that are left. An argument that is
-- missing is a fault.
unfoldable pub convert :
    (ch : ℕ) (pad0 : Bool) (pad : ℕ) → List Argument → Console → Option (List Argument × Console)
convert ch pad0 pad [] c = none
convert ch pad0 pad (arg ∷ args) c =
    (if ch == b'd' || ch == b'u' || ch == b'x'
      then put_number ch pad0 pad (bits arg) c
      else if ch == b's'
      then (string_of arg >>= λ str. put_string pad0 pad str c)
      else console_putchar (u8 (bits arg)) c)
    >>= λ c. some (args, c)

-- Where the loop stands in the format: in the text, behind `%`, or behind `%0`.
pub data Place : Type 0 where
  in_text behind_percent behind_zero : Place

-- `pad = c - '0'` if `c` is a digit.
abbrev pub width : ℕ → ℕ
width ch = if leb b'0' ch && leb ch b'9' then ch - b'0' else 0

-- The loop over the format, its bytes before the zero. A format that ends in `%` or `%0` is read behind its end.
unfoldable pub format_loop : Place → List ℕ → List Argument → Console → Option Console
format_loop in_text [] args c = some c
format_loop behind_percent [] args c = none
format_loop behind_zero [] args c = none
format_loop in_text (ch ∷ format) args c =
    let next = console_putchar ch c >>= format_loop in_text format args in
    let conversion = format_loop behind_percent format args c in
    if ch == b'%' then conversion else next
format_loop behind_percent (ch ∷ format) args c =
    let zero_pad = format_loop behind_zero format args c in
    let converted =
      convert ch false (width ch) args c >>= λ (args, c). format_loop in_text format args c in
    if ch == b'0' then zero_pad else converted
format_loop behind_zero (ch ∷ format) args c =
    convert ch true (width ch) args c >>= λ (args, c). format_loop in_text format args c

unfoldable pub console_printf : List ℕ → List Argument → Console → Option Console
console_printf format args c = format_loop in_text format args c
