-- ===== src/Console/Widths.antt =====
-- What `console_printf` makes of a format: the texts of its conversions as they are, since no
-- conversion is ever padded.
use project_k.Base.{ℕ, ◌==◌, ◌||◌, if◌then◌else◌, Option, none, some, List, [], ◌∷◌, ◌++◌, u8}
use project_k.Console.{Console}
use project_k.Console.Format.{
  ◌>>=◌, itoa, text_at, Argument, bits, string_of, Place, in_text, behind_percent, behind_zero,
}

-- The text that stands for an argument: a number as `itoa` writes it, a text, or a character.
abbrev pub converted : (ch : ℕ) → Argument → Option (List ℕ)
converted ch arg =
    if ch == b'd' || ch == b'u' || ch == b'x'
    then itoa ch (bits arg) (λ i. 0) >>= text_at 32 0
    else if ch == b's'
    then string_of arg
    else some (u8 (bits arg) ∷ [])

-- The text of a format: each `%`, with one 0 behind it or not, and the character behind that are replaced
-- by the text of the next argument. There is none if arguments are missing, or the format ends early.
unfoldable pub rendered : Place → List ℕ → List Argument → Option (List ℕ)
rendered in_text [] args = some []
rendered behind_percent [] args = none
rendered behind_zero [] args = none
rendered in_text (ch ∷ format) args =
    let conversion = rendered behind_percent format args in
    let rest = rendered in_text format args in
    if ch == b'%' then conversion else rest >>= λ str. some (ch ∷ str)
rendered behind_percent (ch ∷ format) [] =
    let zero = rendered behind_zero format [] in if ch == b'0' then zero else none
rendered behind_percent (ch ∷ format) (arg ∷ args) =
    let zero = rendered behind_zero format (arg ∷ args) in
    let rest = rendered in_text format args in
    if ch == b'0' then zero else converted ch arg >>= λ str. rest >>= λ strs. some (str ++ strs)
rendered behind_zero (ch ∷ format) [] = none
rendered behind_zero (ch ∷ format) (arg ∷ args) =
    let rest = rendered in_text format args in
    converted ch arg >>= λ str. rest >>= λ strs. some (str ++ strs)
