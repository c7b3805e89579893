-- ===== src/Console/Numerals.antt =====
-- What `itoa` leaves in the buffer is the number, written in its base.
use project_k.Base.{ℕ, zero, suc, ◌+◌, ◌-◌, ◌*◌, ◌^◌, ◌<◌, ◌≤◌, ◌≡◌, ◌≢◌, leb, ◌&&◌, if◌then◌else◌}
use project_k.Console.{Cells}

-- The value of a digit's character, and 16 for any other.
abbrev pub unit : ℕ → ℕ
unit c =
    if leb b'0' c && leb c b'9'
    then c - b'0'
    else if leb b'a' c && leb c b'f'
    then c - b'a' + 10
    else 16

-- The number written from `start` on, the digit of the highest weight first; and from the lowest.
unfoldable pub value : (divisor : ℕ) → Cells → (start n : ℕ) → ℕ
value divisor buf start zero = 0
value divisor buf start (suc n) = value divisor buf start n * divisor + unit (buf (start + n))

unfoldable pub value_up : (divisor : ℕ) → Cells → (start n : ℕ) → ℕ
value_up divisor buf start zero = 0
value_up divisor buf start (suc n) = unit (buf start) + divisor * value_up divisor buf (start + 1) n

-- What the loop over the digits leaves: between 1 and `k` digits from `p` on, with the value, and
-- with a leading digit that is not 0 unless the number is.
pub record Written (divisor ud p k : ℕ) (old : Cells) (behind : ℕ) (buf : Cells) : Type 0 where
  pub count : ℕ
  pub some_digit : 1 ≤ count
  pub few : count ≤ k
  pub length : behind ≡ p + count
  pub number : value_up divisor buf p count ≡ ud
  pub leading : ud ≢ 0 → buf (p + count - 1) ≢ b'0'
  pub below : (j : ℕ) → j < p → buf j ≡ old j

-- One to ten digits from `start` on, in a base: their value, with no 0 before them, and the zero behind.
pub record Digits (base start ud : ℕ) (buf : Cells) : Type 0 where
  pub count : ℕ
  pub some_digit : 1 ≤ count
  pub few : count ≤ 10
  pub number : value base buf start count ≡ ud
  pub leading : ud ≢ 0 → buf start ≢ b'0'
  pub ends : buf (start + count) ≡ 0

-- The text of the bits `d` of an `int` for a conversion: for %x the number in hexadecimal digits; for %d
-- a number from 2^31 on stands for one that is 2^32 less, with a minus sign and the decimal digits of
-- what is missing to 2^32; and else the number in decimal digits.
pub data Numeral (conversion d : ℕ) (buf : Cells) : Type 0 where
  hexadecimal : conversion ≡ b'x' → Digits 16 0 d buf → Numeral conversion d buf
  negative :
      (ud : ℕ)
      → conversion ≡ b'd'
      → 2 ^ 31 ≤ d
      → ud + d ≡ 2 ^ 32
      → buf 0 ≡ b'-'
      → Digits 10 1 ud buf
      → Numeral conversion d buf
  decimal :
      conversion ≢ b'x'
      → (conversion ≡ b'd' → d < 2 ^ 31)
      → Digits 10 0 d buf
      → Numeral conversion d buf
