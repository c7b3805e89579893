-- ===== src/Base/Digits.antt =====
-- Laws of `|` at variables. The native operations stand for a recursion on binary digits;
-- one round of it, without the count of rounds, gives the laws for fields.
use Prim.Native.Nat.{
  ℕ, zero, suc, ◌+◌, ◌-◌, ◌*◌, ◌/◌, ◌%◌, ◌^◌, ◌≤◌, ◌<◌, max, bit_or, digits, bit_or-bitwise,
}
use mathlib.Core.Path.{◌≡◌, refl, ap, ◌∙◌}
use native.Mathlib.Nat.{pow-suc}
use native.Mathlib.Omega.{arith}

-- Rounds beyond the digits of the first number do nothing.
rounds_spare :
    (z : ℕ → ℕ) (f : ℕ → ℕ → ℕ) (extra n a b : ℕ)
    → a ≤ n
    → digits z f (extra + n) a b ≡ digits z f n a b
rounds_spare z f extra zero zero b h = start extra
  where
    start : (k : ℕ) → digits z f (k + 0) 0 b ≡ z b
    start k = first (k + 0)
      where
        first : (m : ℕ) → digits z f m 0 b ≡ z b
        first zero = refl
        first (suc m) = refl
rounds_spare z f extra zero (suc a) b h = absurd (omega arith)
rounds_spare z f extra (suc n) zero b h = first (extra + suc n)
  where
    first : (m : ℕ) → digits z f m 0 b ≡ z b
    first zero = refl
    first (suc m) = refl
rounds_spare z f extra (suc n) (suc a) b h =
    let e : extra + suc n ≡ suc (extra + n) = omega arith in
    rw e (
      ap (λ (t : ℕ). t * 2 + f (suc a % 2) (b % 2))
        (rounds_spare z f extra n (suc a / 2) (b / 2) (omega arith)))

-- One round of the recursion, at a positive first number.
round :
    (z : ℕ → ℕ) (f : ℕ → ℕ → ℕ) (a b : ℕ)
    → digits z f (suc a) (suc a) b
      ≡ digits z f (suc a / 2) (suc a / 2) (b / 2) * 2 + f (suc a % 2) (b % 2)
round z f a b =
    let half : ℕ = suc a / 2 in
    let e : (a - half) + half ≡ a = omega arith in
    ap (λ (t : ℕ). t * 2 + f (suc a % 2) (b % 2))
      (ap (λ n. digits z f n half (b / 2)) (sym_eq e)
        ∙ rounds_spare z f (a - half) half half (b / 2) (omega arith))
  where
    sym_eq : {m n : ℕ} → m ≡ n → n ≡ m
    sym_eq p = omega arith

-- The lowest digit of `a | b`, and what stands above it.
pub bit_or_round : (a b : ℕ) → bit_or a b ≡ max (a % 2) (b % 2) + 2 * bit_or (a / 2) (b / 2)
bit_or_round zero b =
    let whole = bit_or-bitwise 0 b in
    let half = bit_or-bitwise 0 (b / 2) in omega (arith, whole, half)
bit_or_round (suc a) b =
    let whole = bit_or-bitwise (suc a) b in
    let half = bit_or-bitwise (suc a / 2) (b / 2) in
    omega (arith, round (λ y. y) max a b, whole, half)

-- `a | 0`, by halving `a` at most `n` times.
or_nothing : (n a : ℕ) → a ≤ n → bit_or a 0 ≡ a
or_nothing n zero h = refl
or_nothing zero (suc a) h = absurd (omega arith)
or_nothing (suc n) (suc a) h =
    omega (arith, bit_or_round (suc a) 0, or_nothing n (suc a / 2) (omega arith))

pub bit_or-zero : (a : ℕ) → bit_or a 0 ≡ a
bit_or-zero a = or_nothing a a (omega arith)

-- A field above `k` bits and a field inside them: `(hi << k) | lo` is the sum.
pub bit_or-fields : (k hi lo : ℕ) → lo < 2 ^ k → bit_or (hi * 2 ^ k) lo ≡ hi * 2 ^ k + lo
bit_or-fields zero hi lo h =
    let e : lo ≡ 0 = omega arith in
    let g : hi * 2 ^ 0 ≡ hi = omega arith in rw (e, g, bit_or-zero hi) (omega arith)
bit_or-fields (suc k) hi lo h =
    let p : 2 ^ suc k ≡ 2 * 2 ^ k = omega (arith, pow-suc 2 k) in
    let d : hi * 2 ^ suc k ≡ 2 * (hi * 2 ^ k) = omega (arith, ap (λ (t : ℕ). hi * t) p) in
    let halved : (hi * 2 ^ suc k) / 2 ≡ hi * 2 ^ k = omega (arith, d) in
    let even : (hi * 2 ^ suc k) % 2 ≡ 0 = omega (arith, d) in
    let rest = bit_or-fields k hi (lo / 2) (omega (arith, p)) in
    bit_or_round (hi * 2 ^ suc k) lo ∙ rw (halved, even, rest) (omega (arith, d))

or_swap : (n a b : ℕ) → a ≤ n → b ≤ n → bit_or a b ≡ bit_or b a
or_swap zero a b h k = let e : a ≡ b = omega arith in rw e
or_swap (suc n) a b h k = omega (
  arith,
  bit_or_round a b,
  bit_or_round b a,
  or_swap n (a / 2) (b / 2) (omega arith) (omega arith),
)

pub bit_or_comm : (a b : ℕ) → bit_or a b ≡ bit_or b a
bit_or_comm a b = or_swap (a + b) a b (omega arith) (omega arith)

-- The same with the low field first: `lo | (hi << k)`.
pub fields-bit_or : (k hi lo : ℕ) → lo < 2 ^ k → bit_or lo (hi * 2 ^ k) ≡ hi * 2 ^ k + lo
fields-bit_or k hi lo h = bit_or_comm lo (hi * 2 ^ k) ∙ bit_or-fields k hi lo h
