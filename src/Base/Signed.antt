-- ===== src/Base/Signed.antt =====
-- Signed numbers of 32 bits, as the numbers below 2^32 with the same bits.
use Prim.Native.Nat.{ℕ, ◌+◌, ◌-◌, ◌^◌}
use mathlib.Core.Bool.{Bool}
use project_k.Base.Tests.{ltb}
use project_k.Base.Word.{u32}

abbrev pub add32 : ℕ → ℕ → ℕ
add32 a b = u32 (a + b)

abbrev pub sub32 : ℕ → ℕ → ℕ
sub32 a b = u32 (a + 2 ^ 32 - b)

-- `a < b`.
abbrev pub lt32 : ℕ → ℕ → Bool
lt32 a b = ltb (u32 (a + 2 ^ 31)) (u32 (b + 2 ^ 31))
