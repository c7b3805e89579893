-- ===== src/Kfs/Adler.antt =====
-- The checksum and Adler's two sums.
use project_k.Base.{ℕ, zero, suc, ◌+◌, ◌*◌, ◌%◌, ◌^◌, ◌<◌, ◌≤◌, ◌≡◌, refl, arith, u32}
use project_k.Base.Digits.{bit_or-fields}
use project_k.Kfs.{sums, kfs_checksum}

-- One more than the sum of the first `n` bytes, and the sum of these numbers for 1 to `n` bytes,
-- without a limit.
unfoldable pub plain_sum : (n : ℕ) → (ℕ → ℕ) → ℕ
plain_sum zero buf = 1
plain_sum (suc n) buf = plain_sum n buf + buf n

unfoldable pub sum_of_sums : (n : ℕ) → (ℕ → ℕ) → ℕ
sum_of_sums zero buf = 0
sum_of_sums (suc n) buf = sum_of_sums n buf + plain_sum (suc n) buf

-- The checksum of RFC 1950, section 8.2.
abbrev pub adler32 : (n : ℕ) → (ℕ → ℕ) → ℕ
adler32 n buf = sum_of_sums n buf % 65521 * 2 ^ 16 + plain_sum n buf % 65521

module _ (buf : ℕ → ℕ) (bytes : (i : ℕ) → buf i < 256) where
  plain_sum-le : (n : ℕ) → plain_sum n buf ≤ 1 + 255 * n
  unfolding plain_sum
  plain_sum-le zero = omega arith
  plain_sum-le (suc n) = omega (arith, plain_sum-le n, bytes n)

  -- 4096 times the largest sum still fits 32 bits.
  sum_of_sums-le : (n : ℕ) → n ≤ 4096 → sum_of_sums n buf ≤ n * 1044481
  unfolding sum_of_sums
  sum_of_sums-le zero h = omega arith
  sum_of_sums-le (suc n) h = omega (arith, sum_of_sums-le n (omega arith), plain_sum-le (suc n))

  sums_fit : (n : ℕ) → n ≤ 4096 → sums n buf ≡ (plain_sum n buf, sum_of_sums n buf)
  unfolding sums plain_sum sum_of_sums
  sums_fit zero h = refl
  sums_fit (suc n) h =
      let a : u32 (plain_sum n buf + buf n) ≡ plain_sum n buf + buf n =
        omega (arith, plain_sum-le n, bytes n) in
      let b : u32 (sum_of_sums n buf + (plain_sum n buf + buf n))
          ≡ sum_of_sums n buf + (plain_sum n buf + buf n) =
        omega (arith, sum_of_sums-le n (omega arith), plain_sum-le n, bytes n) in
      rw (sums_fit n (omega arith), a, b)

  -- On at most 4096 bytes, the size of a block, the sums of 32 bits do not overflow, and the checksum
  -- is that of RFC 1950.
  pub kfs_checksum-adler32 : (n : ℕ) → n ≤ 4096 → kfs_checksum buf n ≡ adler32 n buf
  unfolding kfs_checksum
  kfs_checksum-adler32 n h =
      let cut : u32 (sum_of_sums n buf % 65521 * 2 ^ 16) ≡ sum_of_sums n buf % 65521 * 2 ^ 16 =
        omega arith in
      rw (sums_fit n h, cut)
        (bit_or-fields 16 (sum_of_sums n buf % 65521) (plain_sum n buf % 65521) (omega arith))
