-- ===== src/Libc/Blocks.antt =====
-- Blocks of bytes: `memcpy`, `memmove`, `memset` and `memchr`.
use project_k.Base.{
  ℕ, zero, suc, ◌+◌, ◌-◌, ◌<◌, ◌≤◌, ◌≡◌, ap, sym, ◌∙◌, ==_iff, arith, ltb, leb, ◌==◌, ◌&&◌, true,
  false, if◌then◌else◌, ◌⊎◌, inl, inr, Bool-cases, u8,
}
use project_k.Libc.{Memory, put, memcpy, copy_down, memmove, memset}

-- The block of `n` bytes from `dest` on holds what `from` gives, the other bytes what they held.
abbrev pub block : (dest n : ℕ) → (from : ℕ → ℕ) → Memory → Memory
block dest n from m a = if leb dest a && ltb a (dest + n) then from (a - dest) else m a

block-end : (dest n : ℕ) (from : ℕ → ℕ) (m : Memory) → block dest (suc n) from m (dest + n) ≡ from n
block-end dest n from m =
    let inside : (leb dest (dest + n) && ltb (dest + n) (dest + suc n)) ≡ true = ground arith in
    let index : dest + n - dest ≡ n = omega arith in rw (inside, index)

block-suc :
    (dest n : ℕ) (from : ℕ → ℕ) (m : Memory) (a : ℕ)
    → (a == dest + n) ≡ false
    → block dest (suc n) from m a ≡ block dest n from m a
block-suc dest n from m a e = ground arith

block-outside :
    (dest n : ℕ) (from : ℕ → ℕ) (m : Memory) (a : ℕ)
    → (a < dest) ⊎ (dest + n ≤ a)
    → block dest n from m a ≡ m a
block-outside dest n from m a h = ground arith

-- `memcpy` copies the block as it was before, if the destination starts at or below the source, or
-- behind the source block.
pub memcpy-block :
    (dest src n : ℕ) (m : Memory) (a : ℕ)
    → (dest ≤ src) ⊎ (src + n ≤ dest)
    → memcpy dest src n m a ≡ block dest n (λ j. m (src + j)) m a
unfolding memcpy
memcpy-block dest src zero m a apart = ground arith
memcpy-block dest src (suc n) m a apart =
    let apart' : (dest ≤ src) ⊎ (src + n ≤ dest) = grind arith in
    let away : (src + n < dest) ⊎ (dest + n ≤ src + n) = grind arith in
    let source : memcpy dest src n m (src + n) ≡ m (src + n) =
      memcpy-block dest src n m (src + n) apart'
      ∙ block-outside dest n (λ j. m (src + j)) m (src + n) away in
    elim (Bool-cases (a == dest + n)) [
      | inl e ↦
          let here : a ≡ dest + n = (==_iff a (dest + n)).0 e in
          rw e (
            source
            ∙ sym (
                ap (block dest (suc n) (λ j. m (src + j)) m) here
                ∙ block-end dest n (λ j. m (src + j)) m))
      | inr e ↦
          rw e
            (memcpy-block dest src n m a apart' ∙ sym (block-suc dest n (λ j. m (src + j)) m a e))
    ]

copy_down-block :
    (dest src n : ℕ) (m : Memory) (a : ℕ)
    → src < dest
    → copy_down dest src n m a ≡ block dest n (λ j. m (src + j)) m a
unfolding copy_down
copy_down-block dest src zero m a below = ground arith
copy_down-block dest src (suc n) m a below =
    let at = copy_down-block dest src n (put m (dest + n) (m (src + n))) a below in
    ground (arith, at)

-- `memset` fills the block with the lowest byte of `c` and changes nothing else.
pub memset-block : (s c n : ℕ) (m : Memory) (a : ℕ) → memset s c n m a ≡ block s n (λ j. u8 c) m a
unfolding memset
memset-block s c zero m a = ground arith
memset-block s c (suc n) m a = ground (arith, memset-block s c n m a)

-- `memmove` copies the block as it was before, wherever the two blocks lie, and changes nothing
-- else.
pub memmove-block :
    (dest src n : ℕ) (m : Memory) (a : ℕ)
    → memmove dest src n m a ≡ block dest n (λ j. m (src + j)) m a
unfolding memmove
memmove-block dest src n m a = elim (Bool-cases (ltb src dest && ltb dest (src + n))) [
  | inl e ↦ rw e (copy_down-block dest src n m a (ground arith))
  | inr e ↦
      let apart : (dest ≤ src) ⊎ (src + n ≤ dest) = ground arith in
      rw e (memcpy-block dest src n m a apart)
]
