-- ===== src/Libc/Order.antt =====
-- When `strcmp` and `memcmp` find no difference.
use project_k.Base.{
  ℕ, zero, suc, ◌+◌, ◌<◌, ◌≡◌, ◌≢◌, ap, sym, refl, ◌∙◌, arith, ◌==◌, ==_iff, ◌&&◌, not, true, false,
  inl, inr, Bool-cases, some,
}
use project_k.Base.Int.{ℤ, pos}
use project_k.Libc.{Memory}
use project_k.Libc.Compare.{minus, difference, memcmp, strcmp}
use project_k.Libc.Texts.{IsString, IsString-tail, IsString-head, next_byte, first_byte}

-- The `n` bytes at `s1` and at `s2` are the same.
abbrev pub Same : Memory → (s1 s2 n : ℕ) → Type 0
Same m s1 s2 n = (j : ℕ) → j < n → m (s1 + j) ≡ m (s2 + j)

abbrev pub Bytes : Memory → Type 0
Bytes m = (a : ℕ) → m a < 256

minus-zero : (a b : ℕ) → minus a b ≡ pos 0 → a ≡ b
unfolding minus
minus-zero a b e = ground arith

difference-zero : (c d : ℕ) → c < 256 → d < 256 → difference c d ≡ pos 0 → c ≡ d
difference-zero c d h k e = let same = minus-zero _ _ e in omega arith

difference_self : (c : ℕ) → difference c c ≡ pos 0
unfolding minus
difference_self c = ground arith

Same-cons :
    (m : Memory) (s1 s2 n : ℕ) → m s1 ≡ m s2 → Same m (s1 + 1) (s2 + 1) n → Same m s1 s2 (suc n)
Same-cons m s1 s2 n e h zero k = ap m (first_byte s1) ∙ e ∙ sym (ap m (first_byte s2))
Same-cons m s1 s2 n e h (suc j) k =
    sym (ap m (next_byte s1 j)) ∙ h j (omega arith) ∙ ap m (next_byte s2 j)

Same-tail : (m : Memory) (s1 s2 n : ℕ) → Same m s1 s2 (suc n) → Same m (s1 + 1) (s2 + 1) n
Same-tail m s1 s2 n h j k =
    ap m (next_byte s1 j) ∙ h (suc j) (omega arith) ∙ sym (ap m (next_byte s2 j))

Same-head : (m : Memory) (s1 s2 n : ℕ) → Same m s1 s2 (suc n) → m s1 ≡ m s2
Same-head m s1 s2 n h = sym (ap m (first_byte s1)) ∙ h 0 (omega arith) ∙ ap m (first_byte s2)

-- In a memory of bytes, and with fuel above the length of the first string, `strcmp` ends, and its
-- result is 0 exactly when the first string with its zero stands at the second address too.
pub strcmp-Same :
    (fuel s1 s2 n : ℕ) (m : Memory)
    → Bytes m
    → IsString m s1 n
    → n < fuel
    → (r : ℤ) × (strcmp fuel s1 s2 m ≡ some r)
      × (r ≡ pos 0 → Same m s1 s2 (suc n))
      × (Same m s1 s2 (suc n) → r ≡ pos 0)
unfolding strcmp
strcmp-Same zero s1 s2 n m bytes h room = absurd (omega arith)
strcmp-Same (suc fuel) s1 s2 zero m bytes h room =
    let here : m s1 ≡ 0 = sym (ap m (first_byte s1)) ∙ h.ends in
    let stop : (m s1 == m s2 && not (m s1 == 0)) ≡ false = ground arith in
    (
      difference (m s1) (m s2),
      rw stop,
      λ e.
          Same-cons m s1 s2 0 (difference-zero _ _ (bytes s1) (bytes s2) e)
            (λ j k. absurd (omega arith)),
      λ same. ap (difference (m s1)) (sym (Same-head m s1 s2 0 same)) ∙ difference_self (m s1),
    )
strcmp-Same (suc fuel) s1 s2 (suc n) m bytes h room =
    let ne = IsString-head m s1 n h in
    elim (Bool-cases (m s1 == m s2)) [
      | inl e ↦
          let head : m s1 ≡ m s2 = (==_iff _ _).0 e in
          let go : (m s1 == m s2 && not (m s1 == 0)) ≡ true = ground (arith, ne, e) in
          let (r, run, to, from) =
            strcmp-Same fuel (s1 + 1) (s2 + 1) n m bytes (IsString-tail m s1 n h) (omega arith) in
          (
            r,
            rw go run,
            λ z. Same-cons m s1 s2 (suc n) head (to z),
            λ same. from (Same-tail m s1 s2 (suc n) same),
          )
      | inr e ↦
          let stop : (m s1 == m s2 && not (m s1 == 0)) ≡ false = ground (arith, e) in
          let apart : m s1 ≢ m s2 = ground (arith, e) in
          (
            difference (m s1) (m s2),
            rw stop,
            λ z. absurd (apart (difference-zero _ _ (bytes s1) (bytes s2) z)),
            λ same. absurd (apart (Same-head m s1 s2 (suc n) same)),
          )
    ]

-- In a memory of bytes, `memcmp` is 0 exactly when the two blocks are the same.
pub memcmp-Same :
    (s1 s2 n : ℕ) (m : Memory)
    → Bytes m
    → (memcmp s1 s2 n m ≡ pos 0 → Same m s1 s2 n) × (Same m s1 s2 n → memcmp s1 s2 n m ≡ pos 0)
unfolding memcmp
memcmp-Same s1 s2 zero m bytes = (λ e j k. absurd (omega arith), λ same. refl)
memcmp-Same s1 s2 (suc n) m bytes =
    let (to, from) = memcmp-Same (s1 + 1) (s2 + 1) n m bytes in
    elim (Bool-cases (m s1 == m s2)) [
      | inl e ↦
          let head : m s1 ≡ m s2 = (==_iff _ _).0 e in
          (
            λ z. Same-cons m s1 s2 n head (to (sym (rw e refl) ∙ z)),
            λ same. rw e (from (Same-tail m s1 s2 n same)),
          )
      | inr e ↦
          let apart : m s1 ≢ m s2 = ground (arith, e) in
          (
            λ z. absurd (apart (difference-zero _ _ (bytes s1) (bytes s2) (sym (rw e refl) ∙ z))),
            λ same. absurd (apart (Same-head m s1 s2 n same)),
          )
    ]
