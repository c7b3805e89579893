-- ===== src/Libc/Texts.antt =====
-- Strings: `strlen`, `strcpy`, `strcat` and `strncpy`.
use project_k.Base.{
  ℕ, zero, suc, ◌+◌, ◌-◌, ◌<◌, ◌≤◌, ◌≡◌, ◌≢◌, ap, sym, ◌∙◌, arith, ltb, leb, ◌==◌, ==_iff, ◌&&◌,
  true, false, ◌⊎◌, inl, inr, Bool-cases, some,
}
use project_k.Libc.{Memory, put, text_end, strlen, strcpy, strcat}
use project_k.Libc.Blocks.{block}

-- At `s` stands a string of `n` bytes, with the zero behind it.
pub record IsString (m : Memory) (s n : ℕ) : Type 0 where
  pub ends : m (s + n) ≡ 0
  pub goes_on : (j : ℕ) → j < n → m (s + j) ≢ 0

pub next_byte : (s j : ℕ) → s + 1 + j ≡ s + suc j
next_byte s j = omega arith

pub first_byte : (s : ℕ) → s + 0 ≡ s
first_byte s = omega arith

pub IsString-tail : (m : Memory) (s n : ℕ) → IsString m s (suc n) → IsString m (s + 1) n
IsString-tail m s n h = record {
  ends = ap m (next_byte s n) ∙ h.ends;
  goes_on = λ j k e. h.goes_on (suc j) (omega arith) (sym (ap m (next_byte s j)) ∙ e);
}

pub IsString-head : (m : Memory) (s n : ℕ) → IsString m s (suc n) → m s ≢ 0
IsString-head m s n h e = h.goes_on 0 (omega arith) (ap m (first_byte s) ∙ e)

-- With fuel above its length, `text_end` finds the zero behind a string.
text_end-IsString :
    (fuel s n : ℕ) (m : Memory) → IsString m s n → n < fuel → text_end fuel s m ≡ some (s + n)
unfolding text_end
text_end-IsString zero s n m h room = absurd (omega arith)
text_end-IsString (suc fuel) s zero m h room =
    let e : (m s == 0) ≡ true = (==_iff _ _).1 (sym (ap m (first_byte s)) ∙ h.ends) in
    rw (e, first_byte s)
text_end-IsString (suc fuel) s (suc n) m h room =
    let ne = IsString-head m s n h in
    let e : (m s == 0) ≡ false = ground (arith, ne) in
    rw e (
      text_end-IsString fuel (s + 1) n m (IsString-tail m s n h) (omega arith) ∙ rw (next_byte s n))

-- With fuel above its length, `strlen` ends and returns the length of a string.
pub strlen-IsString :
    (fuel s n : ℕ) (m : Memory) → IsString m s n → n < fuel → strlen fuel s m ≡ some n
unfolding strlen
strlen-IsString fuel s n m h room =
    let back : s + n - s ≡ n = omega arith in rw (text_end-IsString fuel s n m h room, back)

-- The strings of one length at two memories that agree on it.
IsString-same :
    (m m' : Memory) (s n : ℕ)
    → ((j : ℕ) → j ≤ n → m' (s + j) ≡ m (s + j))
    → IsString m s n
    → IsString m' s n
IsString-same m m' s n same h = record {
  ends = same n (omega arith) ∙ h.ends;
  goes_on = λ j k e. h.goes_on j k (sym (same j (omega arith)) ∙ e);
}

put_other : (m : Memory) (p v a : ℕ) → a ≢ p → put m p v a ≡ m a
put_other m p v a ne = ground arith

-- A block that starts with the byte written first.
block-cons :
    (dest n v : ℕ) (from : ℕ → ℕ) (m : Memory) (a : ℕ)
    → v ≡ from 0
    → block (dest + 1) n (λ j. from (suc j)) (put m dest v) a ≡ block dest (suc n) from m a
block-cons dest n v from m a head = elim (Bool-cases (a == dest)) [
  | inl e ↦
      let here : a ≡ dest = (==_iff a dest).0 e in
      let start : a - dest ≡ 0 = omega arith in
      let out : (leb (dest + 1) a && ltb a (dest + 1 + n)) ≡ false = ground arith in
      let inside : (leb dest a && ltb a (dest + suc n)) ≡ true = ground arith in
      rw (out, inside, e, start, head)
  | inr e ↦ elim (Bool-cases (leb (dest + 1) a && ltb a (dest + 1 + n))) [
    | inl k ↦
        let inside : (leb dest a && ltb a (dest + suc n)) ≡ true = ground arith in
        let later : suc (a - (dest + 1)) ≡ a - dest = ground arith in rw (k, inside) (ap from later)
    | inr k ↦
        let out : (leb dest a && ltb a (dest + suc n)) ≡ false = ground arith in rw (k, out, e)
  ]
]

block-none : (dest : ℕ) (from : ℕ → ℕ) (m : Memory) (a : ℕ) → block dest 0 from m a ≡ m a
block-none dest from m a = ground arith

block-same :
    (dest n : ℕ) (f g : ℕ → ℕ) (m : Memory) (a : ℕ)
    → ((j : ℕ) → j < n → f j ≡ g j)
    → block dest n f m a ≡ block dest n g m a
block-same dest n f g m a same = elim (Bool-cases (leb dest a && ltb a (dest + n))) [
  | inl e ↦ let inside : a - dest < n = ground arith in rw e (same (a - dest) inside)
  | inr e ↦ rw e
]

-- The string with its zero is copied, as it was before, and nothing else changes.
abbrev pub Copied : (dest src n : ℕ) → Memory → Memory → Type 0
Copied dest src n m m' = (a : ℕ) → m' a ≡ block dest (suc n) (λ j. m (src + j)) m a

-- With fuel above the length of the string, and a destination that has no byte in common with it,
-- `strcpy` ends with the string and its zero copied and nothing else changed.
pub strcpy-Copied :
    (fuel dest src n : ℕ) (m : Memory)
    → IsString m src n
    → (dest + n < src) ⊎ (src + n < dest)
    → n < fuel
    → (m' : Memory) × (strcpy fuel dest src m ≡ some m') × Copied dest src n m m'
unfolding strcpy
strcpy-Copied zero dest src n m h apart room = absurd (omega arith)
strcpy-Copied (suc fuel) dest src zero m h apart room =
    let here : m src ≡ 0 = sym (ap m (first_byte src)) ∙ h.ends in
    let e : (m src == 0) ≡ true = (==_iff _ _).1 here in
    (
      put m dest 0,
      rw e,
      λ a.
          sym (block-none (dest + 1) (λ j. m (src + suc j)) (put m dest 0) a)
          ∙ block-cons dest 0 0 (λ j. m (src + j)) m a (sym h.ends),
    )
strcpy-Copied (suc fuel) dest src (suc n) m h apart room =
    let ne = IsString-head m src n h in
    let e : (m src == 0) ≡ false = ground (arith, ne) in
    let m1 = put m dest (m src) in
    let apart' : (dest + 1 + n < src + 1) ⊎ (src + 1 + n < dest + 1) = grind arith in
    let kept = kept_bytes apart in
    let tail = IsString-same m m1 (src + 1) n kept (IsString-tail m src n h) in
    let (m', r, copied) = strcpy-Copied fuel (dest + 1) (src + 1) n m1 tail apart' (omega arith) in
    (
      m',
      rw e r,
      λ a.
          copied a
          ∙ block-same (dest + 1) (suc n) (λ j. m1 (src + 1 + j)) (λ j. m (src + suc j)) m1 a
              (λ j k. kept j (omega arith) ∙ ap m (next_byte src j))
          ∙ block-cons dest (suc n) (m src) (λ j. m (src + j)) m a (sym (ap m (first_byte src))),
    )
  where
    kept_bytes :
        (dest + suc n < src) ⊎ (src + suc n < dest)
        → (j : ℕ) → j ≤ n
        → put m dest (m src) (src + 1 + j) ≡ m (src + 1 + j)
    kept_bytes apart j k =
        let ne : src + 1 + j ≢ dest = grind arith in put_other m dest (m src) (src + 1 + j) ne

-- With fuel above both lengths, and a source string that has no byte in common with the two strings
-- put together, `strcat` ends: the source and its zero stand behind the first string, and nothing
-- else has changed.
pub strcat-Copied :
    (fuel dest k src n : ℕ) (m : Memory)
    → IsString m dest k
    → IsString m src n
    → (dest + k + n < src) ⊎ (src + n < dest)
    → k < fuel
    → n < fuel
    → (m' : Memory) × (strcat fuel dest src m ≡ some m') × Copied (dest + k) src n m m'
unfolding strcat
strcat-Copied fuel dest k src n m first second apart room room' =
    let apart' : (dest + k + n < src) ⊎ (src + n < dest + k) = grind arith in
    let (m', r, copied) = strcpy-Copied fuel (dest + k) src n m second apart' room' in
    (m', rw (strlen-IsString fuel dest k m first room) r, copied)
