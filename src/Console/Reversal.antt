-- ===== src/Console/Reversal.antt =====
-- The reversal in place that `itoa` ends with.
use project_k.Base.{
  ℕ, zero, suc, ◌+◌, ◌-◌, ◌<◌, ◌≤◌, ◌≡◌, ap, ◌∙◌, arith, ltb, leb, ◌&&◌, true, false, if◌then◌else◌,
  inl, inr, Bool-cases, some,
}
use project_k.Console.{Cells, put}
use project_k.Console.Format.{reverse_loop}

swap_mirror :
    (p1 p2 : ℕ) (buf : Cells) (j : ℕ)
    → ltb p1 p2 ≡ true
    → (let swapped = put (put buf p1 (buf p2)) p2 (buf p1) in
        if leb (p1 + 1) j && leb j (p2 - 1) then swapped (p1 + 1 + (p2 - 1) - j) else swapped j)
      ≡ (if leb p1 j && leb j p2 then buf (p1 + p2 - j) else buf j)
swap_mirror p1 p2 buf j e = ground arith

alone :
    (p1 p2 : ℕ) (buf : Cells) (j : ℕ)
    → ltb p1 p2 ≡ false
    → buf j ≡ (if leb p1 j && leb j p2 then buf (p1 + p2 - j) else buf j)
alone p1 p2 buf j e = elim (Bool-cases (leb p1 j && leb j p2)) [
  | inl inside ↦ let same : j ≡ p1 + p2 - j = ground arith in rw inside (ap buf same)
  | inr outside ↦ rw outside
]

-- With fuel above half the length, the loop ends with the buffer from `p1` to `p2` turned around.
pub reverse_loop-mirror :
    (fuel p1 p2 : ℕ) (buf : Cells)
    → p1 ≤ p2 + 1
    → p2 + 1 < p1 + fuel + fuel
    → (buf' : Cells) × (reverse_loop fuel p1 p2 buf ≡ some buf')
      × ((j : ℕ) → buf' j ≡ (if leb p1 j && leb j p2 then buf (p1 + p2 - j) else buf j))
unfolding reverse_loop
reverse_loop-mirror zero p1 p2 buf order enough = absurd (omega arith)
reverse_loop-mirror (suc fuel) p1 p2 buf order enough = elim (Bool-cases (ltb p1 p2)) [
  | inl e ↦
      let order' : p1 + 1 ≤ p2 - 1 + 1 = ground arith in
      let enough' : p2 - 1 + 1 < p1 + 1 + fuel + fuel = ground arith in
      let swapped = put (put buf p1 (buf p2)) p2 (buf p1) in
      let (buf', r, mirror) = reverse_loop-mirror fuel (p1 + 1) (p2 - 1) swapped order' enough' in
      (buf', rw e r, λ j. mirror j ∙ swap_mirror p1 p2 buf j e)
  | inr e ↦ (buf, rw e, λ j. alone p1 p2 buf j e)
]
