-- ===== src/Vga/Lines.antt =====
-- Lines: what each loop leaves in video memory, and where it does not end.
use project_k.Base.{
  ℕ, zero, suc, ◌+◌, ◌*◌, ◌^◌, ◌<◌, ◌≤◌, ◌≡◌, refl, arith, Bool, true, ◌&&◌, leb, ◌==◌,
  if◌then◌else◌, none, some, u16, ◌⊎◌, inl, inr, Bool-cases, ◌∙◌, leb→le, ==_iff,
}
use project_k.Vga.Draw.{Pixels, put_pixel, row_loop, column_loop, draw_line, loop_fuel}

-- The pixel in column `x` and row `y` of the screen.
abbrev pub at : ℕ → ℕ → ℕ
at x y = 320 * y + x

-- The pixels of the screen where `inside` holds have the color, and the others are as before.
abbrev pub Painted : (ℕ → ℕ → Bool) → ℕ → Pixels → Pixels → Type 0
Painted inside color mem mem' =
    (x y : ℕ) → x < 320 → y < 200 → mem' (at x y) ≡ (if inside x y then color else mem (at x y))

put_pixel-Painted :
    (px py color : ℕ) (mem : Pixels)
    → px < 320
    → py < 200
    → color < 256
    → Painted (λ x y. x == px && y == py) color mem (put_pixel px py color mem)
unfolding put_pixel
put_pixel-Painted px py color mem h1 h2 h3 x y hx hy = ground arith

module _ (k i end other color : ℕ) (mem : Pixels) (more : leb i end ≡ true) (fits : end < 320) where
  next : u16 (i + 1) ≡ i + 1
  next = omega (arith, leb→le i end more)

  row_loop-suc :
      row_loop (suc k) i end other color mem
      ≡ row_loop k (i + 1) end other color (put_pixel i other color mem)
  unfolding row_loop
  row_loop-suc = rw (more, next)

  column_loop-suc :
      column_loop (suc k) i end other color mem
      ≡ column_loop k (i + 1) end other color (put_pixel other i color mem)
  unfolding column_loop
  column_loop-suc = rw (more, next)

-- A row from `i` to `x2`: one round for each pixel, and one to end.
row_loop-Painted :
    (k i x2 y color : ℕ) (mem : Pixels)
    → x2 < 320
    → y < 200
    → color < 256
    → i ≤ x2 + 1
    → x2 + 1 < i + k
    → (mem' : Pixels) × (row_loop k i x2 y color mem ≡ some mem')
      × Painted (λ x y'. leb i x && leb x x2 && y' == y) color mem mem'
unfolding row_loop
row_loop-Painted zero i x2 y color mem h1 h2 h3 h4 h5 = absurd (omega arith)
row_loop-Painted (suc k) i x2 y color mem h1 h2 h3 h4 h5 = elim (Bool-cases (leb i x2)) [
  | inl e ↦
      let e' : i ≤ x2 = leb→le i x2 e in
      let (mem', r, p) =
        row_loop-Painted k (i + 1) x2 y color (put_pixel i y color mem) h1 h2 h3 (omega arith)
          (omega arith) in
      (
        mem',
        row_loop-suc k i x2 y color mem e h1 ∙ r,
        λ x y' hx hy.
            ground
              (arith, p x y' hx hy, put_pixel-Painted i y color mem (omega arith) h2 h3 x y' hx hy),
      )
  | inr e ↦ (mem, rw e, λ x y' hx hy. ground arith)
]

column_loop-Painted :
    (k i y2 x color : ℕ) (mem : Pixels)
    → y2 < 200
    → x < 320
    → color < 256
    → i ≤ y2 + 1
    → y2 + 1 < i + k
    → (mem' : Pixels) × (column_loop k i y2 x color mem ≡ some mem')
      × Painted (λ x' y. x' == x && leb i y && leb y y2) color mem mem'
unfolding column_loop
column_loop-Painted zero i y2 x color mem h1 h2 h3 h4 h5 = absurd (omega arith)
column_loop-Painted (suc k) i y2 x color mem h1 h2 h3 h4 h5 = elim (Bool-cases (leb i y2)) [
  | inl e ↦
      let e' : i ≤ y2 = leb→le i y2 e in
      let (mem', r, p) =
        column_loop-Painted k (i + 1) y2 x color (put_pixel x i color mem) h1 h2 h3 (omega arith)
          (omega arith) in
      (
        mem',
        column_loop-suc k i y2 x color mem e (omega arith) ∙ r,
        λ x' y hx hy.
            ground
              (arith, p x' y hx hy, put_pixel-Painted x i color mem h2 (omega arith) h3 x' y hx hy),
      )
  | inr e ↦ (mem, rw e, λ x' y hx hy. ground arith)
]

-- The points from (x1, y1) to (x2, y2), both included.
abbrev pub within : (x1 y1 x2 y2 x y : ℕ) → Bool
within x1 y1 x2 y2 x y = leb x1 x && leb x x2 && leb y1 y && leb y y2

-- A line along a row or a column, drawn from its lower to its higher end inside the screen, ends
-- and paints exactly the pixels between its ends, both included, whatever the memory outside the
-- screen.
pub draw_line-Painted :
    (x1 y1 x2 y2 color : ℕ) (mem : Pixels)
    → x1 ≤ x2
    → y1 ≤ y2
    → x2 < 320
    → y2 < 200
    → (x1 ≡ x2) ⊎ (y1 ≡ y2)
    → color < 256
    → (mem' : Pixels) × (draw_line x1 y1 x2 y2 color mem ≡ some mem')
      × Painted (within x1 y1 x2 y2) color mem mem'
unfolding draw_line
draw_line-Painted x1 y1 x2 y2 color mem hx hy h1 h2 straight h3 = elim (Bool-cases (y1 == y2)) [
  | inl e ↦
      let (mem', r, p) =
        row_loop-Painted loop_fuel x1 x2 y1 color mem h1 (omega arith) h3 (omega arith)
          (omega arith) in
      (mem', rw e r, λ x y hx' hy'. ground (arith, p x y hx' hy'))
  | inr e ↦
      let same : x1 ≡ x2 = ground arith in
      let (mem', r, p) =
        column_loop-Painted loop_fuel y1 y2 x1 color mem h2 (omega arith) h3 (omega arith)
          (omega arith) in
      (mem', rw (e, (==_iff x1 x2).1 same) r, λ x y hx' hy'. ground (arith, p x y hx' hy'))
]

-- A row that is to end in the last column that a `u16` can name never ends, from whichever column
-- it starts and however many rounds it is given.
pub row_loop-endless :
    (k i y color : ℕ) (mem : Pixels) → i < 2 ^ 16 → row_loop k i 65535 y color mem ≡ none
unfolding row_loop
row_loop-endless zero i y color mem h = refl
row_loop-endless (suc k) i y color mem h =
    ground (arith, row_loop-endless k (u16 (i + 1)) y color (put_pixel i y color mem) (omega arith))
