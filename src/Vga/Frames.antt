-- ===== src/Vga/Frames.antt =====
-- Rectangles inside the screen.
use project_k.Base.{
  ℕ, zero, suc, ◌+◌, ◌<◌, ◌≤◌, ◌≡◌, refl, ap₂, ◌∙◌, arith, Bool, ◌&&◌, ◌||◌, leb, ltb, ◌==◌, Option,
  some, u16, inl, inr,
}
use project_k.Vga.Draw.{Pixels, ◌>>=◌, draw_line, draw_rect, fill_rows, fill_rect}
use project_k.Vga.Lines.{Painted, within, draw_line-Painted}

>>=-some :
    (o : Option Pixels) (f : Pixels → Option Pixels) (m m' : Pixels)
    → o ≡ some m
    → f m ≡ some m'
    → (o >>= f) ≡ some m'
>>=-some o f m m' e h = rw e h

abbrev pub on_frame : (x y width height px py : ℕ) → Bool
on_frame x y width height px py =
    within x y (x + width) (y + height) px py
    && (px == x || px == x + width || py == y || py == y + height)

module _ (x y width height color : ℕ) (right : x + width < 320) (low : y + height < 200)
    (fits : color < 256) where
  lines : Pixels → Option Pixels
  lines mem =
      draw_line x y (x + width) y color mem
      >>= draw_line x y x (y + height) color
      >>= draw_line (x + width) y (x + width) (y + height) color
      >>= draw_line x (y + height) (x + width) (y + height) color

  draw_rect-lines : (mem : Pixels) → draw_rect x y width height color mem ≡ lines mem
  unfolding draw_rect lines
  draw_rect-lines mem =
      let r : u16 (x + width) ≡ x + width = omega arith in
      let b : u16 (y + height) ≡ y + height = omega arith in rw (r, b)

  -- `VGA_graphics_draw_rect` inside the screen ends and paints exactly the pixels of the frame.
  pub draw_rect-Painted :
      (mem : Pixels)
      → (mem' : Pixels) × (draw_rect x y width height color mem ≡ some mem')
        × Painted (on_frame x y width height) color mem mem'
  unfolding lines
  draw_rect-Painted m0 =
      let X = x + width in
      let Y = y + height in
      let (m1, e1, p1) =
        draw_line-Painted x y X y color m0 (omega arith) (omega arith) right (omega arith)
          (inr refl) fits in
      let (m2, e2, p2) =
        draw_line-Painted x y x Y color m1 (omega arith) (omega arith) (omega arith) low (inl refl)
          fits in
      let (m3, e3, p3) =
        draw_line-Painted X y X Y color m2 (omega arith) (omega arith) right low (inl refl) fits in
      let (m4, e4, p4) =
        draw_line-Painted x Y X Y color m3 (omega arith) (omega arith) right low (inr refl) fits in
      (
        m4,
        draw_rect-lines m0 ∙ >>=-some _ _ _ _ (>>=-some _ _ _ _ (>>=-some _ _ _ _ e1 e2) e3) e4,
        λ px py hx hy.
            ground (arith, p1 px py hx hy, p2 px py hx hy, p3 px py hx hy, p4 px py hx hy),
      )

  -- The rows drawn by the loop of `fill_rect`, after `n` rounds.
  fill_rows-Painted :
      (n : ℕ) (mem : Pixels)
      → n ≤ height
      → (mem' : Pixels) × (fill_rows n x y width color mem ≡ some mem')
        × Painted
            (λ px py. leb x px && leb px (x + width) && leb y py && ltb py (y + n))
            color
            mem
            mem'
  unfolding fill_rows
  fill_rows-Painted zero mem h = (mem, refl, λ px py hx hy. ground arith)
  fill_rows-Painted (suc n) mem h =
      let r : u16 (x + width) ≡ x + width = omega arith in
      let b : u16 (y + n) ≡ y + n = omega arith in
      let (m1, e1, p1) = fill_rows-Painted n mem (omega arith) in
      let (m2, e2, p2) =
        draw_line-Painted x (y + n) (x + width) (y + n) color m1 (omega arith) (omega arith) right
          (omega arith) (inr refl) fits in
      (
        m2,
        >>=-some _ _ m1 m2 e1 (ap₂ (λ (c d : ℕ). draw_line x d c d color m1) r b ∙ e2),
        λ px py hx hy. ground (arith, p1 px py hx hy, p2 px py hx hy),
      )

  -- `VGA_graphics_fill_rect` inside the screen ends and paints exactly the rectangle, with its right
  -- column and bottom row: `width + 1` by `height + 1` pixels.
  pub fill_rect-Painted :
      (mem : Pixels)
      → (mem' : Pixels) × (fill_rect x y width height color mem ≡ some mem')
        × Painted (within x y (x + width) (y + height)) color mem mem'
  unfolding fill_rect
  fill_rect-Painted mem =
      let (m1, e1, p1) = draw_rect-Painted mem in
      let (m2, e2, p2) = fill_rows-Painted height m1 (omega arith) in
      (m2, >>=-some _ _ m1 m2 e1 e2, λ px py hx hy. ground (arith, p1 px py hx hy, p2 px py hx hy))
