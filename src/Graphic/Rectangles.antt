-- ===== src/Graphic/Rectangles.antt =====
-- The pixels of the rectangles.
use project_k.Base.{
  ℕ, zero, suc, ◌+◌, ◌*◌, ◌^◌, ◌<◌, ◌≡◌, refl, ap, ◌∙◌, arith, ltb, leb, ◌==◌, ◌&&◌, ◌||◌, Bool,
  true, false, if◌then◌else◌, u8, u32,
}
use project_k.Graphic.{
  Pixels, graphic_width, graphic_height, draw_pixel, pixels_down, rounds, across, along, draw_rect,
  inside, draw_fillrect,
}

-- The pixel of a column and a row of the screen.
abbrev pub shown : Pixels → (px py : ℕ) → ℕ
shown buf px py = buf (py * 320 + px)

-- `px` is one of `n` columns from `x` on.
abbrev pub among : (px x n : ℕ) → Bool
among px x n = leb x px && ltb px (x + n)

-- A clipped loop reaches what is in its range.
among-rounds :
    (p from to limit : ℕ)
    → p < limit
    → among p from (rounds from to limit) ≡ (leb from p && ltb p to)
among-rounds p from to limit h = ground arith

if_or : (a b : Bool) (u v : ℕ) → (if a then u else if b then u else v) ≡ (if b || a then u else v)
if_or true true u v = refl
if_or true false u v = refl
if_or false true u v = refl
if_or false false u v = refl

module _ (px py : ℕ) (column : px < 320) (row : py < 200) where
  pub draw_pixel-shown :
      (x y color : ℕ) (buf : Pixels)
      → shown (draw_pixel x y color buf) px py
        ≡ (if px == x && py == y then u8 color else shown buf px py)
  unfolding draw_pixel
  draw_pixel-shown x y color buf = ground arith

  pixels_down-shown :
      (n x y color : ℕ) (buf : Pixels)
      → shown (pixels_down n x y color buf) px py
        ≡ (if px == x && among py y n then u8 color else shown buf px py)
  unfolding pixels_down
  pixels_down-shown zero x y color buf = ground arith
  pixels_down-shown (suc n) x y color buf = ground (
    arith,
    draw_pixel-shown x (y + n) color (pixels_down n x y color buf),
    pixels_down-shown n x y color buf,
  )

  across-shown :
      (n x1 y1 y2 color : ℕ) (buf : Pixels)
      → shown (across n x1 y1 y2 color buf) px py
        ≡ (if among px x1 n && (py == y1 || py == y2) then u8 color else shown buf px py)
  unfolding across
  across-shown zero x1 y1 y2 color buf = ground arith
  across-shown (suc n) x1 y1 y2 color buf = ground (
    arith,
    draw_pixel-shown (x1 + n) y2 color (draw_pixel (x1 + n) y1 color (across n x1 y1 y2 color buf)),
    draw_pixel-shown (x1 + n) y1 color (across n x1 y1 y2 color buf),
    across-shown n x1 y1 y2 color buf,
  )

  along-shown :
      (n x1 x2 y1 color : ℕ) (buf : Pixels)
      → shown (along n x1 x2 y1 color buf) px py
        ≡ (if among py y1 n && (px == x1 || px == x2) then u8 color else shown buf px py)
  unfolding along
  along-shown zero x1 x2 y1 color buf = ground arith
  along-shown (suc n) x1 x2 y1 color buf = ground (
    arith,
    draw_pixel-shown x2 (y1 + n) color (draw_pixel x1 (y1 + n) color (along n x1 x2 y1 color buf)),
    draw_pixel-shown x1 (y1 + n) color (along n x1 x2 y1 color buf),
    along-shown n x1 x2 y1 color buf,
  )

  inside-shown :
      (n x y height interior : ℕ) (buf : Pixels)
      → shown (inside n x y height interior buf) px py
        ≡ (if among px x n && among py y height then u8 interior else shown buf px py)
  unfolding inside
  inside-shown zero x y height interior buf = ground arith
  inside-shown (suc n) x y height interior buf = ground (
    arith,
    pixels_down-shown height (x + n) y interior (inside n x y height interior buf),
    inside-shown n x y height interior buf,
  )

  -- On the screen, `draw_rect` colors the pixels of the columns from x1 to x2 - 1 on the rows y1 and y2,
  -- and those of the rows from y1 to y2 - 1 in the columns x1 and x2, clipped to the screen, and no
  -- other pixel. So the corner (x2, y2) is not colored, unless it lies on another side.
  pub draw_rect-shown :
      (x1 y1 x2 y2 color : ℕ) (buf : Pixels)
      → shown (draw_rect x1 y1 x2 y2 color buf) px py ≡ (
          if leb x1 px && ltb px x2 && (py == y1 || py == y2)
            || leb y1 py && ltb py y2 && (px == x1 || px == x2)
          then u8 color
          else shown buf px py)
  unfolding draw_rect
  draw_rect-shown x1 y1 x2 y2 color buf =
      along-shown (rounds y1 y2 graphic_height) x1 x2 y1 color
        (across (rounds x1 x2 graphic_width) x1 y1 y2 color buf)
      ∙ rw
          (
            across-shown (rounds x1 x2 graphic_width) x1 y1 y2 color buf,
            among-rounds px x1 x2 320 column,
            among-rounds py y1 y2 200 row,
          )
          (if_or (leb y1 py && ltb py y2 && (px == x1 || px == x2))
            (leb x1 px && ltb px x2 && (py == y1 || py == y2)) (u8 color) (shown buf px py))

  -- On the screen, `draw_fillrect` colors the four sides of the rectangle with all corners, and gives
  -- the pixels strictly inside the color of the interior, clipped to the screen; every other pixel is
  -- as it was. The condition is that the first column and the first row are not 2^32 - 1.
  pub draw_fillrect-shown :
      (x1 y1 x2 y2 color interior : ℕ) (buf : Pixels)
      → x1 + 1 < 2 ^ 32
      → y1 + 1 < 2 ^ 32
      → shown (draw_fillrect x1 y1 x2 y2 color interior buf) px py ≡ (
          if leb (x1 + 1) px && ltb px x2 && (leb (y1 + 1) py && ltb py y2)
          then u8 interior
          else if leb x1 px && ltb px x2 && (py == y1 || py == y2)
              || leb y1 py && ltb py (y2 + 1) && (px == x1 || px == x2)
          then u8 color
          else shown buf px py)
  unfolding draw_fillrect
  draw_fillrect-shown x1 y1 x2 y2 color interior buf h k =
      let cx : u32 (x1 + 1) ≡ x1 + 1 = omega arith in
      let cy : u32 (y1 + 1) ≡ y1 + 1 = omega arith in
      let sides = across (rounds x1 x2 graphic_width) x1 y1 y2 color buf in
      let frame = along (rounds y1 (y2 + 1) graphic_height) x1 x2 y1 color sides in
      rw (cx, cy)
        (inside-shown (rounds (x1 + 1) x2 graphic_width) (x1 + 1) (y1 + 1)
            (rounds (y1 + 1) y2 graphic_height) interior frame
          ∙ rw
              (
                along-shown (rounds y1 (y2 + 1) graphic_height) x1 x2 y1 color sides,
                across-shown (rounds x1 x2 graphic_width) x1 y1 y2 color buf,
                among-rounds px x1 x2 320 column,
                among-rounds px (x1 + 1) x2 320 column,
                among-rounds py y1 (y2 + 1) 200 row,
                among-rounds py (y1 + 1) y2 200 row,
              )
              (ap
                (λ (t : ℕ).
                  if leb (x1 + 1) px && ltb px x2 && (leb (y1 + 1) py && ltb py y2)
                  then u8 interior
                  else t)
                (if_or (leb y1 py && ltb py (y2 + 1) && (px == x1 || px == x2))
                  (leb x1 px && ltb px x2 && (py == y1 || py == y2)) (u8 color) (shown buf px py))))
