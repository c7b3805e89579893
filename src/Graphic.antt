-- ===== src/Graphic.antt =====
-- The drawing library of the games, libs/libk/graphic.c: pixels, lines, rectangles, images, text and
-- animations in the buffer behind the screen.
pub mod Glyphs
pub mod Symbols
pub mod Text
pub mod Rectangles
pub mod Slopes
pub mod Letters
pub mod Bitmaps
pub mod Loading
mod Tests
use project_k.Base.{
  ℕ, zero, suc, ◌+◌, ◌-◌, ◌*◌, ◌/◌, ◌%◌, ◌^◌, ltb, leb, ◌==◌, ◌&&◌, ◌||◌, not, Bool, true, false,
  if◌then◌else◌, List, [], ◌∷◌, ◌++◌, Option, none, some, u8, u32, get_or, length, has_bit,
}
use project_k.Base.Options.{◌>>=◌}
use project_k.Base.Signed.{add32, sub32, lt32}
use project_k.Graphic.Glyphs.{font_low}
use project_k.Graphic.Symbols.{font_high}

-- `offbuffer`, a byte for each pixel.
abbrev pub Pixels : Type 0
Pixels = ℕ → ℕ

abbrev pub graphic_width : ℕ
graphic_width = 320

abbrev pub graphic_height : ℕ
graphic_height = 200

abbrev pub fb_size : ℕ
fb_size = 64000

unfoldable pub draw_clear : (color : ℕ) → Pixels → Pixels
draw_clear color buf k = if ltb k fb_size then u8 color else buf k

unfoldable pub draw_begin : Pixels → Pixels
draw_begin buf = draw_clear 0 buf

unfoldable pub draw_pixel : (x y color : ℕ) → Pixels → Pixels
draw_pixel x y color buf =
    if leb graphic_width x then buf else if leb graphic_height y then buf else λ k.
    if k == y * graphic_width + x then u8 color else buf k

-- A loop over the pixels `(x + j, y)`, or `(x, y + j)`, after `n` rounds.
unfoldable pub pixels_right : (n x y color : ℕ) → Pixels → Pixels
pixels_right zero x y color buf = buf
pixels_right (suc n) x y color buf = draw_pixel (x + n) y color (pixels_right n x y color buf)

unfoldable pub pixels_down : (n x y color : ℕ) → Pixels → Pixels
pixels_down zero x y color buf = buf
pixels_down (suc n) x y color buf = draw_pixel x (y + n) color (pixels_down n x y color buf)

abbrev pub distance : ℕ → ℕ → ℕ
distance a b = if ltb a b then b - a else a - b

-- The last loop of `draw_line`, from `x` on with `left` rounds to go. `y` and `error` are signed, in
-- 32 bits.
unfoldable pub slope_loop :
    (left x : ℕ) → (steep down : Bool) → (deltax deltay color y error : ℕ) → Pixels → Pixels
slope_loop zero x steep down deltax deltay color y error buf = buf
slope_loop (suc left) x steep down deltax deltay color y error buf =
    let buf = if steep then draw_pixel y x color buf else draw_pixel x y color buf in
    let error = add32 error deltay in
    let over = lt32 0 error in
    slope_loop left (x + 1) steep down deltax deltay color
      (if over then (if down then add32 y 1 else sub32 y 1) else y)
      (if over then sub32 error deltax else error) buf

-- Behind the exchange of the ends, for `x1 <= x2`.
unfoldable pub slope : (steep : Bool) → (x1 y1 x2 y2 color : ℕ) → Pixels → Pixels
slope steep x1 y1 x2 y2 color buf =
    let deltax = x2 - x1 in
    slope_loop (x2 - x1) x1 steep (ltb y1 y2) deltax (distance y1 y2) color y1
      (sub32 0 (deltax / 2)) buf

-- From left to right.
unfoldable pub ordered : (steep : Bool) → (x1 y1 x2 y2 color : ℕ) → Pixels → Pixels
ordered steep x1 y1 x2 y2 color buf =
    if ltb x2 x1 then slope steep x2 y2 x1 y1 color buf else slope steep x1 y1 x2 y2 color buf

unfoldable pub draw_line : (x1 y1 x2 y2 color : ℕ) → Pixels → Pixels
draw_line x1 y1 x2 y2 color buf =
    if leb graphic_width x1
    then buf
    else if leb graphic_height y1
    then buf
    else if leb graphic_width x2
    then buf
    else if leb graphic_height y2
    then buf
    else if x1 == x2
    then pixels_down (y2 - y1) x1 y1 color buf
    else if y1 == y2
    then pixels_right (x2 - x1) x1 y1 color buf
    else if ltb (distance x1 x2) (distance y1 y2)
    then ordered true y1 x1 y2 x2 color buf
    else ordered false x1 y1 x2 y2 color buf

-- How often `for (i = from; i < to && i < limit; i++)` goes round.
abbrev pub rounds : (from to limit : ℕ) → ℕ
rounds from to limit = (if ltb to limit then to else limit) - from

-- Two sides of a rectangle, of `n` pixels each.
unfoldable pub across : (n x1 y1 y2 color : ℕ) → Pixels → Pixels
across zero x1 y1 y2 color buf = buf
across (suc n) x1 y1 y2 color buf =
    draw_pixel (x1 + n) y2 color (draw_pixel (x1 + n) y1 color (across n x1 y1 y2 color buf))

unfoldable pub along : (n x1 x2 y1 color : ℕ) → Pixels → Pixels
along zero x1 x2 y1 color buf = buf
along (suc n) x1 x2 y1 color buf =
    draw_pixel x2 (y1 + n) color (draw_pixel x1 (y1 + n) color (along n x1 x2 y1 color buf))

unfoldable pub draw_rect : (x1 y1 x2 y2 color : ℕ) → Pixels → Pixels
draw_rect x1 y1 x2 y2 color buf =
    along (rounds y1 y2 graphic_height) x1 x2 y1 color
      (across (rounds x1 x2 graphic_width) x1 y1 y2 color buf)

-- The loop over the columns of the interior, after `n` rounds.
unfoldable pub inside : (n x y height interior : ℕ) → Pixels → Pixels
inside zero x y height interior buf = buf
inside (suc n) x y height interior buf =
    pixels_down height (x + n) y interior (inside n x y height interior buf)

-- `y <= y2` is `y < y2 + 1`.
unfoldable pub draw_fillrect : (x1 y1 x2 y2 color interior : ℕ) → Pixels → Pixels
draw_fillrect x1 y1 x2 y2 color interior buf =
    let buf = across (rounds x1 x2 graphic_width) x1 y1 y2 color buf in
    let buf = along (rounds y1 (y2 + 1) graphic_height) x1 x2 y1 color buf in
    let x = u32 (x1 + 1) in
    let y = u32 (y1 + 1) in
    inside (rounds x x2 graphic_width) x y (rounds y y2 graphic_height) interior buf

pub record Image : Type 0 where
  pub width : ℕ
  pub height : ℕ
  pub pixels : (i j : ℕ) → ℕ

-- The loop over row `i`, after `n` rounds.
unfoldable pub image_row : (n i : ℕ) → Image → (x y alpha : ℕ) → Pixels → Pixels
image_row zero i image x y alpha buf = buf
image_row (suc n) i image x y alpha buf =
    let buf = image_row n i image x y alpha buf in
    let c = image.pixels i n in
    if alpha == 2 ^ 32 - 1 || not (alpha == c)
    then draw_pixel (add32 x n) (sub32 (add32 y image.height) i) c buf
    else buf

unfoldable pub image_rows : (n : ℕ) → Image → (x y alpha : ℕ) → Pixels → Pixels
image_rows zero image x y alpha buf = buf
image_rows (suc n) image x y alpha buf =
    image_row image.width n image x y alpha (image_rows n image x y alpha buf)

unfoldable pub draw_image_alpha : Image → (x y alpha : ℕ) → Pixels → Pixels
draw_image_alpha image x y alpha buf = image_rows image.height image x y alpha buf

unfoldable pub draw_image : Image → (x y : ℕ) → Pixels → Pixels
draw_image image x y buf = draw_image_alpha image x y (2 ^ 32 - 1) buf
