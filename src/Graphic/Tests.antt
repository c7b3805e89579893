-- ===== src/Graphic/Tests.antt =====
-- Rectangles, lines, text and images at concrete places.
use project_k.Base.{
  ℕ, ◌+◌, ◌*◌, ◌^◌, ◌≡◌, ◌<◌, refl, arith, Bool, true, false, List, [], ◌∷◌, ◌++◌, Option, some,
  take, drop, get_or,
}
use project_k.Graphic.{
  Pixels, Image, draw_line, draw_rect, draw_fillrect, draw_pixel, draw_image, draw_image_alpha,
  image_rows, image_row,
}
use project_k.Graphic.Text.{draw_text, transparent, Anim, next_image}
use project_k.Graphic.Rectangles.{shown, draw_rect-shown, draw_fillrect-shown}
use project_k.Graphic.Slopes.{straight, plotted, draw_line-straight}
use project_k.Graphic.Bitmaps.{
  Bitmap, image, trap, bmp_offset, bmp_width, bmp_height, bmp_size, padding, load_image,
  load_pixels,
}
use project_k.Graphic.Loading.{load_image-pixels}
use project_k.Graphic.Letters.{ink, draw_text-invisible, draw_text-shown}

abbrev dark : Pixels
dark k = 0

-- The corner at the lower right is left out.
draw_rect-shown_test : shown (draw_rect 10 20 30 40 7 dark) 30 40 ≡ 0
draw_rect-shown_test = draw_rect-shown 30 40 (omega arith) (omega arith) 10 20 30 40 7 dark

draw_fillrect-shown_example : shown (draw_fillrect 10 20 30 400 7 9 dark) 29 199 ≡ 9
draw_fillrect-shown_example =
    draw_fillrect-shown 29 199 (omega arith) (omega arith) 10 20 30 400 7 9 dark (omega arith)
      (omega arith)

draw_line-straight_example : draw_line 9 3 2 6 7 dark ≡ straight false 9 3 2 6 7 dark
draw_line-straight_example =
    draw_line-straight 9 3 2 6 7 dark (omega arith) (omega arith) (omega arith) (omega arith)
      (omega arith) (omega arith)

-- The line that rises by three rows on seven columns.
line_run : shown (straight false 9 3 2 6 7 dark) 5 5 ≡ 7
unfolding plotted draw_pixel
line_run = refl

draw_text-invisible_test : draw_text (b'A' ∷ []) 0 0 255 transparent dark ≡ some dark
draw_text-invisible_test = draw_text-invisible 0 0 255 refl (b'A' ∷ []) dark (omega arith, tt)

draw_text-shown_example :
    (buf' : Pixels) × (draw_text (b'A' ∷ b'B' ∷ []) 100 60 5 3 dark ≡ some buf')
    × (shown buf' 108 61 ≡ ink b'B' 1 0 5 3)
draw_text-shown_example =
    draw_text-shown 100 60 5 3 (omega arith) 108 61 (omega arith) (omega arith) (b'A' ∷ b'B' ∷ [])
      dark (omega arith, (omega arith, tt)) (omega arith) (omega arith)

abbrev dots : Image
dots = record { width = 2; height = 2; pixels = λ i j. i * 2 + j + 1 }

-- The rows of an image stand upside down, the first of them below the place that was asked for.
image_run : shown (draw_image dots 10 20 dark) 11 22 ≡ 2
unfolding draw_image draw_image_alpha image_rows image_row draw_pixel
image_run = refl

abbrev film : Anim
film = record { nr_img = 3; current_img = 2; delay = 10; jiffies = 5; imgs = λ k. dots }

next_run : next_image 15 film ≡ some (record film { current_img = 0; jiffies = 15 })
unfolding next_image
next_run = refl

-- A bitmap of one row with two pixels, and two bytes of padding behind them.
abbrev header : List ℕ
header =
    b'B' ∷ b'M' ∷ 58 ∷ 0 ∷ 0 ∷ 0 ∷ 0 ∷ 0 ∷ 0 ∷ 0 ∷ 54 ∷ 0 ∷ 0 ∷ 0 ∷ 40 ∷ 0 ∷ 0 ∷ 0 ∷ 2 ∷ 0 ∷ 0 ∷ 0
    ∷ 1 ∷ 0 ∷ 0 ∷ 0 ∷ 1 ∷ 0 ∷ 8 ∷ 0 ∷ 0 ∷ 0 ∷ 0 ∷ 0 ∷ 4 ∷ 0 ∷ 0 ∷ 0 ∷ 0 ∷ 0 ∷ 0 ∷ 0 ∷ 0 ∷ 0 ∷ 0 ∷ 0
    ∷ 0 ∷ 0 ∷ 0 ∷ 0 ∷ 0 ∷ 0 ∷ 0 ∷ 0 ∷ []

abbrev two_pixels : List ℕ
two_pixels = header ++ (7 ∷ 9 ∷ 0 ∷ 0 ∷ [])

-- The state of an open file is the place in it.
abbrev read_bytes : (count : ℕ) → ℕ → Option (List ℕ × ℕ)
read_bytes n k = some (take n (drop k two_pixels), k + n)

abbrev seek : (offset : ℕ) → (from_here : Bool) → ℕ → Option ℕ
seek o true k = some (k + o)
seek o false k = some o

load_image-pixels_example :
    (b : Bitmap) × (load_image read_bytes seek (some 0) (λ n. true) ≡ image b)
    × (b.width ≡ bmp_width header)
    × (b.height ≡ bmp_height header)
    × ((i j : ℕ)
        → i < b.height
        → j < b.width
        → get_or (get_or b.rows i []) j 0
          ≡ get_or two_pixels (bmp_offset header + i * (b.width + padding header) + j) 0)
    × ((p : ℕ)
        → bmp_size header < 2 ^ 32
        → bmp_size header ≡ b.height * (b.width + p)
        → padding header ≡ p)
load_image-pixels_example =
    load_image-pixels read_bytes seek two_pixels (λ k. k) (λ n k h. (k + n, refl, refl))
      (λ o k h. (o, refl, refl)) (λ o k h. (k + o, refl, refl)) 0 (λ n. true) header refl
      (omega arith) refl refl (λ n. refl) (omega arith) (omega arith) (omega arith)

padding_test : padding header ≡ 2
padding_test = refl

-- A bitmap without rows ends in a division by 0.
flat_test : load_pixels read_bytes seek (take 18 header) 54 ≡ trap
unfolding load_pixels
flat_test = refl
