-- ===== src/Vga/Draw.antt =====
-- The drawing functions of k/libvga.c for the mode of 320 by 200 pixels. `vga_buffer` is video
-- memory, a function of the pixel's number. A loop over `u16` runs on fuel; `none` is a loop that
-- the fuel does not end.
use project_k.Base.{
  ℕ, zero, suc, ◌+◌, ◌*◌, ltb, leb, ◌==◌, if◌then◌else◌, Option, none, some, u8, u16, u32,
}

abbrev pub Pixels : Type 0
Pixels = ℕ → ℕ

abbrev pub graphic_total_items : ℕ
graphic_total_items = 64000

-- The loop of `VGA_graphics_fill_color`, after `n` rounds.
unfoldable pub fill_loop : ℕ → ℕ → Pixels → Pixels
fill_loop zero color mem = mem
fill_loop (suc n) color mem = λ j. if j == n then color else fill_loop n color mem j

unfoldable pub fill_color : ℕ → Pixels → Pixels
fill_color color mem = fill_loop graphic_total_items (u8 color) mem

unfoldable pub put_pixel : (x y color : ℕ) → Pixels → Pixels
put_pixel x y color mem =
    let index = u32 (320 * u16 y + u16 x) in
    if ltb index graphic_total_items then (λ j. if j == index then u8 color else mem j) else mem

-- 2^16 rounds and one more reach every value of a `u16` that a loop can end at.
abbrev pub loop_fuel : ℕ
loop_fuel = 65537

-- `for (u16 i = x1; i <= x2; i++) put_pixel(i, y, color)`, and the same down a column.
unfoldable pub row_loop : ℕ → (i x2 y color : ℕ) → Pixels → Option Pixels
row_loop zero i x2 y color mem = none
row_loop (suc k) i x2 y color mem =
    let rest = row_loop k (u16 (i + 1)) x2 y color (put_pixel i y color mem) in
    if leb i x2 then rest else some mem

unfoldable pub column_loop : ℕ → (i y2 x color : ℕ) → Pixels → Option Pixels
column_loop zero i y2 x color mem = none
column_loop (suc k) i y2 x color mem =
    let rest = column_loop k (u16 (i + 1)) y2 x color (put_pixel x i color mem) in
    if leb i y2 then rest else some mem

-- The coordinates are `u16` already.
unfoldable pub draw_line : (x1 y1 x2 y2 color : ℕ) → Pixels → Option Pixels
draw_line x1 y1 x2 y2 color mem =
    if y1 == y2
    then row_loop loop_fuel x1 x2 y1 color mem
    else if x1 == x2
    then column_loop loop_fuel y1 y2 x1 color mem
    else some mem

infixl 5 ◌>>=◌
abbrev pub ◌>>=◌ : Option Pixels → (Pixels → Option Pixels) → Option Pixels
none >>= f = none
some mem >>= f = f mem

unfoldable pub draw_rect : (x y width height color : ℕ) → Pixels → Option Pixels
draw_rect x y width height color mem =
    draw_line x y (u16 (x + width)) y color mem
    >>= draw_line x y x (u16 (y + height)) color
    >>= draw_line (u16 (x + width)) y (u16 (x + width)) (u16 (y + height)) color
    >>= draw_line x (u16 (y + height)) (u16 (x + width)) (u16 (y + height)) color

-- The loop of `VGA_graphics_fill_rect`, after `n` rounds.
unfoldable pub fill_rows : ℕ → (x y width color : ℕ) → Pixels → Option Pixels
fill_rows zero x y width color mem = some mem
fill_rows (suc n) x y width color mem =
    fill_rows n x y width color mem
    >>= draw_line x (u16 (y + n)) (u16 (x + width)) (u16 (y + n)) color

unfoldable pub fill_rect : (x y width height color : ℕ) → Pixels → Option Pixels
fill_rect x y width height color mem =
    draw_rect x y width height color mem >>= fill_rows height x y width color
