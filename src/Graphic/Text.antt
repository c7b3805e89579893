-- ===== src/Graphic/Text.antt =====
-- Text and animations of libs/libk/graphic.c. `none` is an access behind `offbuffer`, an access in
-- front of `font`, or a division by zero.
use project_k.Base.{
  ℕ, zero, suc, ◌+◌, ◌-◌, ◌*◌, ◌%◌, ◌^◌, ltb, leb, ◌==◌, ◌&&◌, ◌||◌, not, if◌then◌else◌, List, [],
  ◌∷◌, Option, none, some, u8, u32, get_or, has_bit,
}
use project_k.Base.Options.{◌>>=◌}
use project_k.Graphic.{Pixels, fb_size, graphic_width, Image, draw_image_alpha}
use project_k.Graphic.Glyphs.{font_low}
use project_k.Graphic.Symbols.{font_high}

-- `font`, in its two halves.
unfoldable pub font : (k : ℕ) → ℕ
font k = if ltb k 1024 then get_or font_low k 0 else get_or font_high (k - 1024) 0

-- `offbuffer[pos] = p`.
unfoldable pub write_at : (pos p : ℕ) → Pixels → Option Pixels
write_at pos p buf = if ltb pos fb_size then some (λ k. if k == pos then p else buf k) else none

-- The `bg` for no background, and the `char` -1.
abbrev pub transparent : ℕ
transparent = 2 ^ 32 - 1

-- The body of the innermost loop: the pixel `j` of the row `i` of a character below 128.
unfoldable pub text_pixel : (c strp i j x y fg bg : ℕ) → Pixels → Option Pixels
text_pixel c strp i j x y fg bg buf =
    let p = u8 (if has_bit (font (c * 8 + i)) (7 - j) then fg else bg) in
    let pos = u32 ((y + i) * graphic_width + (strp * 8 + x) + j) in
    if not (bg == transparent && p == 0xFF) then write_at pos p buf else some buf

-- The loops, after `n` rounds.
unfoldable pub text_row : (n c strp i x y fg bg : ℕ) → Pixels → Option Pixels
text_row zero c strp i x y fg bg buf = some buf
text_row (suc n) c strp i x y fg bg buf =
    text_row n c strp i x y fg bg buf >>= text_pixel c strp i n x y fg bg

unfoldable pub text_rows : (n c strp x y fg bg : ℕ) → Pixels → Option Pixels
text_rows zero c strp x y fg bg buf = some buf
text_rows (suc n) c strp x y fg bg buf =
    text_rows n c strp x y fg bg buf >>= text_row 8 c strp n x y fg bg

-- The loop over the characters, in front of the zero; a `char` from 128 on is negative.
unfoldable pub text_loop : (s : List ℕ) → (strp x y fg bg : ℕ) → Pixels → Option Pixels
text_loop [] strp x y fg bg buf = some buf
text_loop (c ∷ s) strp x y fg bg buf =
    (if ltb c 128 then text_rows 8 c strp x y fg bg buf else none)
    >>= text_loop s (strp + 1) x y fg bg

unfoldable pub draw_text : (s : List ℕ) → (x y fg bg : ℕ) → Pixels → Option Pixels
draw_text s x y fg bg buf = text_loop s 0 x y fg bg buf

pub record Anim : Type 0 where
  pub nr_img : ℕ
  pub current_img : ℕ
  pub delay : ℕ
  pub jiffies : ℕ
  pub imgs : ℕ → Image

unfoldable pub next_image : (jiffies : ℕ) → Anim → Option Anim
next_image jiffies anim =
    if leb (u32 (anim.jiffies + anim.delay)) jiffies || ltb jiffies anim.jiffies
    then (if anim.nr_img == 0
        then none
        else some
            (record anim { jiffies = jiffies; current_img = (anim.current_img + 1) % anim.nr_img }))
    else some anim

unfoldable pub draw_anim : Anim → (x y jiffies : ℕ) → Pixels → Option (Anim × Pixels)
draw_anim anim x y jiffies buf = next_image jiffies anim >>= λ anim.
    some (anim, draw_image_alpha (anim.imgs anim.current_img) x y 0 buf)
