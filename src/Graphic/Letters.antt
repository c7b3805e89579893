-- ===== src/Graphic/Letters.antt =====
-- The pixels of a text.
use project_k.Base.{
  ℕ, zero, suc, ◌+◌, ◌-◌, ◌*◌, ◌/◌, ◌%◌, ◌<◌, ◌≤◌, ◌≡◌, ◌≢◌, refl, ◌∙◌, arith, ltb, leb, ◌==◌, ◌&&◌,
  true, false, Bool-cases, inl, inr, if◌then◌else◌, List, [], ◌∷◌, some, u8, u32, get_or, length,
  has_bit,
}
use project_k.Graphic.{Pixels}
use project_k.Graphic.Rectangles.{shown, among}
use project_k.Graphic.Text.{
  font, write_at, transparent, text_pixel, text_row, text_rows, text_loop, draw_text,
}

-- The characters that `font` is read for.
abbrev pub Ascii : List ℕ → Type 0
Ascii [] = Unit {0}
Ascii (c ∷ s) = (c < 128) × Ascii s

-- White has the number 255 in the palette, which as a `char` is -1, the mark of what is not drawn.
module _ (x y fg : ℕ) (white : fg % 256 ≡ 255) where
  row_invisible :
      (n c strp i : ℕ) (buf : Pixels) → text_row n c strp i x y fg transparent buf ≡ some buf
  unfolding text_row text_pixel
  row_invisible zero c strp i buf = refl
  row_invisible (suc n) c strp i buf = elim (Bool-cases (has_bit (font (c * 8 + i)) (7 - n))) [
    | inl ink ↦ rw (row_invisible n c strp i buf, ink, white)
    | inr paper ↦ rw (row_invisible n c strp i buf, paper)
  ]

  rows_invisible :
      (n c strp : ℕ) (buf : Pixels) → text_rows n c strp x y fg transparent buf ≡ some buf
  unfolding text_rows
  rows_invisible zero c strp buf = refl
  rows_invisible (suc n) c strp buf = rw (rows_invisible n c strp buf, row_invisible 8 c strp n buf)

  loop_invisible :
      (s : List ℕ) (strp : ℕ) (buf : Pixels)
      → Ascii s
      → text_loop s strp x y fg transparent buf ≡ some buf
  unfolding text_loop
  loop_invisible [] strp buf h = refl
  loop_invisible (c ∷ s) strp buf h =
      let ascii : ltb c 128 ≡ true = ground (arith, h.0) in
      rw (ascii, rows_invisible 8 c strp buf, loop_invisible s (strp + 1) buf h.1)

  -- A text in white, or any color whose lowest byte is 255, on no background is not drawn at all.
  pub draw_text-invisible :
      (s : List ℕ) (buf : Pixels) → Ascii s → draw_text s x y fg transparent buf ≡ some buf
  unfolding draw_text
  draw_text-invisible s buf h = loop_invisible s 0 buf h

-- The color of the pixel `j` of the row `i` of a character.
abbrev pub ink : (c i j fg bg : ℕ) → ℕ
ink c i j fg bg = u8 (if has_bit (font (c * 8 + i)) (7 - j) then fg else bg)

module _ (x y fg bg : ℕ) (visible : bg ≢ transparent) (px py : ℕ) (column : px < 320)
    (row : py < 200) where
  text_pixel-shown :
      (c strp i j : ℕ) (buf : Pixels)
      → strp * 8 + x + j < 320
      → y + i < 200
      → (buf' : Pixels) × (text_pixel c strp i j x y fg bg buf ≡ some buf')
        × (shown buf' px py
            ≡ (if py == y + i && px == strp * 8 + x + j then ink c i j fg bg else shown buf px py))
  unfolding text_pixel write_at
  text_pixel-shown c strp i j buf h k =
      let there : (bg == transparent) ≡ false = ground arith in
      let small : u32 ((y + i) * 320 + (strp * 8 + x) + j) ≡ (y + i) * 320 + (strp * 8 + x) + j =
        omega arith in
      let fits : ltb ((y + i) * 320 + (strp * 8 + x) + j) 64000 ≡ true = ground arith in
      let same : (py * 320 + px == (y + i) * 320 + (strp * 8 + x) + j)
          ≡ (py == y + i && px == strp * 8 + x + j) =
        ground arith in
      (
        λ k. if k == (y + i) * 320 + (strp * 8 + x) + j then ink c i j fg bg else buf k,
        rw (there, small, fits),
        rw same,
      )

  text_row-shown :
      (n c strp i : ℕ) (buf : Pixels)
      → strp * 8 + x + n ≤ 320
      → y + i < 200
      → (buf' : Pixels) × (text_row n c strp i x y fg bg buf ≡ some buf')
        × (shown buf' px py ≡ (
            if py == y + i && among px (strp * 8 + x) n
            then ink c i (px - (strp * 8 + x)) fg bg
            else shown buf px py))
  unfolding text_row
  text_row-shown zero c strp i buf h k = (buf, refl, ground arith)
  text_row-shown (suc n) c strp i buf h k =
      let (b, run, e) = text_row-shown n c strp i buf (omega arith) k in
      let (b', run', e') = text_pixel-shown c strp i n b (omega arith) k in
      (
        b',
        rw run run',
        e'
            ∙ rw e (elim (Bool-cases (px == strp * 8 + x + n)) [
              | inl last ↦
                  let at : px - (strp * 8 + x) ≡ n = ground (arith, last) in
                  rw at (ground (arith, last))
              | inr other ↦ ground (arith, other)
            ]),
      )

  text_rows-shown :
      (n c strp : ℕ) (buf : Pixels)
      → strp * 8 + x + 8 ≤ 320
      → y + n ≤ 200
      → (buf' : Pixels) × (text_rows n c strp x y fg bg buf ≡ some buf')
        × (shown buf' px py ≡ (
            if among py y n && among px (strp * 8 + x) 8
            then ink c (py - y) (px - (strp * 8 + x)) fg bg
            else shown buf px py))
  unfolding text_rows
  text_rows-shown zero c strp buf h k = (buf, refl, ground arith)
  text_rows-shown (suc n) c strp buf h k =
      let (b, run, e) = text_rows-shown n c strp buf h (omega arith) in
      let (b', run', e') = text_row-shown 8 c strp n b h (omega arith) in
      (
        b',
        rw run run',
        e'
            ∙ rw e (elim (Bool-cases (py == y + n)) [
              | inl last ↦
                  let at : py - y ≡ n = ground (arith, last) in rw at (ground (arith, last))
              | inr other ↦ ground (arith, other)
            ]),
      )

  -- Which color a pixel has of the text that starts at character `strp`.
  abbrev lettered : (s : List ℕ) → (strp old : ℕ) → ℕ
  lettered s strp old =
      if among py y 8 && among px (strp * 8 + x) (8 * length s)
      then ink (get_or s ((px - (strp * 8 + x)) / 8) 0) (py - y) ((px - (strp * 8 + x)) % 8) fg bg
      else old

  lettered-cons :
      (c : ℕ) (s : List ℕ) (strp old : ℕ)
      → lettered s (strp + 1) (
          if among py y 8 && among px (strp * 8 + x) 8
          then ink c (py - y) (px - (strp * 8 + x)) fg bg
          else old)
        ≡ lettered (c ∷ s) strp old
  lettered-cons c s strp old =
      let start = strp * 8 + x in
      let next : (strp + 1) * 8 + x ≡ start + 8 = omega arith in
      rw next (elim (Bool-cases (among py y 8)) [
        | inr outside ↦ rw outside
        | inl here ↦ elim (Bool-cases (ltb px (start + 8))) [
          | inl first ↦
              let no_later : among px (start + 8) (8 * length s) ≡ false = ground (arith, first) in
              rw (here, no_later)
                (elim (Bool-cases (leb start px)) [
                  | inl inside ↦
                      let one : among px start 8 ≡ true = ground (arith, first, inside) in
                      let all : among px start (8 * suc (length s)) ≡ true =
                        ground (arith, first, inside) in
                      let index : (px - start) / 8 ≡ 0 = ground (arith, first, inside) in
                      let place : (px - start) % 8 ≡ px - start = ground (arith, first, inside) in
                      rw (one, all, index, place)
                  | inr left_of ↦
                      let one : among px start 8 ≡ false = ground (arith, left_of) in
                      let all : among px start (8 * suc (length s)) ≡ false =
                        ground (arith, left_of) in
                      rw (one, all)
                ])
          | inr later ↦
              let one : among px start 8 ≡ false = ground (arith, later) in
              let all : among px start (8 * suc (length s)) ≡ among px (start + 8) (8 * length s) =
                ground (arith, later) in
              let index : (px - start) / 8 ≡ suc ((px - (start + 8)) / 8) = ground (arith, later) in
              let place : (px - (start + 8)) % 8 ≡ (px - start) % 8 = ground (arith, later) in
              rw (here, one, all, index, place)
        ]
      ])

  text_loop-shown :
      (s : List ℕ) (strp : ℕ) (buf : Pixels)
      → Ascii s
      → strp * 8 + x + 8 * length s ≤ 320
      → y + 8 ≤ 200
      → (buf' : Pixels) × (text_loop s strp x y fg bg buf ≡ some buf')
        × (shown buf' px py ≡ lettered s strp (shown buf px py))
  unfolding text_loop
  text_loop-shown [] strp buf h fits k = (buf, refl, ground arith)
  text_loop-shown (c ∷ s) strp buf h fits k =
      let ascii : ltb c 128 ≡ true = ground (arith, h.0) in
      let (b, run, e) = text_rows-shown 8 c strp buf (omega arith) k in
      let (b', run', e') = text_loop-shown s (strp + 1) b h.1 (omega arith) k in
      (b', rw (ascii, run) run', e' ∙ rw e (lettered-cons c s strp (shown buf px py)))

  -- A text with a background, of characters below 128 and whole on the screen, is drawn without an
  -- access outside of the buffer: in the square of 8 by 8 pixels of each character those of its glyph
  -- have the color of the text and the others that of the background, and every other pixel of the
  -- screen is as it was.
  pub draw_text-shown :
      (s : List ℕ) (buf : Pixels)
      → Ascii s
      → x + 8 * length s ≤ 320
      → y + 8 ≤ 200
      → (buf' : Pixels) × (draw_text s x y fg bg buf ≡ some buf')
        × (shown buf' px py ≡ (
            if among py y 8 && among px x (8 * length s)
            then ink (get_or s ((px - x) / 8) 0) (py - y) ((px - x) % 8) fg bg
            else shown buf px py))
  unfolding draw_text
  draw_text-shown s buf h fits k =
      let (buf', run, e) = text_loop-shown s 0 buf h (omega arith) k in
      let start : 0 * 8 + x ≡ x = omega arith in (buf', run, e ∙ rw start)
