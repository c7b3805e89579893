-- ===== src/Console/Cursor.antt =====
-- The cursor of the screen and the console's own index.
use project_k.Base.{
  ℕ, ◌+◌, ◌-◌, ◌*◌, ◌%◌, ◌^◌, ◌<◌, ◌≤◌, ◌≡◌, refl, arith, true, false, leb, ltb, ◌==◌, ◌||◌,
  if◌then◌else◌, some, inl, inr, Bool-cases, u8, u32,
}
use mathlib.Core.Path.{subst}
use project_k.Bus.{Bus}
use project_k.Vga.{vga_text_set_cursor_pos, vga_text_item_entry}
use project_k.Vga.Text.{Crtc, crtc_after, vga_text_set_cursor_pos-crtc}
use project_k.Console.{
  Console, put_item, put_blank, put_visible, console_putchar, console_ungetchar, step_back,
  console_gotoxy, next_line,
}

-- The cell at which the CRT controller shows the cursor.
abbrev pub shown : Crtc → Bus → ℕ
shown crtc bus = let after = crtc_after crtc bus in after.register 14 * 256 + after.register 15

-- The position that the console keeps is the place of its index on the screen.
pub record InSync (c : Console) : Type 0 where
  pub index : c.vga_index ≡ 80 * c.cursor_pos_y + c.cursor_pos_x
  pub column : c.cursor_pos_x < 256
  pub line : c.cursor_pos_y < 256

shown-set_cursor :
    (crtc : Crtc) (x y : ℕ) (bus : Bus)
    → x < 256
    → y < 256
    → shown crtc (vga_text_set_cursor_pos x y bus) ≡ 80 * y + x
shown-set_cursor crtc x y bus h1 h2 = (vga_text_set_cursor_pos-crtc crtc x y bus h1 h2).0

module _ (crtc : Crtc) (c : Console) (sync : InSync c) (column : c.cursor_pos_x < 255) where
  put_blank-shown :
      InSync (put_blank c) × (shown crtc (put_blank c).bus ≡ (put_blank c).vga_index - 1)
  unfolding put_blank put_item
  put_blank-shown = (
    record { index = omega (arith, sync.index); column = omega arith; line = sync.line },
    omega (
      arith,
      shown-set_cursor crtc c.cursor_pos_x c.cursor_pos_y c.bus sync.column sync.line,
      sync.index,
      in_range,
    ),
  )
    where
      in_range : c.vga_index < 2 ^ 16
      in_range = omega (arith, sync.index, sync.line)

  put_visible-shown :
      (ch : ℕ)
      → InSync (put_visible ch c)
        × (shown crtc (put_visible ch c).bus ≡ (put_visible ch c).vga_index)
  unfolding put_visible put_item
  put_visible-shown ch = (
    record { index = omega (arith, sync.index); column = omega arith; line = sync.line },
    omega (
      arith,
      shown-set_cursor crtc (u8 (c.cursor_pos_x + 1)) c.cursor_pos_y c.bus (omega arith) sync.line,
      sync.index,
    ),
  )

-- A console that is in step stays so when a printing character comes in a column below 255. The
-- cursor is then shown at the next cell to be written, but after a space one cell before it, on
-- the space itself.
pub console_putchar-shown :
    (crtc : Crtc) (ch : ℕ) (c c' : Console)
    → InSync c
    → c.cursor_pos_x < 255
    → 32 ≤ ch
    → ch < 127
    → console_putchar ch c ≡ some c'
    → InSync c' × (shown crtc c'.bus ≡ (if ch == b' ' then c'.vga_index - 1 else c'.vga_index))
unfolding console_putchar
console_putchar-shown crtc ch c c' sync column low high e = elim (Bool-cases (ch == b' ')) [
  | inl space ↦
      let same : put_blank c ≡ c' = ground arith in
      rw space (
        subst (λ d. InSync d × (shown crtc d.bus ≡ d.vga_index - 1)) same
          (put_blank-shown crtc c sync column))
  | inr other ↦
      let same : put_visible ch c ≡ c' = ground arith in
      rw other (
        subst (λ d. InSync d × (shown crtc d.bus ≡ d.vga_index)) same
          (put_visible-shown crtc c sync column ch))
]

-- `console_gotoxy` to a column and a line below 256 brings index, position and the cursor shown in
-- step.
pub console_gotoxy-shown :
    (crtc : Crtc) (x y : ℕ) (c : Console)
    → x < 256
    → y < 256
    → let c' = console_gotoxy x y c in
      InSync c' × (c'.vga_index ≡ 80 * y + x) × (shown crtc c'.bus ≡ c'.vga_index)
unfolding console_gotoxy
console_gotoxy-shown crtc x y c h1 h2 = (
  record { index = omega arith; column = omega arith; line = omega arith },
  omega arith,
  omega (arith, shown-set_cursor crtc (u8 x) (u8 y) c.bus (omega arith) (omega arith)),
)

-- A new line from a console in step, in one of the lines 0 to 24 and a column of the screen, goes
-- to the first cell of the next line, where the cursor is shown.
pub next_line-shown :
    (crtc : Crtc) (c : Console)
    → InSync c
    → c.cursor_pos_x < 80
    → c.cursor_pos_y < 25
    → let c' = next_line c in
      InSync c' × (c'.vga_index ≡ 80 * (c.cursor_pos_y + 1)) × (shown crtc c'.bus ≡ c'.vga_index)
unfolding next_line
next_line-shown crtc c sync column line =
    let stays : leb 25 c.cursor_pos_y ≡ false = ground arith in
    let next : u32 (c.vga_index + (80 - c.vga_index % 80)) ≡ 80 * (c.cursor_pos_y + 1) =
      omega (arith, sync.index) in
    rw stays (
      record { index = omega (arith, next); column = omega arith; line = omega arith },
      next,
      omega (
        arith,
        next,
        shown-set_cursor crtc 0 (u8 (c.cursor_pos_y + 1)) c.bus (omega arith) (omega arith),
      ),
    )

-- `d` is `c` but for the two cells from its index on, which are blank, and for the cursor, which is shown
-- one cell behind the index.
pub record TakenBack (crtc : Crtc) (c d : Console) : Type 0 where
  pub in_sync : InSync d
  pub index : d.vga_index ≡ c.vga_index
  pub cursor_x : d.cursor_pos_x ≡ c.cursor_pos_x
  pub cursor_y : d.cursor_pos_y ≡ c.cursor_pos_y
  pub cells :
      (j : ℕ)
      → d.vga_buffer j ≡ (
          if j == c.vga_index || j == c.vga_index + 1
          then vga_text_item_entry 0 c.fore_color c.back_color
          else c.vga_buffer j)
  pub cursor : shown crtc d.bus ≡ d.vga_index + 1
  pub pages : d.temp_pages ≡ c.temp_pages
  pub page : d.current_temp_page ≡ c.current_temp_page

take_back-put_visible :
    (crtc : Crtc) (ch : ℕ) (c : Console)
    → InSync c
    → c.cursor_pos_x < 255
    → TakenBack crtc c (console_ungetchar (put_visible ch c))
unfolding console_ungetchar step_back put_visible put_item
take_back-put_visible crtc ch c sync column =
    let here = sync.index in
    let low = sync.line in
    let right_of : ltb 0 (u8 (c.cursor_pos_x + 1)) ≡ true = ground (arith, column) in
    let behind : ltb 0 (u32 (c.vga_index + 1)) ≡ true = ground (arith, here, low, column) in
    record {
      in_sync =
          rw (behind, right_of)
            (record { index = omega (arith, here, low); column = omega arith; line = low });
      index = ground (arith, here, low, column);
      cursor_x = ground (arith, here, low, column);
      cursor_y = ground (arith, here, low, column);
      cells = λ j. ground (arith, here, low, column);
      cursor =
          rw (behind, right_of)
            (omega (
              arith,
              shown-set_cursor crtc (u8 (c.cursor_pos_x + 1)) c.cursor_pos_y (put_visible ch c).bus
                  (omega arith) low,
              here,
            ));
      pages = rw (behind, right_of) refl;
      page = rw (behind, right_of) refl;
    }

-- Taking back a printing character that is not the space, on a console that is in step and in a column
-- below 255, restores the index and the position, which stay in step, with the pages as they were; the
-- character's cell and the one behind it are blank after that, and no other cell has changed. But the
-- cursor is set before the position goes back, so that it stays shown one cell behind the index.
pub console_ungetchar-putchar :
    (crtc : Crtc) (ch : ℕ) (c c' : Console)
    → InSync c
    → 32 < ch
    → ch < 127
    → c.cursor_pos_x < 255
    → console_putchar ch c ≡ some c'
    → TakenBack crtc c (console_ungetchar c')
unfolding console_putchar
console_ungetchar-putchar crtc ch c c' sync low high column e =
    let visible : put_visible ch c ≡ c' = ground arith in
    subst (λ d. TakenBack crtc c (console_ungetchar d)) visible
      (take_back-put_visible crtc ch c sync column)
