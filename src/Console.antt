-- ===== src/Console.antt =====
-- The text console of the kernel: k/console.c. `vga_buffer` is a pointer, the memory from 0xB8000 on: a
-- function of the number of the cell, of which the first 2000 are the screen and those from 16384 on are
-- no video memory; `temp_pages` is an array of `maximum_pages` pages, and an access behind its last
-- page is a fault, `none`. A character is its byte.
pub mod Cells
pub mod Cursor
pub mod Pages
pub mod Format
pub mod Reversal
pub mod Numerals
pub mod Widths
mod Tests
use project_k.Base.{
  ℕ, Bool, zero, suc, ◌+◌, ◌-◌, ◌*◌, ◌/◌, ◌%◌, ◌^◌, ltb, leb, ◌==◌, ◌&&◌, if◌then◌else◌, Option,
  none, some, List, [], ◌∷◌, u8, u16, u32,
}
use project_k.Bus.{Bus}
use project_k.Vga.{
  vga_text_width, vga_text_height, vga_text_total_items, vga_text_item_entry,
  vga_text_set_cursor_pos,
}

abbrev pub Cells : Type 0
Cells = ℕ → ℕ

abbrev pub maximum_pages : ℕ
maximum_pages = 16

pub record Console : Type 0 where
  pub vga_buffer : Cells
  pub vga_index : ℕ
  pub cursor_pos_x : ℕ
  pub cursor_pos_y : ℕ
  pub fore_color : ℕ
  pub back_color : ℕ
  pub temp_pages : ℕ → Cells
  pub current_temp_page : ℕ
  pub bus : Bus

abbrev pub put {ℓ} : {A : Type ℓ} → (ℕ → A) → ℕ → A → ℕ → A
put f n a m = if m == n then a else f m

-- `for (i = 0; i < n; i++) to[i] = from[i]`, after `n` rounds.
unfoldable pub copy_loop : ℕ → Cells → Cells → Cells
copy_loop zero from to = to
copy_loop (suc n) from to = put (copy_loop n from to) n (from n)

unfoldable pub set_cursor : Console → Console
set_cursor c = record c { bus = vga_text_set_cursor_pos c.cursor_pos_x c.cursor_pos_y c.bus }

unfoldable pub clear_console : (fore back : ℕ) → Console → Console
unfolding set_cursor
clear_console fore back c = set_cursor (record c {
  vga_buffer = copy_loop vga_text_total_items (λ _. vga_text_item_entry 0 fore back) c.vga_buffer;
  vga_index = 0;
  cursor_pos_x = 0;
  cursor_pos_y = 0;
})

unfoldable pub init_console : (fore back : ℕ) → Console → Console
init_console fore back c =
    clear_console fore back
      (record c { fore_color = fore; back_color = back; cursor_pos_x = 0; cursor_pos_y = 0 })

abbrev pub scroll_up : ℕ
scroll_up = 1

-- The page that `console_scroll` goes to.
abbrev pub scrolled_page : ℕ → ℕ → ℕ
scrolled_page kind page =
    (if kind == scroll_up then (if ltb 0 page then page - 1 else page) else u32 (page + 1))
    % maximum_pages

unfoldable pub console_scroll : ℕ → Console → Console
console_scroll kind c =
    let page = scrolled_page kind c.current_temp_page in
    record c {
      current_temp_page = page;
      vga_buffer = copy_loop vga_text_total_items (c.temp_pages page) c.vga_buffer;
    }

-- The loop that saves the screen writes to `temp_pages[current_temp_page]`.
unfoldable pub save_page : Console → Option Console
save_page c =
    if ltb c.current_temp_page maximum_pages
    then some (record c {
      temp_pages =
          put c.temp_pages c.current_temp_page
            (copy_loop vga_text_total_items c.vga_buffer (c.temp_pages c.current_temp_page));
    })
    else none

-- What `console_newline` does after it has saved the screen.
unfoldable pub next_line : Console → Console
unfolding set_cursor
next_line c =
    if leb vga_text_height c.cursor_pos_y
    then clear_console c.fore_color c.back_color (record c {
      current_temp_page = u32 (c.current_temp_page + 1);
      cursor_pos_x = 0;
      cursor_pos_y = 0;
    })
    else set_cursor (record c {
      vga_index = u32 (c.vga_index + (vga_text_width - c.vga_index % vga_text_width));
      cursor_pos_x = 0;
      cursor_pos_y = u8 (c.cursor_pos_y + 1);
    })

infixl 5 ◌>>=◌
abbrev pub ◌>>=◌ : Option Console → (Console → Option Console) → Option Console
none >>= f = none
some c >>= f = f c

unfoldable pub console_newline : Console → Option Console
console_newline c = save_page c >>= λ c. some (next_line c)

-- `vga_buffer[vga_index++] = vga_text_item_entry(ch, fore_color, back_color)`.
unfoldable pub put_item : ℕ → Console → Console
put_item ch c = record c {
  vga_buffer = put c.vga_buffer c.vga_index (vga_text_item_entry ch c.fore_color c.back_color);
  vga_index = u32 (c.vga_index + 1);
}

abbrev pub right : Console → Console
right c = record c { cursor_pos_x = u8 (c.cursor_pos_x + 1) }

abbrev pub left : Console → Console
left c = record c { cursor_pos_x = u8 (c.cursor_pos_x + 255) }

unfoldable pub put_blank : Console → Console
unfolding set_cursor
put_blank c = right (set_cursor (put_item b' ' c))

unfoldable pub put_visible : ℕ → Console → Console
unfolding set_cursor
put_visible ch c = set_cursor (right (put_item ch c))

-- `char` is signed: a byte from 128 on is not above 0.
unfoldable pub console_putchar : ℕ → Console → Option Console
console_putchar ch c =
    if ch == b' '
    then some (put_blank c)
    else if ch == 9
    then some (put_blank (put_blank (put_blank (put_blank c))))
    else if ch == 10
    then console_newline c
    else if ltb 0 ch && ltb ch 128
    then some (put_visible ch c)
    else some c

-- The text ends at its first zero byte.
unfoldable pub console_putstr : List ℕ → Console → Option Console
console_putstr [] c = some c
console_putstr (ch ∷ str) c =
    let rest =
      (if ch == 10 then console_newline c else console_putchar ch c) >>= console_putstr str in
    if ch == 0 then some c else rest

-- `vga_buffer[n] = vga_text_item_entry(0, fore_color, back_color)`.
abbrev pub blank_at : ℕ → Console → Console
blank_at n c = record c {
  vga_buffer = put c.vga_buffer n (vga_text_item_entry 0 c.fore_color c.back_color);
}

-- One cell back, at a cursor that is to be at `limit` at least: the branch that
-- `console_ungetchar` and `console_ungetchar_bound` share.
unfoldable pub step_back : Bool → Console → Console
unfolding set_cursor
step_back inside c =
    let c = record (blank_at c.vga_index c) { vga_index = c.vga_index - 1 } in
    if inside
    then left (set_cursor c)
    else if ltb 0 c.cursor_pos_y
    then left
        (set_cursor (record c { cursor_pos_x = vga_text_width; cursor_pos_y = c.cursor_pos_y - 1 }))
    else record c { cursor_pos_x = vga_text_width; cursor_pos_y = 0 }

unfoldable pub console_ungetchar : Console → Console
console_ungetchar c =
    let c = if ltb 0 c.vga_index then step_back (ltb 0 c.cursor_pos_x) c else c in
    blank_at c.vga_index c

unfoldable pub console_ungetchar_bound : ℕ → Console → Console
console_ungetchar_bound n c =
    let c =
      if ltb n (c.vga_index % vga_text_width) && ltb 0 n
      then step_back (leb n c.cursor_pos_x) c
      else c in
    blank_at c.vga_index c

unfoldable pub console_gotoxy : (x y : ℕ) → Console → Console
unfolding set_cursor
console_gotoxy x y c = set_cursor (record c {
  vga_index = u32 (vga_text_width * y + x);
  cursor_pos_x = u8 x;
  cursor_pos_y = u8 y;
})
