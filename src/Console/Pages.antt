-- ===== src/Console/Pages.antt =====
-- The saved pages: what they hold, and when there is none left.
use project_k.Base.{
  ℕ, zero, suc, ◌+◌, ◌*◌, ◌/◌, ◌%◌, ◌<◌, ◌≤◌, ◌≡◌, refl, ◌∙◌, arith, ltb, if◌then◌else◌, Option,
  some, none,
}
use project_k.Console.{
  Console, ◌>>=◌, put, copy_loop, clear_console, save_page, next_line, console_newline,
  console_scroll, scroll_up, scrolled_page,
}
use project_k.Console.Cells.{copy_loop_lem}

-- Where a console stands in the sequence of lines of all pages: 26 lines to a page.
abbrev pub line_number : Console → ℕ
line_number c = 26 * c.current_temp_page + c.cursor_pos_y

abbrev pub saved : Console → Console
saved c = record c {
  temp_pages =
      put c.temp_pages c.current_temp_page
        (copy_loop 2000 c.vga_buffer (c.temp_pages c.current_temp_page));
}

newline-saved :
    (c : Console) → c.current_temp_page < 16 → console_newline c ≡ some (next_line (saved c))
unfolding console_newline save_page
newline-saved c h = ground arith

newline-full : (c : Console) → 16 ≤ c.current_temp_page → console_newline c ≡ none
unfolding console_newline save_page
newline-full c h = ground arith

next_line-line_number :
    (c : Console)
    → c.current_temp_page < 16
    → c.cursor_pos_y ≤ 25
    → let d = next_line c in (line_number d ≡ line_number c + 1) × (d.cursor_pos_y ≤ 25)
unfolding next_line clear_console
next_line-line_number c h k = (ground arith, ground arith)

-- `n` new lines, one after the other.
unfoldable pub newlines : ℕ → Console → Option Console
newlines zero c = some c
newlines (suc n) c = newlines n c >>= console_newline

newlines-line_number :
    (n : ℕ) (c : Console)
    → c.current_temp_page ≡ 0
    → c.cursor_pos_y ≡ 0
    → n ≤ 416
    → (d : Console) × (newlines n c ≡ some d) × (line_number d ≡ n) × (d.cursor_pos_y ≤ 25)
unfolding newlines
newlines-line_number zero c p y h = (c, refl, omega arith, omega arith)
newlines-line_number (suc n) c p y h =
    let (d, e, at, low) = newlines-line_number n c p y (omega arith) in
    let room : d.current_temp_page < 16 = omega (arith, at) in
    let step = next_line-line_number (saved d) room low in
    (next_line (saved d), rw e (newline-saved d room), omega (arith, step.0, at), step.1)

-- From the first line of the first page, up to 416 new lines succeed, and each of the 16 pages takes
-- 26 of them; the 417th writes behind the last page.
pub newlines-pages :
    (n : ℕ) (c : Console)
    → n ≤ 416
    → c.current_temp_page ≡ 0
    → c.cursor_pos_y ≡ 0
    → (d : Console) × (newlines n c ≡ some d)
      × (d.current_temp_page ≡ n / 26)
      × (d.cursor_pos_y ≡ n % 26)
      × (newlines 417 c ≡ none)
unfolding newlines
newlines-pages n c h p y =
    let (d, e, at, low) = newlines-line_number n c p y h in
    let (full, e', at', low') = newlines-line_number 416 c p y (omega arith) in
    (
      d,
      e,
      omega (arith, at, low),
      omega (arith, at, low),
      rw e' (newline-full full (omega (arith, at', low'))),
    )

inside : (j : ℕ) → j < 2000 → (a b : ℕ) → (if ltb j 2000 then a else b) ≡ a
inside j k a b = ground arith

saved_page :
    (c : Console) (j : ℕ)
    → j < 2000
    → (next_line (saved c)).temp_pages c.current_temp_page j ≡ c.vga_buffer j
unfolding next_line clear_console
saved_page c j k =
    let copied = copy_loop_lem 2000 c.vga_buffer (c.temp_pages c.current_temp_page) j in
    ground (arith, copied)

-- A new line in the last line of a page saves each of the 2000 cells of the screen; to scroll up after
-- it shows the cell again, on the page that it was saved on.
pub console_scroll-newline :
    (c : Console) (j : ℕ)
    → c.current_temp_page < 16
    → 25 ≤ c.cursor_pos_y
    → j < 2000
    → (d : Console) × (console_newline c ≡ some d)
      × ((console_scroll scroll_up d).current_temp_page ≡ c.current_temp_page)
      × ((console_scroll scroll_up d).vga_buffer j ≡ c.vga_buffer j)
unfolding next_line clear_console console_scroll
console_scroll-newline c j h last k =
    let d = next_line (saved c) in
    let back : scrolled_page scroll_up d.current_temp_page ≡ c.current_temp_page = ground arith in
    (
      d,
      newline-saved c h,
      back,
      copy_loop_lem 2000 (d.temp_pages (scrolled_page scroll_up d.current_temp_page)) d.vga_buffer j
          ∙ inside j k _ _
          ∙ rw back (saved_page c j k),
    )
