-- ===== src/Console/Tests.antt =====
-- The console on a blank screen, in its first colors.
use project_k.Base.{◌^◌, ◌-◌, Option, ℕ, ◌+◌, ◌*◌, ◌≡◌, refl, arith, none, some, [], ◌∷◌, List}
use project_k.Vga.Text.{Crtc}
use project_k.Console.{
  Cells, Console, init_console, put_visible, console_putchar, console_putstr, console_newline,
  console_ungetchar, console_ungetchar_bound, console_scroll, scroll_up, clear_console, step_back,
}
use project_k.Console.Cells.{IsText, Printed, console_putstr-Printed}
use project_k.Console.Cursor.{
  InSync, shown, console_putchar-shown, TakenBack, console_ungetchar-putchar,
}
use project_k.Console.Format.{int, pointer, digit_loop, reverse_loop, itoa, text_at, in_text}
use project_k.Console.Widths.{rendered}
use project_k.Console.Pages.{newlines, newlines-pages, console_scroll-newline}

abbrev crtc : Crtc
crtc = record { index = 0; register = λ r. 0 }

abbrev blank : Console
blank = record {
  vga_buffer = λ j. 0;
  vga_index = 0;
  cursor_pos_x = 0;
  cursor_pos_y = 0;
  fore_color = 15;
  back_color = 0;
  temp_pages = λ p j. 0;
  current_temp_page = 0;
  bus = [];
}

abbrev in_line : ℕ → Console
in_line y = record blank { vga_index = 80 * y + 7; cursor_pos_x = 7; cursor_pos_y = y }

in_line-InSync : InSync (in_line 3)
in_line-InSync = record { index = refl; column = omega arith; line = omega arith }

abbrev greeting : List ℕ
greeting = b'H' ∷ b'i' ∷ b' ' ∷ b'!' ∷ []

greeting-IsText : IsText greeting
greeting-IsText = (
  omega arith,
  omega arith,
  (omega arith, omega arith, (omega arith, omega arith, (omega arith, omega arith, tt))),
)

console_putstr-Printed_example :
    (c' : Console) × (console_putstr greeting (in_line 3) ≡ some c')
    × Printed greeting (in_line 3) c'
console_putstr-Printed_example =
    console_putstr-Printed greeting (in_line 3) greeting-IsText (omega arith) (omega arith)

visible_run : console_putchar b'H' (in_line 3) ≡ some (put_visible b'H' (in_line 3))
unfolding console_putchar
visible_run = refl

console_ungetchar-putchar_example :
    TakenBack crtc (in_line 3) (console_ungetchar (put_visible b'H' (in_line 3)))
console_ungetchar-putchar_example =
    console_ungetchar-putchar crtc b'H' (in_line 3) (put_visible b'H' (in_line 3)) in_line-InSync
      (omega arith) (omega arith) (omega arith) visible_run

console_putchar-shown_example :
    InSync (put_visible b'H' (in_line 3))
    × (shown crtc (put_visible b'H' (in_line 3)).bus ≡ (put_visible b'H' (in_line 3)).vga_index)
console_putchar-shown_example =
    console_putchar-shown crtc b'H' (in_line 3) (put_visible b'H' (in_line 3)) in_line-InSync
      (omega arith) (omega arith) (omega arith) visible_run

newlines-pages_example :
    (d : Console) × (newlines 60 blank ≡ some d)
    × (d.current_temp_page ≡ 2)
    × (d.cursor_pos_y ≡ 8)
    × (newlines 417 blank ≡ none)
newlines-pages_example = newlines-pages 60 blank (omega arith) refl refl

console_scroll-newline_example :
    (d : Console) × (console_newline (in_line 25) ≡ some d)
    × ((console_scroll scroll_up d).current_temp_page ≡ 0)
    × ((console_scroll scroll_up d).vga_buffer 7 ≡ 0)
console_scroll-newline_example =
    console_scroll-newline (in_line 25) 7 (omega arith) (omega arith) (omega arith)

-- With a bound of 5, the sixth column is the last that can be taken back.
bound_run : (console_ungetchar_bound 5 (in_line 3)).vga_index ≡ 246
unfolding console_ungetchar_bound step_back
bound_run = refl

init_run : (init_console 7 1 (in_line 3)).vga_index ≡ 0
unfolding init_console clear_console
init_run = refl

abbrev empty : Cells
empty j = 0

-- The text of -42.
abbrev text_of : Option Cells → List ℕ
text_of none = []
text_of (some buf) = buf 0 ∷ buf 1 ∷ buf 2 ∷ buf 3 ∷ []

itoa_run : text_of (itoa b'd' (2 ^ 32 - 42) empty) ≡ b'-' ∷ b'4' ∷ b'2' ∷ 0 ∷ []
unfolding itoa digit_loop reverse_loop
itoa_run = refl

-- A width of 5 is no width: the argument stands for a character, and the `d` for itself.
abbrev wide : List ℕ
wide = b'%' ∷ b'5' ∷ b'd' ∷ []

wide_run : rendered in_text wide (int b'A' ∷ []) ≡ some (b'A' ∷ b'd' ∷ [])
unfolding rendered
wide_run = refl

-- With a text it is the low byte of the address.
pointer_run : rendered in_text wide (pointer 0x1041 greeting ∷ []) ≡ some (b'A' ∷ b'd' ∷ [])
unfolding rendered
pointer_run = refl

number_run :
    rendered in_text (b'%' ∷ b'0' ∷ b'x' ∷ b'!' ∷ []) (int 0xBEE ∷ [])
    ≡ some (b'b' ∷ b'e' ∷ b'e' ∷ b'!' ∷ [])
unfolding rendered itoa digit_loop reverse_loop text_at
number_run = refl
