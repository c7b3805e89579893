-- ===== src/Console/Cells.antt =====
-- What text leaves in video memory.
use project_k.Base.{
  ℕ, zero, suc, ◌+◌, ◌-◌, ◌%◌, ◌^◌, ◌<◌, ◌≤◌, ◌≡◌, refl, arith, false, ltb, leb, ◌==◌, ◌&&◌,
  if◌then◌else◌, some, ◌∙◌, inl, inr, Bool-cases, List, [], ◌∷◌, length, get_or,
}
use mathlib.Core.Path.{subst}
use project_k.Vga.{vga_text_item_entry}
use project_k.Console.{
  Cells, Console, copy_loop, put_item, put_blank, put_visible, console_putchar, console_putstr,
}

pub copy_loop_lem :
    (n : ℕ) (from to : Cells) (j : ℕ) → copy_loop n from to j ≡ (if ltb j n then from j else to j)
unfolding copy_loop
copy_loop_lem zero from to j = ground arith
copy_loop_lem (suc n) from to j = ground (arith, copy_loop_lem n from to j)

-- The printing characters of ASCII, with the space.
abbrev pub IsText : List ℕ → Type 0
IsText [] = Unit
IsText (ch ∷ str) = (32 ≤ ch) × (ch < 127) × IsText str

-- The cells `start`, `start + 1`, … hold the text in the two colors, the others what they held.
abbrev pub holds : List ℕ → (start fore back : ℕ) → Cells → Cells
holds str start fore back old j =
    if leb start j && ltb j (start + length str)
    then vga_text_item_entry (get_or str (j - start) 0) fore back
    else old j

-- The console after a text that stays on its line.
pub record Printed (str : List ℕ) (c c' : Console) : Type 0 where
  pub cells :
      (j : ℕ) → c'.vga_buffer j ≡ holds str c.vga_index c.fore_color c.back_color c.vga_buffer j
  pub index : c'.vga_index ≡ c.vga_index + length str
  pub cursor_x : c'.cursor_pos_x ≡ (c.cursor_pos_x + length str) % 256
  pub cursor_y : c'.cursor_pos_y ≡ c.cursor_pos_y
  pub fore : c'.fore_color ≡ c.fore_color
  pub back : c'.back_color ≡ c.back_color
  pub pages : c'.temp_pages ≡ c.temp_pages
  pub page : c'.current_temp_page ≡ c.current_temp_page

get_or-head : (ch : ℕ) (str : List ℕ) (n : ℕ) → n ≡ 0 → get_or (ch ∷ str) n 0 ≡ ch
get_or-head ch str zero e = refl
get_or-head ch str (suc n) e = absurd (omega arith)

get_or-rest : (ch : ℕ) (str : List ℕ) (n m : ℕ) → n ≡ suc m → get_or (ch ∷ str) n 0 ≡ get_or str m 0
get_or-rest ch str zero m e = absurd (omega arith)
get_or-rest ch str (suc n) m e = let e' : n ≡ m = omega arith in rw e'

put_blank-Printed : (c : Console) → c.vga_index + 1 < 2 ^ 32 → Printed (b' ' ∷ []) c (put_blank c)
unfolding put_blank put_item
put_blank-Printed c h = record {
  cells = λ j. ground (arith, get_or-head b' ' [] (j - c.vga_index));
  index = omega arith;
  cursor_x = omega arith;
  cursor_y = refl;
  fore = refl;
  back = refl;
  pages = refl;
  page = refl;
}

put_visible-Printed :
    (ch : ℕ) (c : Console) → c.vga_index + 1 < 2 ^ 32 → Printed (ch ∷ []) c (put_visible ch c)
unfolding put_visible put_item
put_visible-Printed ch c h = record {
  cells = λ j. ground (arith, get_or-head ch [] (j - c.vga_index));
  index = omega arith;
  cursor_x = omega arith;
  cursor_y = refl;
  fore = refl;
  back = refl;
  pages = refl;
  page = refl;
}

Printed-cons :
    (ch : ℕ) (str : List ℕ) (a b c : Console)
    → Printed (ch ∷ []) a b
    → Printed str b c
    → Printed (ch ∷ str) a c
Printed-cons ch str a b c first rest = record {
  cells = λ j. ground (
    arith,
    first.cells j,
    rest.cells j,
    first.index,
    first.fore,
    first.back,
    get_or-head ch [] (j - a.vga_index),
    get_or-head ch str (j - a.vga_index),
    get_or-rest ch str (j - a.vga_index) (j - b.vga_index),
  );
  index = omega (arith, first.index, rest.index);
  cursor_x = omega (arith, first.cursor_x, rest.cursor_x);
  cursor_y = rest.cursor_y ∙ first.cursor_y;
  fore = rest.fore ∙ first.fore;
  back = rest.back ∙ first.back;
  pages = rest.pages ∙ first.pages;
  page = rest.page ∙ first.page;
}

console_putchar-Printed :
    (ch : ℕ) (c : Console)
    → 32 ≤ ch
    → ch < 127
    → c.vga_index + 1 < 2 ^ 32
    → (c' : Console) × (console_putchar ch c ≡ some c') × Printed (ch ∷ []) c c'
unfolding console_putchar
console_putchar-Printed ch c low high h = elim (Bool-cases (ch == b' ')) [
  | inl e ↦
      let e' : b' ' ≡ ch = ground arith in
      (
        put_blank c,
        rw e,
        subst (λ (x : ℕ). Printed (x ∷ []) c (put_blank c)) e' (put_blank-Printed c h),
      )
  | inr e ↦ (put_visible ch c, ground arith, put_visible-Printed ch c h)
]

putstr-step :
    (ch : ℕ) (str : List ℕ) (c d c' : Console)
    → 32 ≤ ch
    → console_putchar ch c ≡ some d
    → console_putstr str d ≡ some c'
    → console_putstr (ch ∷ str) c ≡ some c'
unfolding console_putstr
putstr-step ch str c d c' low e e' =
    let zero_no : (ch == 0) ≡ false = ground arith in
    let line_no : (ch == 10) ≡ false = ground arith in rw (zero_no, line_no, e) e'

-- Printing a text of ASCII characters that has no control character, from an index with room for
-- it below 2^32, never faults: the text stands in the cells from the index on in the two colors,
-- with no other cell changed, the index and the cursor's column move by its length (the column
-- modulo 256, with no change of line), and pages and colors are as before.
pub console_putstr-Printed :
    (str : List ℕ) (c : Console)
    → IsText str
    → c.cursor_pos_x < 256
    → c.vga_index + length str < 2 ^ 32
    → (c' : Console) × (console_putstr str c ≡ some c') × Printed str c c'
unfolding console_putstr
console_putstr-Printed [] c text h fits = (
  c,
  refl,
  record {
    cells = λ j. ground arith;
    index = omega arith;
    cursor_x = omega arith;
    cursor_y = refl;
    fore = refl;
    back = refl;
    pages = refl;
    page = refl;
  },
)
console_putstr-Printed (ch ∷ str) c (low, high, text) h fits =
    let (d, e, first) = console_putchar-Printed ch c low high (omega arith) in
    let (c', e', rest) =
      console_putstr-Printed str d text (omega (arith, first.cursor_x))
        (omega (arith, first.index)) in
    (c', putstr-step ch str c d c' low e e', Printed-cons ch str c d c' first rest)
