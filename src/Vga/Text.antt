-- ===== src/Vga/Text.antt =====
-- Text cells, the cursor and the palette, as the VGA reads them.
use project_k.Base.{
  ℕ, ◌+◌, ◌*◌, ◌/◌, ◌%◌, ◌^◌, ◌<◌, ◌∙◌, ◌≡◌, ◌≢◌, arith, ◌==◌, if◌then◌else◌, List, [], ◌∷◌, ◌++◌,
  u8,
}
use mathlib.Core.List.{append-nil, append_assoc}
use project_k.Base.Digits.{bit_or-fields}
use project_k.Bus.{Event, wrote, read, Bus}
use project_k.Vga.{vga_text_item_entry, vga_text_set_cursor_pos, send_colors, libvga_set_palette}

-- A cell holds the character in its low byte, above it four bits of the fore color, and above them
-- four bits of the back color, for a character below 2^8 and colors below 2^4.
pub vga_text_item_entry_fields :
    (ch fore back : ℕ)
    → ch < 256
    → fore < 16
    → back < 16
    → let cell = vga_text_item_entry ch fore back in
      (cell % 256 ≡ ch) × (cell / 256 % 16 ≡ fore) × (cell / 4096 ≡ back)
unfolding vga_text_item_entry
vga_text_item_entry_fields ch fore back h1 h2 h3 =
    ground (arith, bit_or-fields 4 back fore h2, bit_or-fields 8 (back * 16 + fore) ch h1)

-- The CRT controller: an index port and a data port.
pub record Crtc : Type 0 where
  pub index : ℕ
  pub register : ℕ → ℕ

crtc_step : Event → Crtc → Crtc
crtc_step (wrote p v) c =
    if p == 0x3D4
    then record c { index = v }
    else if p == 0x3D5
    then record c { register = λ r. if r == c.index then v else c.register r }
    else c
crtc_step (read p v) c = c

unfoldable pub crtc_after : Crtc → Bus → Crtc
unfolding crtc_step
crtc_after c [] = c
crtc_after c (e ∷ bus) = crtc_step e (crtc_after c bus)

-- `vga_text_set_cursor_pos` leaves the cell number of the position, `80 * y + x`, in the cursor
-- registers 14 and 15 of the CRT controller, and every other register as it was.
pub vga_text_set_cursor_pos-crtc :
    (c : Crtc) (x y : ℕ) (bus : Bus)
    → x < 256
    → y < 256
    → let after = crtc_after c (vga_text_set_cursor_pos x y bus) in
      (after.register 14 * 256 + after.register 15 ≡ 80 * y + x)
      × ((r : ℕ) → r ≢ 14 → r ≢ 15 → after.register r ≡ (crtc_after c bus).register r)
unfolding vga_text_set_cursor_pos crtc_after
vga_text_set_cursor_pos-crtc c x y bus h1 h2 = (ground arith, λ r n1 n2. ground arith)

-- The color register of the DAC: the three components that it was sent last, of 6 bits each.
abbrev components : ℕ → List ℕ
components color = color / 2 ^ 16 % 256 / 4 ∷ color / 2 ^ 8 % 256 / 4 ∷ color % 256 / 4 ∷ []

-- What the data port of the DAC received, oldest first, as far as its 6 bits go.
unfoldable pub dac_data : Bus → List ℕ
dac_data [] = []
dac_data (wrote p v ∷ bus) = if p == 0x3C9 then dac_data bus ++ (v % 64 ∷ []) else dac_data bus
dac_data (read p v ∷ bus) = dac_data bus

unfoldable pub palette_data : List ℕ → List ℕ
palette_data [] = []
palette_data (color ∷ colors) = components color ++ palette_data colors

send_colors-dac_data :
    (colors : List ℕ) (bus : Bus)
    → dac_data (send_colors colors bus) ≡ dac_data bus ++ palette_data colors
unfolding send_colors dac_data palette_data
send_colors-dac_data [] bus = rw append-nil
send_colors-dac_data (color ∷ colors) bus =
    let r : u8 (color / 2 ^ 16 / 2 ^ 2 % 2 ^ 8) % 64 ≡ color / 2 ^ 16 % 256 / 4 = omega arith in
    let g : u8 (color / 2 ^ 8 / 2 ^ 2 % 2 ^ 8) % 64 ≡ color / 2 ^ 8 % 256 / 4 = omega arith in
    let b : u8 (color / 2 ^ 2 % 2 ^ 8) % 64 ≡ color % 256 / 4 = omega arith in
    send_colors-dac_data colors _ ∙ rw (r, g, b) (simp append_assoc)

-- `libvga_set_palette` starts the DAC at color 0 and sends it, for each color in order, the upper
-- six bits of red, green and blue, and nothing else.
pub libvga_set_palette-dac_data :
    (colors : List ℕ) (bus : Bus)
    → dac_data (libvga_set_palette colors bus) ≡ dac_data bus ++ palette_data colors
unfolding libvga_set_palette dac_data
libvga_set_palette-dac_data colors bus = send_colors-dac_data colors (wrote 0x3C8 0 ∷ bus)
