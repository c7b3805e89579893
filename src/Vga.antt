-- ===== src/Vga.antt =====
-- The VGA library of the kernel: the text mode, palette and drawing functions of k/libvga.c.
pub mod Text
pub mod Draw
pub mod Tables
pub mod Modes
pub mod Registers
pub mod Switch
pub mod Circle
pub mod Lines
pub mod Frames
mod Tests
use project_k.Base.{
  ℕ, zero, suc, ◌+◌, ◌-◌, ◌*◌, ◌/◌, ◌%◌, ◌^◌, ltb, ◌==◌, if◌then◌else◌, List, [], ◌∷◌, u8, u16, u32,
  shl, shr, low_bits, bit_or,
}
use project_k.Bus.{Bus, Hardware, outb, inb}

abbrev pub vga_text_width : ℕ
vga_text_width = 80

abbrev pub vga_text_height : ℕ
vga_text_height = 25

abbrev pub vga_text_total_items : ℕ
vga_text_total_items = 2000

unfoldable pub vga_text_item_entry : (ch fore_color back_color : ℕ) → ℕ
vga_text_item_entry ch fore_color back_color =
    let ah = u8 back_color in
    let ah = u8 (shl ah 4) in
    let ah = u8 (bit_or ah fore_color) in
    let ax = u16 (shl ah 8) in let al = u8 ch in u16 (bit_or ax al)

unfoldable pub vga_text_set_cursor_pos : (x y : ℕ) → Bus → Bus
vga_text_set_cursor_pos x y bus =
    let cursor_location = u16 (y * vga_text_width + x) in
    let bus = outb 0x3D5 (shr cursor_location 8) (outb 0x3D4 14 bus) in
    outb 0x3D5 cursor_location (outb 0x3D4 15 bus)

unfoldable pub vga_disable_cursor : Bus → Bus
vga_disable_cursor bus = outb 0x3D5 32 (outb 0x3D4 10 bus)

-- The loop of `libvga_set_palette` over the colors.
unfoldable pub send_colors : List ℕ → Bus → Bus
send_colors [] bus = bus
send_colors (color ∷ colors) bus =
    let bus = outb 0x3C9 (low_bits (shr (shr color 16) 2) 8) bus in
    let bus = outb 0x3C9 (low_bits (shr (shr color 8) 2) 8) bus in
    send_colors colors (outb 0x3C9 (low_bits (shr color 2) 8) bus)

unfoldable pub libvga_set_palette : List ℕ → Bus → Bus
libvga_set_palette new_palette bus = send_colors new_palette (outb 0x3C8 0 bus)

-- The `switch` of `libvga_get_framebuffer`.
unfoldable pub framebuffer : ℕ → ℕ
framebuffer mmap_select =
    if mmap_select == 0
    then 0xA0000
    else if mmap_select == 1
    then 0xA0000
    else if mmap_select == 2
    then 0xB0000
    else if mmap_select == 3
    then 0xB8000
    else 0

unfoldable pub libvga_get_framebuffer : Hardware → Bus → ℕ × Bus
libvga_get_framebuffer dev bus =
    let (mmap_select, bus) = inb dev 0x3CF (outb 0x3CE 6 bus) in
    (framebuffer (low_bits (shr mmap_select 2) 2), bus)
