-- ===== src/Vga/Tests.antt =====
-- Cells, palettes and shapes at concrete places.
use project_k.Base.{
  ℕ, ◌+◌, ◌*◌, ◌%◌, ◌<◌, ◌≤◌, ◌≡◌, ◌≢◌, refl, sym, ◌∙◌, arith, true, none, some, [], ◌∷◌, get_or,
}
use project_k.Bus.{Bus, Hardware, wrote, read}
use project_k.Vga.{vga_text_set_cursor_pos, vga_disable_cursor, framebuffer, libvga_get_framebuffer}
use project_k.Vga.Text.{Crtc, crtc_after, vga_text_set_cursor_pos-crtc}
use project_k.Vga.Modes.{
  Video, at_start, send_regs, libvga_write_regs, libvga_switch_mode13h, libvga_switch_mode3h,
  exit_vga_graphics,
}
use project_k.Vga.Registers.{after, Indexed, Attributes, indexed_step, crt_step, attribute_step}
use project_k.Vga.Switch.{Programmed, libvga_write_regs-Programmed, switch_mode3h-mode13h}
use project_k.Vga.Circle.{draw_circle, draw_circle_ends}
use project_k.Vga.Draw.{Pixels, row_loop, fill_rect}
use project_k.Vga.Lines.{Painted, within, row_loop-endless}
use project_k.Vga.Frames.{fill_rect-Painted}

abbrev crtc : Crtc
crtc = record { index = 0; register = λ r. r }

abbrev dark : Pixels
dark j = 0

vga_text_set_cursor_pos-crtc_test :
    let after = crtc_after crtc (vga_text_set_cursor_pos 79 24 []) in
    (after.register 14 * 256 + after.register 15 ≡ 1999)
    × ((r : ℕ) → r ≢ 14 → r ≢ 15 → after.register r ≡ (crtc_after crtc []).register r)
vga_text_set_cursor_pos-crtc_test =
    vga_text_set_cursor_pos-crtc crtc 79 24 [] (omega arith) (omega arith)

row_loop-endless_test : row_loop 9 65530 65535 20 4 dark ≡ none
row_loop-endless_test = row_loop-endless 9 65530 20 4 dark (omega arith)

fill_rect-Painted_example :
    (mem' : Pixels) × (fill_rect 10 20 100 50 4 dark ≡ some mem')
    × Painted (within 10 20 110 70) 4 dark mem'
fill_rect-Painted_example =
    fill_rect-Painted 10 20 100 50 4 (omega arith) (omega arith) (omega arith) dark

-- The second memory map, from bits 2 and 3 of the answer.
abbrev answer : Hardware
answer bus port = 0xFB

framebuffer_run : libvga_get_framebuffer answer [] ≡ (0xB0000, read 0x3CF 0xFB ∷ wrote 0x3CE 6 ∷ [])
unfolding libvga_get_framebuffer framebuffer
framebuffer_run = refl

disable_run : vga_disable_cursor [] ≡ wrote 0x3D5 32 ∷ wrote 0x3D4 10 ∷ []
unfolding vga_disable_cursor
disable_run = refl

abbrev controller : Indexed
controller = record { index = 0; register = λ r. 255 }

abbrev attributes : Attributes
attributes = record { takes_value = true; index = 0; register = λ r. r }

-- Bit 2 and 3 of the answer, 00: the frame buffer at 0xA0000 before and after.
abbrev low_map : Hardware
low_map bus port = 0xF3

abbrev video : Video
video = at_start (λ a. a % 251) []

draw_circle_ends_example : (mem' : Pixels) × (draw_circle 12 100 100 10 4 dark ≡ some mem')
draw_circle_ends_example = draw_circle_ends 12 100 100 10 4 dark (omega arith) (omega arith)

libvga_write_regs-Programmed_example :
    let bus = libvga_write_regs low_map video.regs_320x200x256 [] in
    Programmed video.regs_320x200x256
      (after (indexed_step 0x3C4 0x3C5) controller bus)
      (after crt_step controller bus)
      (after (indexed_step 0x3CE 0x3CF) controller bus)
      (after attribute_step attributes bus)
libvga_write_regs-Programmed_example =
    libvga_write_regs-Programmed low_map video.regs_320x200x256 [] controller controller controller
      attributes

same_map : (bus : Bus) → (libvga_get_framebuffer low_map bus).0 ≡ 0xA0000
unfolding libvga_get_framebuffer framebuffer
same_map bus = refl

switch_mode3h-mode13h_example :
    let g = libvga_switch_mode13h low_map video in
    let vram =
      (libvga_get_framebuffer low_map (libvga_write_regs low_map video.regs_320x200x256 [])).0 in
    let t = libvga_switch_mode3h low_map (record g { memory = dark }) in
    ((j : ℕ) → j < 64000 → t.memory (vram + j) ≡ video.memory (vram + j))
    × ((a : ℕ) → a < vram → t.memory a ≡ dark a)
    × ((a : ℕ) → vram + 64000 ≤ a → t.memory a ≡ dark a)
switch_mode3h-mode13h_example =
    switch_mode3h-mode13h low_map video dark (same_map _ ∙ sym (same_map _))

-- The last writes of `exit_VGA_graphics`, the newest first.
exit_run : get_or (exit_vga_graphics []) 1 (wrote 0 0) ≡ wrote 0x3C0 0
unfolding exit_vga_graphics send_regs
exit_run = refl
