-- ===== src/Vga/Modes.antt =====
-- The switches between the text mode and the mode of 320 by 200 pixels, of k/libvga.c.
use project_k.Base.{
  ℕ, zero, suc, ◌+◌, ◌-◌, ltb, leb, ◌==◌, ◌&&◌, if◌then◌else◌, get_or, low_bits, bit_or,
}
use project_k.Bus.{Bus, Hardware, outb, inb}
use project_k.Vga.{libvga_set_palette, libvga_get_framebuffer}
use project_k.Vga.Tables.{libvga_regs_320x200x256, libvga_regs_80x25xtext, libvga_default_palette}
use project_k.Vga.Draw.{fill_color, graphic_total_items}

-- The two tables of registers, which `libvga_write_regs` changes, the saved font, the memory of the
-- machine, and the bus.
pub record Video : Type 0 where
  pub regs_320x200x256 : ℕ → ℕ
  pub regs_80x25xtext : ℕ → ℕ
  pub txt_mode_font : ℕ → ℕ
  pub memory : ℕ → ℕ
  pub bus : Bus

-- Before the first switch.
abbrev pub at_start : (memory : ℕ → ℕ) → Bus → Video
at_start memory bus = record {
  regs_320x200x256 = λ k. get_or libvga_regs_320x200x256 k 0;
  regs_80x25xtext = λ k. get_or libvga_regs_80x25xtext k 0;
  txt_mode_font = λ j. 0;
  memory = memory;
  bus = bus;
}

-- A loop that writes registers through an index port, after `n` rounds; the table from `base` on.
unfoldable pub send_regs : (index_port data_port base n : ℕ) → (ℕ → ℕ) → Bus → Bus
send_regs index_port data_port base zero regs bus = bus
send_regs index_port data_port base (suc n) regs bus =
    outb data_port (regs (base + n))
      (outb index_port n (send_regs index_port data_port base n regs bus))

-- `regs[0x03] |= 0x80` and `regs[0x11] &= ~0x80`, with `regs` behind the first 6 bytes.
abbrev pub unlocked : (ℕ → ℕ) → ℕ → ℕ
unlocked regs k =
    if k == 9 then bit_or (regs 9) 0x80 else if k == 23 then low_bits (regs 23) 7 else regs k

module _ (dev : Hardware) where
  -- The protection of the CRT controller is taken off.
  unfoldable pub unlock_crtc : Bus → Bus
  unlock_crtc bus =
      let (a, bus) = inb dev 0x3D5 (outb 0x3D4 0x03 bus) in
      let bus = outb 0x3D5 (bit_or a 0x80) bus in
      let (a, bus) = inb dev 0x3D5 (outb 0x3D4 0x11 bus) in outb 0x3D5 (low_bits a 7) bus

  -- `regs` is the table at the call; from the CRT controller on the changed one is read.
  unfoldable pub libvga_write_regs : (ℕ → ℕ) → Bus → Bus
  libvga_write_regs regs bus =
      let bus = send_regs 0x3C4 0x3C5 1 5 regs (outb 0x3C2 (regs 0) bus) in
      let regs = unlocked regs in
      let bus = send_regs 0x3D4 0x3D5 6 25 regs (unlock_crtc bus) in
      let bus = send_regs 0x3CE 0x3CF 31 9 regs bus in
      let (_, bus) = inb dev 0x3DA bus in
      let bus = send_regs 0x3C0 0x3C0 40 21 regs bus in
      let (_, bus) = inb dev 0x3DA bus in
      libvga_set_palette libvga_default_palette (outb 0x3C6 0xFF (outb 0x3C0 0x20 bus))

  -- The second plane, which holds the font, is saved.
  unfoldable pub libvga_switch_mode13h : Video → Video
  libvga_switch_mode13h v =
      let bus = libvga_write_regs v.regs_320x200x256 v.bus in
      let (vram, bus) = libvga_get_framebuffer dev bus in
      record v {
        regs_320x200x256 = unlocked v.regs_320x200x256;
        txt_mode_font = λ j. if ltb j 64000 then v.memory (vram + j) else v.txt_mode_font j;
        bus = bus;
      }

  unfoldable pub libvga_switch_mode3h : Video → Video
  libvga_switch_mode3h v =
      let (vram, bus) = libvga_get_framebuffer dev v.bus in
      record v {
        regs_80x25xtext = unlocked v.regs_80x25xtext;
        memory = λ a.
            if leb vram a && ltb a (vram + 64000) then v.txt_mode_font (a - vram) else v.memory a;
        bus = libvga_write_regs v.regs_80x25xtext bus;
      }

  unfoldable pub init_vga_graphics : Video → Video
  init_vga_graphics v =
      let v = libvga_switch_mode13h v in
      let pixels = fill_color 0 (λ j. v.memory (0xA0000 + j)) in
      record v {
        memory = λ a.
            if leb 0xA0000 a && ltb a (0xA0000 + graphic_total_items)
            then pixels (a - 0xA0000)
            else v.memory a;
      }

unfoldable pub exit_vga_graphics : Bus → Bus
exit_vga_graphics bus =
    let zeros = λ (k : ℕ). zero in
    let bus = send_regs 0x3C4 0x3C5 0 5 zeros (outb 0x3C2 0x00 bus) in
    let bus = send_regs 0x3D4 0x3D5 0 25 zeros bus in
    let bus = send_regs 0x3CE 0x3CF 0 9 zeros bus in
    outb 0x3C0 0x00 (send_regs 0x3C0 0x3C0 0 21 zeros bus)
