-- ===== src/Vga/Switch.antt =====
-- What a switch of the mode leaves in the registers, and what two of them leave in the memory.
use project_k.Base.{
  ℕ, ◌∷◌, ◌+◌, ◌-◌, ◌<◌, ◌≤◌, ◌≡◌, refl, ap, ◌∙◌, arith, ltb, leb, ◌==◌, ◌&&◌, true, false,
  if◌then◌else◌, u8,
}
use project_k.Bus.{wrote, read, Bus, Hardware}
use project_k.Vga.{libvga_get_framebuffer}
use project_k.Vga.Tables.{libvga_default_palette}
use project_k.Vga.Modes.{
  Video, send_regs, unlocked, unlock_crtc, libvga_write_regs, libvga_switch_mode13h,
  libvga_switch_mode3h,
}
use project_k.Vga.Registers.{
  after, Indexed, indexed_step, crt_step, Attributes, attribute_step, send_regs-ignored,
  palette-ignored, send_regs-indexed, send_regs-crt, send_regs-attributes, unlock_crtc-open,
}

-- The four controllers hold a table of registers.
pub record Programmed (regs : ℕ → ℕ) (sequencer crt graphics : Indexed) (attributes : Attributes)
    : Type 0 where
  pub in_sequencer : (r : ℕ) → r < 5 → sequencer.register r ≡ u8 (regs (1 + r))
  pub in_crt : (r : ℕ) → r < 25 → crt.register r ≡ u8 (unlocked regs (6 + r))
  pub in_graphics : (r : ℕ) → r < 9 → graphics.register r ≡ u8 (regs (31 + r))
  pub in_attributes : (r : ℕ) → r < 21 → attributes.register r ≡ u8 (regs (40 + r))

attributes_tail :
    (regs : ℕ → ℕ) (x y : ℕ) (bus : Bus) (c : Attributes) (r : ℕ)
    → r < 21
    → (after attribute_step c (
          wrote 0x3C6 0xFF
          ∷ wrote 0x3C0 0x20
          ∷ read 0x3DA x
          ∷ send_regs 0x3C0 0x3C0 40 21 regs (read 0x3DA y ∷ bus))).register
        r
      ≡ u8 (regs (40 + r))
unfolding after attribute_step
attributes_tail regs x y bus c r h =
    let (turn, done) = send_regs-attributes regs (read 0x3DA y ∷ bus) c 21 (omega arith) refl in
    rw turn (done r h)

module _ (dev : Hardware) (regs : ℕ → ℕ) (bus : Bus) where
  sequencer_holds :
      (c : Indexed) (r : ℕ)
      → r < 5
      → (after (indexed_step 0x3C4 0x3C5) c (libvga_write_regs dev regs bus)).register r
        ≡ u8 (regs (1 + r))
  unfolding libvga_write_regs unlock_crtc after indexed_step
  sequencer_holds c r h =
      let step = indexed_step 0x3C4 0x3C5 in
      rw
        (
          palette-ignored step c libvga_default_palette _ (λ v s. refl) (λ v s. refl),
          send_regs-ignored step c 0x3C0 0x3C0 40 21 (unlocked regs) _ (λ v s. refl) (λ v s. refl),
          send_regs-ignored step c 0x3CE 0x3CF 31 9 (unlocked regs) _ (λ v s. refl) (λ v s. refl),
          send_regs-ignored step c 0x3D4 0x3D5 6 25 (unlocked regs) _ (λ v s. refl) (λ v s. refl),
        )
        (send_regs-indexed 0x3C4 0x3C5 1 regs _ c 5 (omega arith) (omega arith) (omega arith) refl r
          h)

  crt_holds :
      (c : Indexed) (r : ℕ)
      → r < 25
      → (after crt_step c (libvga_write_regs dev regs bus)).register r ≡ u8 (unlocked regs (6 + r))
  unfolding libvga_write_regs after crt_step
  crt_holds c r h =
      rw
        (
          palette-ignored crt_step c libvga_default_palette _ (λ v s. refl) (λ v s. refl),
          send_regs-ignored crt_step c 0x3C0 0x3C0 40 21 (unlocked regs) _ (λ v s. refl)
              (λ v s. refl),
          send_regs-ignored crt_step c 0x3CE 0x3CF 31 9 (unlocked regs) _ (λ v s. refl)
              (λ v s. refl),
        )
        ((send_regs-crt (unlocked regs) _ c (omega arith) 25 (omega arith)
            (unlock_crtc-open dev c _)).1
          r h)

  graphics_holds :
      (c : Indexed) (r : ℕ)
      → r < 9
      → (after (indexed_step 0x3CE 0x3CF) c (libvga_write_regs dev regs bus)).register r
        ≡ u8 (regs (31 + r))
  unfolding libvga_write_regs after indexed_step
  graphics_holds c r h =
      let step = indexed_step 0x3CE 0x3CF in
      let a : (31 + r == 9) ≡ false = ground arith in
      let b : (31 + r == 23) ≡ false = ground arith in
      rw
        (
          palette-ignored step c libvga_default_palette _ (λ v s. refl) (λ v s. refl),
          send_regs-ignored step c 0x3C0 0x3C0 40 21 (unlocked regs) _ (λ v s. refl) (λ v s. refl),
        )
        (send_regs-indexed 0x3CE 0x3CF 31 (unlocked regs) _ c 9 (omega arith) (omega arith)
            (omega arith) refl r h
          ∙ rw (a, b))

  attributes_hold :
      (c : Attributes) (r : ℕ)
      → r < 21
      → (after attribute_step c (libvga_write_regs dev regs bus)).register r ≡ u8 (regs (40 + r))
  unfolding libvga_write_regs after attribute_step
  attributes_hold c r h =
      let a : (40 + r == 9) ≡ false = ground arith in
      let b : (40 + r == 23) ≡ false = ground arith in
      ap (λ (t : Attributes). t.register r)
        (palette-ignored attribute_step c libvga_default_palette _ (λ v s. refl) (λ v s. refl))
      ∙ attributes_tail (unlocked regs) 0 _ _ c r h
      ∙ rw (a, b)

-- After `libvga_write_regs` the sequencer, the CRT controller, the graphics controller and the
-- attribute controller hold the table, the CRT controller with bit 7 set in the register 3 and clear in
-- the register 0x11; whatever they held before, the first registers of the CRT controller protected or
-- not, the attribute controller in the middle of a write or not, and whatever the hardware answers.
pub libvga_write_regs-Programmed :
    (dev : Hardware) (regs : ℕ → ℕ) (bus : Bus) (sequencer crt graphics : Indexed)
    (attributes : Attributes)
    → let bus = libvga_write_regs dev regs bus in
      Programmed regs
        (after (indexed_step 0x3C4 0x3C5) sequencer bus)
        (after crt_step crt bus)
        (after (indexed_step 0x3CE 0x3CF) graphics bus)
        (after attribute_step attributes bus)
libvga_write_regs-Programmed dev regs bus sequencer crt graphics attributes = record {
  in_sequencer = sequencer_holds dev regs bus sequencer;
  in_crt = crt_holds dev regs bus crt;
  in_graphics = graphics_holds dev regs bus graphics;
  in_attributes = attributes_hold dev regs bus attributes;
}

font_back :
    (memory old drawn : ℕ → ℕ) (vram : ℕ)
    → let font = λ (j : ℕ). if ltb j 64000 then memory (vram + j) else old j in
      let t = λ (a : ℕ). if leb vram a && ltb a (vram + 64000) then font (a - vram) else drawn a in
      ((j : ℕ) → j < 64000 → t (vram + j) ≡ memory (vram + j))
      × ((a : ℕ) → a < vram → t a ≡ drawn a)
      × ((a : ℕ) → vram + 64000 ≤ a → t a ≡ drawn a)
font_back memory old drawn vram = (
  λ j h.
      let inside : (leb vram (vram + j) && ltb (vram + j) (vram + 64000)) ≡ true = ground arith in
      let back : vram + j - vram ≡ j = omega arith in
      let saved : ltb j 64000 ≡ true = ground arith in rw (inside, back, saved),
  λ a h. let outside : (leb vram a && ltb a (vram + 64000)) ≡ false = ground arith in rw outside,
  λ a h. let outside : (leb vram a && ltb a (vram + 64000)) ≡ false = ground arith in rw outside,
)

-- The 64000 bytes at the frame buffer that `libvga_switch_mode13h` finds are there again after
-- `libvga_switch_mode3h`, whatever was drawn in between, if that finds the same frame buffer; and
-- nothing else of the memory has changed since the drawing.
pub switch_mode3h-mode13h :
    (dev : Hardware) (v : Video) (drawn : ℕ → ℕ)
    → let g = libvga_switch_mode13h dev v in
      let vram = (libvga_get_framebuffer dev (libvga_write_regs dev v.regs_320x200x256 v.bus)).0 in
      (libvga_get_framebuffer dev g.bus).0 ≡ vram
      → let t = libvga_switch_mode3h dev (record g { memory = drawn }) in
        ((j : ℕ) → j < 64000 → t.memory (vram + j) ≡ v.memory (vram + j))
        × ((a : ℕ) → a < vram → t.memory a ≡ drawn a)
        × ((a : ℕ) → vram + 64000 ≤ a → t.memory a ≡ drawn a)
unfolding libvga_switch_mode13h libvga_switch_mode3h
switch_mode3h-mode13h dev v drawn same = rw same (
    font_back v.memory v.txt_mode_font drawn
      (libvga_get_framebuffer dev (libvga_write_regs dev v.regs_320x200x256 v.bus)).0)
