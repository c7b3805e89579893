-- ===== src/Vga/Registers.antt =====
-- The registers behind the index ports of the VGA, as the writes of `libvga_write_regs` reach them.
use project_k.Base.{
  ℕ, zero, suc, ◌+◌, ◌<◌, ◌≤◌, ◌≡◌, refl, sym, ap, ◌∙◌, arith, ltb, ◌==◌, ==_iff, ◌&&◌, Bool, true,
  false, Bool-cases, inl, inr, if◌then◌else◌, List, [], ◌∷◌, u8, u16, has_bit,
}
use mathlib.Core.Path.{subst}
use project_k.Bus.{Event, wrote, read, Bus, Hardware}
use project_k.Vga.{send_colors, libvga_set_palette}
use project_k.Vga.Modes.{send_regs, unlock_crtc}

-- A device that hears the accesses of the bus.
unfoldable pub after {ℓ} : {S : Type ℓ} → (Event → S → S) → S → Bus → S
after step s [] = s
after step s (e ∷ bus) = step e (after step s bus)

-- The registers of one controller. The sequencer and the graphics controller have an index port and
-- a data port.
pub record Indexed : Type 0 where
  pub index : ℕ
  pub register : ℕ → ℕ

abbrev set_register : Indexed → ℕ → Indexed
set_register c v = record c { register = λ r. if r == c.index then v else c.register r }

unfoldable pub indexed_step : (index_port data_port : ℕ) → Event → Indexed → Indexed
indexed_step index_port data_port (wrote p v) c =
    if p == index_port
    then record c { index = v }
    else if p == data_port
    then set_register c v
    else c
indexed_step index_port data_port (read p v) c = c

-- In the CRT controller bit 7 of the register 0x11 protects the first 8 registers.
unfoldable pub crt_step : Event → Indexed → Indexed
crt_step (wrote p v) c =
    if p == 0x3D4
    then record c { index = v }
    else if p == 0x3D5
    then (if ltb c.index 8 && has_bit (c.register 0x11) 7 then c else set_register c v)
    else c
crt_step (read p v) c = c

-- In the attribute controller one port takes an index and a value in turn, and a read of the port
-- 0x3DA makes the next write an index.
pub record Attributes : Type 0 where
  pub takes_value : Bool
  pub index : ℕ
  pub register : ℕ → ℕ

unfoldable pub attribute_step : Event → Attributes → Attributes
attribute_step (wrote p v) c =
    if p == 0x3C0
    then (if c.takes_value
        then record c {
          takes_value = false;
          register = λ r. if r == c.index then v else c.register r;
        }
        else record c { takes_value = true; index = v })
    else c
attribute_step (read p v) c = if p == 0x3DA then record c { takes_value = false } else c

-- Writes to other ports.
module _ {ℓ} {S : Type ℓ} (step : Event → S → S) (s : S) where
  pub send_regs-ignored :
      (index_port data_port base n : ℕ) (regs : ℕ → ℕ) (bus : Bus)
      → ((v : ℕ) (s : S) → step (wrote (u16 index_port) v) s ≡ s)
      → ((v : ℕ) (s : S) → step (wrote (u16 data_port) v) s ≡ s)
      → after step s (send_regs index_port data_port base n regs bus) ≡ after step s bus
  unfolding send_regs after
  send_regs-ignored index_port data_port base zero regs bus i d = refl
  send_regs-ignored index_port data_port base (suc n) regs bus i d =
      d _ _ ∙ i _ _ ∙ send_regs-ignored index_port data_port base n regs bus i d

  send_colors-ignored :
      (colors : List ℕ) (bus : Bus)
      → ((v : ℕ) (s : S) → step (wrote 0x3C9 v) s ≡ s)
      → after step s (send_colors colors bus) ≡ after step s bus
  unfolding send_colors after
  send_colors-ignored [] bus d = refl
  send_colors-ignored (color ∷ colors) bus d =
      send_colors-ignored colors _ d ∙ d _ _ ∙ d _ _ ∙ d _ _

  pub palette-ignored :
      (colors : List ℕ) (bus : Bus)
      → ((v : ℕ) (s : S) → step (wrote 0x3C9 v) s ≡ s)
      → ((v : ℕ) (s : S) → step (wrote 0x3C8 v) s ≡ s)
      → after step s (libvga_set_palette colors bus) ≡ after step s bus
  unfolding libvga_set_palette after
  palette-ignored colors bus d i = send_colors-ignored colors _ d ∙ i _ _

-- A write of an index and a write of a value are the write of a register.
indexed_pair :
    (index_port data_port n v : ℕ) (c : Indexed)
    → index_port < 65536
    → data_port < 65536
    → (data_port == index_port) ≡ false
    → indexed_step index_port data_port
        (wrote (u16 data_port) v)
        (indexed_step index_port data_port (wrote (u16 index_port) n) c)
      ≡ set_register (record c { index = n }) v
unfolding indexed_step
indexed_pair index_port data_port n v c i d apart =
    let ci : u16 index_port ≡ index_port = omega arith in
    let cd : u16 data_port ≡ data_port = omega arith in
    let same : (index_port == index_port) ≡ true = ground arith in
    let same' : (data_port == data_port) ≡ true = ground arith in rw (ci, cd, same, apart, same')

-- The registers that the loop has reached hold what stands in the table.
module _ (index_port data_port base : ℕ) (regs : ℕ → ℕ) (bus : Bus) (c : Indexed) where
  pub send_regs-indexed :
      (n : ℕ)
      → n ≤ 256
      → index_port < 65536
      → data_port < 65536
      → (data_port == index_port) ≡ false
      → (r : ℕ) → r < n
      → (after
            (indexed_step index_port data_port)
            c
            (send_regs index_port data_port base n regs bus)).register
          r
        ≡ u8 (regs (base + r))
  unfolding send_regs after
  send_regs-indexed zero small i d apart r h = absurd (omega arith)
  send_regs-indexed (suc n) small i d apart r h =
      let before =
        after (indexed_step index_port data_port) c
          (send_regs index_port data_port base n regs bus) in
      let pair = indexed_pair index_port data_port (u8 n) (u8 (regs (base + n))) before i d apart in
      let cut : u8 n ≡ n = omega arith in
      ap (λ (t : Indexed). t.register r) pair
      ∙ rw cut (elim (Bool-cases (r == n)) [
        | inl last ↦ rw last (ap (λ k. u8 (regs (base + k))) (sym ((==_iff r n).0 last)))
        | inr lower ↦
            rw lower (send_regs-indexed n (omega arith) i d apart r (ground (arith, lower)))
      ])

-- In the CRT controller too, while its first registers are not protected.
crt_pair :
    (n v : ℕ) (c : Indexed)
    → c.register 17 < 128
    → crt_step (wrote 0x3D5 v) (crt_step (wrote 0x3D4 n) c)
      ≡ set_register (record c { index = n }) v
unfolding crt_step
crt_pair n v c h =
    let open_ : has_bit (c.register 17) 7 ≡ false = ground (arith, h) in rw open_ (ground arith)

module _ (regs : ℕ → ℕ) (bus : Bus) (c : Indexed) (low : regs 23 < 128) where
  pub send_regs-crt :
      (n : ℕ)
      → n ≤ 25
      → (after crt_step c bus).register 17 < 128
      → let s = after crt_step c (send_regs 0x3D4 0x3D5 6 n regs bus) in
        (s.register 17 < 128) × ((r : ℕ) → r < n → s.register r ≡ u8 (regs (6 + r)))
  unfolding send_regs after
  send_regs-crt zero small e = (e, λ r h. absurd (omega arith))
  send_regs-crt (suc n) small e =
      let before = after crt_step c (send_regs 0x3D4 0x3D5 6 n regs bus) in
      let (unprotected, done) = send_regs-crt n (omega arith) e in
      let pair = crt_pair (u8 n) (u8 (regs (6 + n))) before unprotected in
      let cut : u8 n ≡ n = omega arith in
      (
        rw (pair, cut)
            (elim (Bool-cases (17 == n)) [
              | inl here ↦
                  let at : n ≡ 17 = ground (arith, here) in
                  rw here (subst (λ t. u8 (regs (6 + t)) < 128) (sym at) (omega (arith, low)))
              | inr other ↦ rw other unprotected
            ]),
        λ r h.
            rw (pair, cut)
              (elim (Bool-cases (r == n)) [
                | inl last ↦ rw last (ap (λ k. u8 (regs (6 + k))) (sym ((==_iff r n).0 last)))
                | inr lower ↦ rw lower (done r (ground (arith, lower)))
              ]),
      )

module _ (regs : ℕ → ℕ) (bus : Bus) (c : Attributes) where
  pub send_regs-attributes :
      (n : ℕ)
      → n ≤ 256
      → (after attribute_step c bus).takes_value ≡ false
      → let s = after attribute_step c (send_regs 0x3C0 0x3C0 40 n regs bus) in
        (s.takes_value ≡ false) × ((r : ℕ) → r < n → s.register r ≡ u8 (regs (40 + r)))
  unfolding send_regs after attribute_step
  send_regs-attributes zero small e = (e, λ r h. absurd (omega arith))
  send_regs-attributes (suc n) small e =
      let (turn, done) = send_regs-attributes n (omega arith) e in
      let cut : u8 n ≡ n = omega arith in
      (
        rw turn refl,
        λ r h.
            rw (turn, cut)
              (elim (Bool-cases (r == n)) [
                | inl last ↦ rw last (ap (λ k. u8 (regs (40 + k))) (sym ((==_iff r n).0 last)))
                | inr lower ↦ rw lower (done r (ground (arith, lower)))
              ]),
      )

-- What the writes before the loop do: the register 0x11 loses its protection bit.
pub unlock_crtc-open :
    (dev : Hardware) (c : Indexed) (bus : Bus)
    → (after crt_step c (unlock_crtc dev bus)).register 17 < 128
unfolding unlock_crtc after crt_step
unlock_crtc-open dev c bus = omega arith
