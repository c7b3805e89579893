-- ===== src/Pic/Masks.antt =====
-- What `IRQ_set_mask` and `IRQ_clear_mask` write: one bit changes, of one chip.
use project_k.Base.{
  ℕ, ◌/◌, ◌%◌, ◌<◌, ◌≡◌, refl, arith, Bool, true, false, ◌&&◌, ◌||◌, not, ◌==◌, if◌then◌else◌, ◌∷◌,
  has_bit, u8,
}
use project_k.Base.Tables.{every, every-holds}
use project_k.Bus.{Bus, Hardware, wrote, read}
use project_k.Pic.{
  pic1_data, pic2_data, mask_port, mask_line, masked, unmasked, irq_set_mask, irq_clear_mask,
}

abbrev same : Bool → Bool → Bool
same true b = b
same false b = not b

same_eq : (a b : Bool) → same a b ≡ true → a ≡ b
same_eq true b h = ground arith
same_eq false b h = ground arith

-- Bit `k` of the byte, for every byte, line and bit.
masked_bit : ℕ → ℕ → ℕ → Bool
masked_bit line k value = same (has_bit (masked value line) k) ((k == line) || has_bit value k)

unmasked_bit : ℕ → ℕ → ℕ → Bool
unmasked_bit line k value =
    same (has_bit (unmasked value line) k) (not (k == line) && has_bit value k)

masked_table : every 8 (λ line. every 8 (λ k. every 256 (masked_bit line k))) ≡ true
unfolding every masked_bit masked
masked_table = refl

unmasked_table : every 8 (λ line. every 8 (λ k. every 256 (unmasked_bit line k))) ≡ true
unfolding every unmasked_bit unmasked
unmasked_table = refl

module _ (line k value : ℕ) (line_fits : line < 8) (k_fits : k < 8) (fits : value < 256) where
  pub masked_bits : has_bit (masked value line) k ≡ ((k == line) || has_bit value k)
  unfolding masked_bit
  masked_bits = same_eq _ _ (
      every-holds _ (every-holds _ (every-holds _ masked_table line line_fits) k k_fits) value fits)

  pub unmasked_bits : has_bit (unmasked value line) k ≡ (not (k == line) && has_bit value k)
  unfolding unmasked_bit
  unmasked_bits = same_eq _ _ (
      every-holds _ (every-holds _ (every-holds _ unmasked_table line line_fits) k k_fits) value
        fits)

-- The mask bit of an interrupt among the 16: the chip that owns it, and its bit there.
abbrev pub OnlyBit : (Bool → Bool) → ℕ → ℕ → ℕ → Type 0
OnlyBit change irq before after =
    (k : ℕ)
    → k < 8
    → has_bit after k ≡ (if k == irq % 8 then change (has_bit before k) else has_bit before k)

masked-byte : (value line : ℕ) → u8 (masked value line) ≡ masked value line
unfolding masked
masked-byte value line = omega arith

unmasked-byte : (value line : ℕ) → u8 (unmasked value line) ≡ unmasked value line
unfolding unmasked
unmasked-byte value line = omega arith

mask_line-mod : (irq : ℕ) → irq < 16 → mask_line irq ≡ irq % 8
mask_line-mod irq h = ground arith

-- The data port of the chip that owns the line: 8 lines each.
abbrev pub owner : ℕ → ℕ
owner irq = if irq / 8 == 0 then pic1_data else pic2_data

mask_port-owner : (irq : ℕ) → irq < 16 → mask_port irq ≡ owner irq
mask_port-owner irq h = ground arith

module _ (dev : Hardware) (irq : ℕ) (bus : Bus) (h : irq < 16) where
  abbrev before : ℕ
  before = u8 (dev bus (owner irq))

  -- For each of the 16 lines, `IRQ_set_mask` reads the data port of the chip that owns the line
  -- and writes back, to the same port, a byte in which the line's bit is 1 and every other bit
  -- is as read.
  pub irq_set_mask-OnlyBit :
      (after : ℕ) × (irq_set_mask dev irq bus
        ≡ wrote (owner irq) after ∷ read (owner irq) before ∷ bus)
      × OnlyBit (λ _. true) irq before after
  unfolding irq_set_mask
  irq_set_mask-OnlyBit = (
    masked before (mask_line irq),
    rw (mask_port-owner irq h) (ground (arith, masked-byte before (mask_line irq))),
    λ k k_fits. ground (
      arith,
      mask_line-mod irq h,
      masked_bits (irq % 8) k before (omega arith) k_fits (omega arith),
    ),
  )

  -- For each of the 16 lines, `IRQ_clear_mask` reads the data port of the chip that owns the line
  -- and writes back, to the same port, a byte in which the line's bit is 0 and every other bit
  -- is as read.
  pub irq_clear_mask-OnlyBit :
      (after : ℕ) × (irq_clear_mask dev irq bus
        ≡ wrote (owner irq) after ∷ read (owner irq) before ∷ bus)
      × OnlyBit (λ _. false) irq before after
  unfolding irq_clear_mask
  irq_clear_mask-OnlyBit = (
    unmasked before (mask_line irq),
    rw (mask_port-owner irq h) (ground (arith, unmasked-byte before (mask_line irq))),
    λ k k_fits. ground (
      arith,
      mask_line-mod irq h,
      unmasked_bits (irq % 8) k before (omega arith) k_fits (omega arith),
    ),
  )
