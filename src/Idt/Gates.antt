-- ===== src/Idt/Gates.antt =====
-- What the operations on the table do to each gate.
use project_k.Base.{
  ℕ, ◌+◌, ◌-◌, ◌*◌, ◌%◌, ◌^◌, ◌<◌, ◌≡◌, refl, ◌≢◌, arith, Bool, true, false, ◌==◌, ==_iff, has_bit,
  u8, bit_or, bit_and,
}
use project_k.Base.Tables.{every, every-holds}
use project_k.Idt.{Idt, IdtEntry, idt_set_entry, enable_idt_gate, disable_idt_gate}

-- The bit by which the processor knows that a gate may be used.
abbrev pub is_present : IdtEntry → Bool
is_present e = has_bit e.kind 7

-- The address that the processor puts together from a gate.
abbrev pub target : IdtEntry → ℕ
target e = e.base_high * 2 ^ 16 + e.base_low

-- All but the present bit is the same.
pub record SameGate (a b : IdtEntry) : Type 0 where
  pub low : a.base_low ≡ b.base_low
  pub selector : a.segment_selector ≡ b.segment_selector
  pub zero : a.zero ≡ b.zero
  pub flags : a.kind % 128 ≡ b.kind % 128
  pub high : a.base_high ≡ b.base_high

set_present : ℕ → Bool
set_present x = (u8 (bit_or x 0x80) == x % 128 + 128)

clear_present : ℕ → Bool
clear_present x = (u8 (bit_and x (255 - 0x80)) == x % 128)

pub present_set : (x : ℕ) → x < 256 → u8 (bit_or x 0x80) ≡ x % 128 + 128
unfolding set_present
present_set x h = (==_iff _ _).0 (every-holds _ table x h)
  where
    table : every 256 set_present ≡ true
    table = unfold every in refl

pub present_cleared : (x : ℕ) → x < 256 → u8 (bit_and x (255 - 0x80)) ≡ x % 128
unfolding clear_present
present_cleared x h = (==_iff _ _).0 (every-holds _ table x h)
  where
    table : every 256 clear_present ≡ true
    table = unfold every in refl

module _ (intnum : ℕ) (idt : Idt) where
  -- `idt_set_entry` puts into the gate an address below 2^32, a selector below 2^16 and flags below
  -- 2^8 as given, with the unused byte 0, and changes no other gate.
  pub idt_set_entry_lem :
      (isr selector flags : ℕ)
      → isr < 2 ^ 32
      → selector < 2 ^ 16
      → flags < 2 ^ 8
      → let after = idt_set_entry intnum isr selector flags idt in
        (target (after intnum) ≡ isr)
        × ((after intnum).segment_selector ≡ selector)
        × ((after intnum).kind ≡ flags)
        × ((after intnum).zero ≡ 0)
        × ((m : ℕ) → m ≢ intnum → after m ≡ idt m)
  unfolding idt_set_entry
  idt_set_entry_lem isr selector flags h1 h2 h3 =
      (ground arith, ground arith, ground arith, ground arith, λ m ne. ground arith)

  -- `enable_idt_gate` sets the present bit of a gate, and changes nothing else of it, nor any other.
  pub enable_idt_gate_lem :
      (idt intnum).kind < 256
      → let after = enable_idt_gate intnum idt in
        (is_present (after intnum) ≡ true)
        × SameGate (after intnum) (idt intnum)
        × ((m : ℕ) → m ≢ intnum → after m ≡ idt m)
  unfolding enable_idt_gate
  enable_idt_gate_lem h = (
    ground (arith, present_set (idt intnum).kind h),
    ground (arith, present_set (idt intnum).kind h),
    λ m ne. ground arith,
  )

  -- `disable_idt_gate` clears the present bit of a gate, and changes nothing else of it, nor any
  -- other.
  pub disable_idt_gate_lem :
      (idt intnum).kind < 256
      → let after = disable_idt_gate intnum idt in
        (is_present (after intnum) ≡ false)
        × SameGate (after intnum) (idt intnum)
        × ((m : ℕ) → m ≢ intnum → after m ≡ idt m)
  unfolding disable_idt_gate
  disable_idt_gate_lem h = (
    ground (arith, present_cleared (idt intnum).kind h),
    ground (arith, present_cleared (idt intnum).kind h),
    λ m ne. ground arith,
  )
