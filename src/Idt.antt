-- ===== src/Idt.antt =====
-- The interrupt descriptor table: k/idt.c with k/include/k/idt.h. `idt_entries` is a function of
-- the interrupt number; `load_idt` is assembly and has no model.
pub mod Gates
mod Tests
use project_k.Base.{
  ℕ, ◌+◌, ◌-◌, ◌*◌, ◌/◌, ◌%◌, ◌^◌, ◌==◌, if◌then◌else◌, u8, u16, shr, low_bits, bit_and, bit_or,
}

pub record IdtEntry : Type 0 where
  pub base_low : ℕ
  pub segment_selector : ℕ
  pub zero : ℕ
  pub kind : ℕ
  pub base_high : ℕ

abbrev pub Idt : Type 0
Idt = ℕ → IdtEntry

abbrev pub nb_of_interrupt_entries : ℕ
nb_of_interrupt_entries = 256

-- `idt_entries[n] = e`.
unfoldable pub put_entry : Idt → ℕ → IdtEntry → Idt
put_entry idt n e m = if m == n then e else idt m

unfoldable pub idt_set_entry : ℕ → ℕ → ℕ → ℕ → Idt → Idt
unfolding put_entry
idt_set_entry intnum isr selector flags idt = put_entry idt intnum (record {
  base_low = low_bits isr 16;
  segment_selector = u16 selector;
  zero = 0;
  kind = u8 flags;
  base_high = low_bits (shr isr 16) 16;
})

-- The field `type`, a keyword of this language, is called `kind`.
unfoldable pub enable_idt_gate : ℕ → Idt → Idt
unfolding put_entry
enable_idt_gate intnum idt =
    put_entry idt intnum (record (idt intnum) { kind = u8 (bit_or (idt intnum).kind 0x80) })

-- `type &= ~IDT_FLAG_PRESENT` on a byte.
unfoldable pub disable_idt_gate : ℕ → Idt → Idt
unfolding put_entry
disable_idt_gate intnum idt =
    put_entry idt intnum
      (record (idt intnum) { kind = u8 (bit_and (idt intnum).kind (255 - 0x80)) })
