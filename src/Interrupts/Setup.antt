-- ===== src/Interrupts/Setup.antt =====
-- The state of the tables after `init_ISR` and `init_IRQ`.
use project_k.Base.{
  ℕ, zero, suc, ◌+◌, ◌/◌, ◌%◌, ◌^◌, ◌<◌, ◌≡◌, refl, arith, true, not, some, ltb, leb, lt→ltb, ◌∙◌,
  ◌&&◌, ◌==◌, if◌then◌else◌, ◌||◌, u8, bit_or,
}
use project_k.Idt.{Idt, IdtEntry, idt_set_entry, enable_idt_gate, disable_idt_gate}
use project_k.Idt.Gates.{SameGate, is_present, target, present_set}
use project_k.Pic.{init_pic_8259}
use project_k.Interrupts.{
  Kernel, irq_entry, isr_register_handler, isr_initialize_entries, enable_gates, init_isr, init_irq,
  register_lines,
}

-- The entry that `idt_set_entry` writes for a kernel interrupt gate.
abbrev kernel_gate : ℕ → IdtEntry
kernel_gate isr = record {
  base_low = isr % 2 ^ 16;
  segment_selector = 0x08;
  zero = 0;
  kind = 0x0E;
  base_high = isr / 2 ^ 16 % 2 ^ 16;
}

abbrev enabled : IdtEntry → IdtEntry
enabled e = record e { kind = u8 (bit_or e.kind 0x80) }

entries_at :
    (isr : ℕ → ℕ) (n : ℕ) (idt : Idt) (m : ℕ)
    → isr_initialize_entries isr n idt m ≡ (if ltb m n then kernel_gate (isr m) else idt m)
unfolding isr_initialize_entries idt_set_entry
entries_at isr zero idt m = ground arith
entries_at isr (suc n) idt m = ground (arith, entries_at isr n idt m)

gates_at :
    (n : ℕ) (idt : Idt) (m : ℕ)
    → enable_gates n idt m ≡ (if ltb m n then enabled (idt m) else idt m)
unfolding enable_gates enable_idt_gate
gates_at zero idt m = ground arith
gates_at (suc n) idt m = ground (arith, gates_at n idt m, gates_at n idt n)

abbrev looped : (ℕ → ℕ) → Idt → Idt
looped isr idt = enable_gates 256 (isr_initialize_entries isr 256 idt)

looped_at :
    (isr : ℕ → ℕ) (idt : Idt) (m : ℕ)
    → m < 256
    → looped isr idt m ≡ record (kernel_gate (isr m)) { kind = 0x8E }
looped_at isr idt m h =
    let t : ltb m 256 ≡ true = lt→ltb m 256 h in
    gates_at 256 (isr_initialize_entries isr 256 idt) m ∙ rw (entries_at, t)

-- After `init_ISR` each of the 256 gates leads to its assembly entry, in the kernel's code segment
-- and as a 32-bit interrupt gate of ring 0, and is present unless it is the gate 0x80 of system
-- calls.
pub init_isr-gates :
    (isr : ℕ → ℕ) (k : Kernel) (n : ℕ)
    → n < 256
    → isr n < 2 ^ 32
    → let gate = (init_isr isr k).idt n in
      (target gate ≡ isr n)
      × (gate.segment_selector ≡ 0x08)
      × (gate.zero ≡ 0)
      × (gate.kind % 128 ≡ 0x0E)
      × (is_present gate ≡ not (n == 0x80))
unfolding init_isr disable_idt_gate
init_isr-gates isr k n h fits =
    let e = looped_at isr k.idt n h in
    let e' = looped_at isr k.idt 0x80 (omega arith) in
    (
      ground (arith, e, e'),
      ground (arith, e, e'),
      ground (arith, e, e'),
      ground (arith, e, e'),
      ground (arith, e, e'),
    )

lines_at :
    (n : ℕ) (k : Kernel) (m : ℕ)
    → ((register_lines n k).interrupt_handlers m
        ≡ (if leb 32 m && ltb m (32 + n) then some irq_entry else k.interrupt_handlers m))
      × ((register_lines n k).idt m
          ≡ (if leb 32 m && ltb m (32 + n) then enabled (k.idt m) else k.idt m))
unfolding register_lines isr_register_handler enable_idt_gate
lines_at zero k m = ground arith
lines_at (suc n) k m = ground (arith, lines_at n k m, lines_at n k (32 + n))

pub init_irq-entry :
    (k : Kernel) (n : ℕ)
    → (init_irq k).interrupt_handlers n
      ≡ (if leb 32 n && ltb n 48 then some irq_entry else k.interrupt_handlers n)
unfolding init_irq
init_irq-entry k n = (lines_at 16 (record k { bus = init_pic_8259 0x20 0x28 k.bus }) n).0

-- `init_IRQ` gives the vectors 32 to 47 to `IRQ_handler`, makes their gates present and leaves the
-- rest of each gate and every other vector as they were; at the end interrupts are on.
pub init_irq-lines :
    (k : Kernel) (n : ℕ)
    → (k.idt n).kind < 256
    → let after = init_irq k in
      (after.interrupt_handlers n
        ≡ (if leb 32 n && ltb n 48 then some irq_entry else k.interrupt_handlers n))
      × (is_present (after.idt n) ≡ (leb 32 n && ltb n 48 || is_present (k.idt n)))
      × SameGate (after.idt n) (k.idt n)
      × (after.interrupts_on ≡ true)
unfolding init_irq
init_irq-lines k n h =
    let start = record k { bus = init_pic_8259 0x20 0x28 k.bus } in
    let at = lines_at 16 start n in
    let set = present_set (k.idt n).kind h in
    (at.0, ground (arith, at.1, set), ground (arith, at.1, set), refl)
