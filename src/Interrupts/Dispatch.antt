-- ===== src/Interrupts/Dispatch.antt =====
-- What `ISR_handler` and `IRQ_handler` do with an interrupt.
use project_k.Base.{
  ℕ, ◌+◌, ◌-◌, ◌/◌, ◌<◌, ◌≡◌, refl, ap, ◌∙◌, arith, true, leb, ◌==◌, ◌&&◌, if◌then◌else◌, none,
  some, List, [], ◌∷◌, ◌++◌,
}
use project_k.Bus.{Bus, Hardware, wrote, read}
use project_k.Pic.{send_pic_eoi, read_register}
use project_k.Interrupts.{
  Driver, Registers, registers, unhandled_interrupt, unhandled_exception, Kernel, irq_entry,
  isr_handler, irq_handler, dispatch, serve,
}

module _ (dev : Hardware) (run : Driver → Registers → Kernel → Kernel) (regs : Registers) where
  -- The kernel after the two register reads that `IRQ_handler` begins with.
  abbrev pub polled : Kernel → Kernel
  polled k = record k { bus = (read_register dev 0x0A (read_register dev 0x0B k.bus).1).1 }

  -- An interrupt of one of the 16 lines whose vector belongs to `IRQ_handler` and which has a
  -- driver runs that driver, once, after the two register reads; then the interrupt is
  -- acknowledged: by the second chip for the lines from 8 on, and by the first as the last access
  -- of the bus. Nothing else of what the driver left changes.
  pub isr_handler-driver :
      (k : Kernel) (irq : ℕ) (driver : Driver)
      → irq < 16
      → regs.int_no ≡ 32 + irq
      → k.interrupt_handlers (32 + irq) ≡ some irq_entry
      → k.irq_handlers_map irq ≡ some driver
      → let served = run driver regs (polled k) in
        isr_handler dev run regs k ≡ record served {
          bus = wrote 0x20 0x20 ∷ (if leb 8 irq then wrote 0xA0 0x20 ∷ served.bus else served.bus);
        }
  unfolding isr_handler dispatch irq_handler serve send_pic_eoi
  isr_handler-driver k irq driver h n entry mapped =
      let line : regs.int_no - 32 ≡ irq = omega arith in
      let entry' : k.interrupt_handlers regs.int_no ≡ some irq_entry =
        ap k.interrupt_handlers n ∙ entry in
      let mapped' : k.irq_handlers_map (regs.int_no - 32) ≡ some driver =
        ap k.irq_handlers_map line ∙ mapped in
      rw (entry', mapped', line) refl

  -- An interrupt with no entry in `interrupt_handlers` runs no driver: below 32 it is reported
  -- with the registers and the kernel panics, from 32 on it is reported and the kernel goes on.
  pub isr_handler-unhandled :
      (k : Kernel)
      → k.interrupt_handlers regs.int_no ≡ none
      → isr_handler dev run regs k ≡ (
          if leb 32 regs.int_no
          then record k { log = unhandled_interrupt regs.int_no ∷ k.log }
          else record k {
            log = registers regs ∷ unhandled_exception regs.int_no ∷ k.log;
            panicked = true;
          })
  unfolding isr_handler dispatch
  isr_handler-unhandled k e = rw e

-- The lines that a controller has in service, the one of the highest priority first, after the accesses
-- of a bus: a command with the bits 00100 above its lowest three, the end of an interrupt that is not
-- specific, ends the first of them.
abbrev pub ended : List ℕ → List ℕ
ended [] = []
ended (line ∷ lines) = lines

unfoldable pub in_service : (port : ℕ) → List ℕ → Bus → List ℕ
in_service port lines [] = lines
in_service port lines (wrote p v ∷ bus) =
    let before = in_service port lines bus in
    if p == port && v / 8 == 4 then ended before else before
in_service port lines (read p v ∷ bus) = in_service port lines bus

-- What a driver does on the bus ends no interrupt.
abbrev pub EndsNone : (Registers → Kernel → Kernel) → Registers → Type 0
EndsNone driver regs =
    (k : Kernel)
    → (own : Bus) × ((driver regs k).bus ≡ own ++ k.bus)
      × ((lines : List ℕ) → in_service 0x20 lines own ≡ lines)
      × ((lines : List ℕ) → in_service 0xA0 lines own ≡ lines)

-- The accesses of `send_PIC_EOI`.
abbrev eoi : (irq : ℕ) → Bus
eoi irq = if leb 8 irq then wrote 0x20 0x20 ∷ wrote 0xA0 0x20 ∷ [] else wrote 0x20 0x20 ∷ []
