-- ===== src/Interrupts.antt =====
-- Interrupt dispatch: k/isr.c, k/irq.c and the table of k/isr_init_entries.h. The drivers' own
-- handlers and the assembly are parameters.
pub mod Setup
pub mod Dispatch
mod Tests
use project_k.Base.{
  ℕ, zero, suc, ◌+◌, ◌-◌, ◌%◌, ◌^◌, ◌==◌, leb, u8, if◌then◌else◌, Bool, true, Option, none, some,
  List, ◌∷◌,
}
use project_k.Bus.{Bus, Hardware}
use project_k.Idt.{Idt, idt_set_entry, enable_idt_gate, disable_idt_gate, nb_of_interrupt_entries}
use project_k.Pic.{init_pic_8259, send_pic_eoi, read_irq_request_register, read_in_service_register}

-- What the assembly has pushed when C code is entered.
pub record Registers : Type 0 where
  pub ds : ℕ
  pub edi : ℕ
  pub esi : ℕ
  pub ebp : ℕ
  pub esp : ℕ
  pub ebx : ℕ
  pub edx : ℕ
  pub ecx : ℕ
  pub eax : ℕ
  pub int_no : ℕ
  pub err_code : ℕ
  pub eip : ℕ
  pub cs : ℕ
  pub eflags : ℕ
  pub user_esp : ℕ
  pub ss : ℕ

-- The address of a driver's handler.
abbrev pub Driver : Type 0
Driver = ℕ

-- What `interrupt_handlers` holds: `IRQ_handler`, or the address of another function.
pub data IsrHandler : Type 0 where
  irq_entry : IsrHandler
  other : Driver → IsrHandler

-- The lines printed on the serial port.
pub data Message : Type 0 where
  unhandled_irq : ℕ → ℕ → ℕ → Message
  unhandled_interrupt : ℕ → Message
  unhandled_exception : ℕ → Message
  registers : Registers → Message

pub record Kernel : Type 0 where
  pub idt : Idt
  pub interrupt_handlers : ℕ → Option IsrHandler
  pub irq_handlers_map : ℕ → Option Driver
  pub bus : Bus
  pub log : List Message
  pub interrupts_on : Bool
  pub panicked : Bool

abbrev pub pic_remap_offset : ℕ
pic_remap_offset = 0x20

abbrev update {ℓ} : {A : Type ℓ} → (ℕ → A) → ℕ → A → ℕ → A
update f n a m = if m == n then a else f m

-- `ISR_RegisterHandler` and `IRQ_RegisterHandler`.
unfoldable pub isr_register_handler : ℕ → IsrHandler → Kernel → Kernel
isr_register_handler int_no handler k = record k {
  interrupt_handlers = update k.interrupt_handlers int_no (some handler);
  idt = enable_idt_gate int_no k.idt;
}

unfoldable pub irq_register_handler : ℕ → Driver → Kernel → Kernel
irq_register_handler irq handler k = record k {
  irq_handlers_map = update k.irq_handlers_map irq (some handler);
}

-- `ISR_InitializeEntries`: `isr n` is the address of the assembly entry `ISR_n`. The call for `n`
-- is the last of the first `n + 1`.
unfoldable pub isr_initialize_entries : (isr : ℕ → ℕ) → ℕ → Idt → Idt
isr_initialize_entries isr zero idt = idt
isr_initialize_entries isr (suc n) idt =
    idt_set_entry n (isr n) 0x08 0x0E (isr_initialize_entries isr n idt)

-- The loop of `init_ISR`, after `n` rounds.
unfoldable pub enable_gates : ℕ → Idt → Idt
enable_gates zero idt = idt
enable_gates (suc n) idt = enable_idt_gate n (enable_gates n idt)

unfoldable pub init_isr : (isr : ℕ → ℕ) → Kernel → Kernel
init_isr isr k = record k {
  idt = disable_idt_gate 0x80 (
      enable_gates nb_of_interrupt_entries
        (isr_initialize_entries isr nb_of_interrupt_entries k.idt));
}

-- The loop of `init_IRQ`, after `n` rounds.
unfoldable pub register_lines : ℕ → Kernel → Kernel
register_lines zero k = k
register_lines (suc n) k =
    isr_register_handler (pic_remap_offset + n) irq_entry (register_lines n k)

unfoldable pub init_irq : Kernel → Kernel
init_irq k =
    let k = record k { bus = init_pic_8259 pic_remap_offset (pic_remap_offset + 8) k.bus } in
    record (register_lines 16 k) { interrupts_on = true }

module _ (dev : Hardware) (run : Driver → Registers → Kernel → Kernel) where
  -- The branch of `IRQ_handler`: the driver of the line, or a message.
  unfoldable pub serve : Option Driver → ℕ → ℕ → ℕ → Registers → Kernel → Kernel
  serve (some handler) irq pic_isr pic_irr regs k = run handler regs k
  serve none irq pic_isr pic_irr regs k = record k {
    log = unhandled_irq irq pic_isr pic_irr ∷ k.log;
  }

  unfoldable pub irq_handler : Registers → Kernel → Kernel
  irq_handler regs k =
      let irq = regs.int_no - pic_remap_offset in
      let (pic_isr, bus) = read_in_service_register dev k.bus in
      let (pic_irr, bus) = read_irq_request_register dev bus in
      let k = record k { bus = bus } in
      let k = serve (k.irq_handlers_map irq) irq (u8 pic_isr) (u8 pic_irr) regs k in
      record k { bus = send_pic_eoi irq k.bus }

  -- The branches of `ISR_handler`; `kernel_panic` does not return.
  unfoldable pub dispatch : Option IsrHandler → Registers → Kernel → Kernel
  dispatch (some irq_entry) regs k = irq_handler regs k
  dispatch (some (other handler)) regs k = run handler regs k
  dispatch none regs k =
      if leb 32 regs.int_no
      then record k { log = unhandled_interrupt regs.int_no ∷ k.log }
      else record k {
        log = registers regs ∷ unhandled_exception regs.int_no ∷ k.log;
        panicked = true;
      }

  unfoldable pub isr_handler : Registers → Kernel → Kernel
  isr_handler regs k = dispatch (k.interrupt_handlers regs.int_no) regs k
