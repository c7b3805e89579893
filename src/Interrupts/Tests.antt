-- ===== src/Interrupts/Tests.antt =====
-- A kernel with one driver, on line 1.
use project_k.Base.{
  ℕ, ◌+◌, ◌*◌, ◌%◌, ◌≡◌, refl, true, false, ◌==◌, leb, ltb, ◌&&◌, if◌then◌else◌, none, some, arith,
  [], ◌∷◌,
}
use project_k.Bus.{Bus, Hardware, wrote}
use project_k.Idt.{Idt}
use project_k.Idt.Gates.{SameGate, is_present, target}
use project_k.Interrupts.{
  Driver, Registers, registers, unhandled_exception, Kernel, irq_entry, init_isr, init_irq,
  isr_handler,
}
use project_k.Interrupts.Setup.{init_isr-gates, init_irq-lines}
use project_k.Interrupts.Dispatch.{polled, isr_handler-driver, isr_handler-unhandled}

abbrev answer : Hardware
answer bus port = 0

-- A driver that writes its own number to port 0x99.
abbrev run : Driver → Registers → Kernel → Kernel
run driver regs k = record k { bus = wrote 0x99 driver ∷ k.bus }

abbrev zeros : Idt
zeros n = record { base_low = 0; segment_selector = 0; zero = 0; kind = 0; base_high = 0 }

abbrev kernel : Kernel
kernel = record {
  idt = zeros;
  interrupt_handlers = λ n. if leb 32 n && ltb n 48 then some irq_entry else none;
  irq_handlers_map = λ irq. if irq == 1 then some 7 else none;
  bus = [];
  log = [];
  interrupts_on = false;
  panicked = false;
}

abbrev interrupted : ℕ → Registers
interrupted n = record {
  ds = 0x10;
  edi = 0;
  esi = 0;
  ebp = 0;
  esp = 0;
  ebx = 0;
  edx = 0;
  ecx = 0;
  eax = 0;
  int_no = n;
  err_code = 0;
  eip = 0;
  cs = 8;
  eflags = 0;
  user_esp = 0;
  ss = 0;
}

init_isr-gates_example :
    let gate = (init_isr (λ n. 0x100000 + 16 * n) kernel).idt 0x80 in
    (target gate ≡ 0x100800)
    × (gate.segment_selector ≡ 0x08)
    × (gate.zero ≡ 0)
    × (gate.kind % 128 ≡ 0x0E)
    × (is_present gate ≡ false)
init_isr-gates_example =
    init_isr-gates (λ n. 0x100000 + 16 * n) kernel 0x80 (omega arith) (omega arith)

init_irq_lines_test :
    let after = init_irq kernel in
    (after.interrupt_handlers 40 ≡ some irq_entry)
    × (is_present (after.idt 40) ≡ true)
    × SameGate (after.idt 40) (zeros 40)
    × (after.interrupts_on ≡ true)
init_irq_lines_test = init_irq-lines kernel 40 (omega arith)

isr_handler-driver_test :
    let served = run 7 (interrupted 33) (polled answer run (interrupted 33) kernel) in
    isr_handler answer run (interrupted 33) kernel
    ≡ record served { bus = wrote 0x20 0x20 ∷ served.bus }
isr_handler-driver_test =
    isr_handler-driver answer run (interrupted 33) kernel 1 7 (omega arith) refl refl refl

unhandled_test : isr_handler answer run (interrupted 13) kernel ≡ record kernel {
  log = registers (interrupted 13) ∷ unhandled_exception 13 ∷ [];
  panicked = true;
}
unhandled_test = isr_handler-unhandled answer run (interrupted 13) kernel refl
