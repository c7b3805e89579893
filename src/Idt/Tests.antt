-- ===== src/Idt/Tests.antt =====
-- Gates of a table of zeros.
use project_k.Base.{ℕ, ◌≡◌, ◌≢◌, arith}
use project_k.Idt.{Idt, idt_set_entry}
use project_k.Idt.Gates.{target, idt_set_entry_lem}

abbrev zeros : Idt
zeros n = record { base_low = 0; segment_selector = 0; zero = 0; kind = 0x8E; base_high = 0 }

idt_set_entry_lem_test :
    let after = idt_set_entry 33 0xC0101234 0x08 0x0E zeros in
    (target (after 33) ≡ 0xC0101234)
    × ((after 33).segment_selector ≡ 0x08)
    × ((after 33).kind ≡ 0x0E)
    × ((after 33).zero ≡ 0)
    × ((m : ℕ) → m ≢ 33 → after m ≡ zeros m)
idt_set_entry_lem_test =
    idt_set_entry_lem 33 zeros 0xC0101234 0x08 0x0E (omega arith) (omega arith) (omega arith)
