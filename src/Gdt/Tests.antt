-- ===== src/Gdt/Tests.antt =====
-- Descriptors at concrete addresses.
use project_k.Base.{ℕ, ◌/◌, ◌-◌, ◌^◌, ◌≡◌, ◌≢◌, Bool, true, false, has_bit, refl, arith}
use project_k.Gdt.{
  Gdt, GdtEntry, gdt_set_entry, Segmentation, zero_tss, set_tss_entry, init_tss, init_gdt,
}
use project_k.Gdt.Segments.{
  base_of, limit_of, privilege, last_byte, gdt_set_entry_lem, init_gdt-tss,
}

abbrev zeros : Gdt
zeros n = record {
  segment_limit = 0;
  base_low = 0;
  base_middle = 0;
  access = 0;
  flags = 0;
  base_high = 0;
}

abbrev start : Segmentation
start = record { gdt_entries = zeros; default_tss = zero_tss }

gdt_set_entry_lem_example :
    let after = gdt_set_entry 3 0x12345678 0xABCDE 0xFA 0xC0 zeros in
    (base_of (after 3) ≡ 0x12345678)
    × (limit_of (after 3) ≡ 0xABCDE)
    × ((after 3).access ≡ 0xFA)
    × ((after 3).flags / 16 ≡ 0xC0 / 16)
    × ((m : ℕ) → m ≢ 3 → after m ≡ zeros m)
gdt_set_entry_lem_example =
    gdt_set_entry_lem 3 0x12345678 0xABCDE 0xFA 0xC0 zeros (omega arith) (omega arith) (omega arith)
      (omega arith) (omega arith)

-- A present segment from 0 to the last byte of the 4 GiB, of a privilege level, for code or data.
abbrev Flat : ℕ → Bool → GdtEntry → Type 0
Flat level code e =
    (base_of e ≡ 0)
    × (last_byte e ≡ 2 ^ 32 - 1)
    × (privilege e ≡ level)
    × (has_bit e.access 3 ≡ code)
    × (has_bit e.access 7 ≡ true)

-- The kernel's and the user's segments, each a pair of code and data.
segments_test :
    let gdt = (init_gdt 0x104000 start).gdt_entries in
    Flat 0 true (gdt 1) × Flat 0 false (gdt 2) × Flat 3 true (gdt 3) × Flat 3 false (gdt 4)
unfolding init_gdt init_tss set_tss_entry gdt_set_entry
segments_test = (
  (refl, refl, refl, refl, refl),
  (refl, refl, refl, refl, refl),
  (refl, refl, refl, refl, refl),
  (refl, refl, refl, refl, refl),
)

init_gdt-tss_example :
    let after = init_gdt 0x104000 start in
    (base_of (after.gdt_entries 5) ≡ 0x104000)
    × (limit_of (after.gdt_entries 5) ≡ 0x0406C)
    × (after.default_tss.iomap_base ≡ 108)
    × (after.default_tss.ss0 ≡ 0x10)
init_gdt-tss_example = init_gdt-tss 0x104000 start (omega arith)
