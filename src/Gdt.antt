-- ===== src/Gdt.antt =====
-- The global descriptor table and the task state segment: k/gdt.c and k/tss.c. `gdt_entries` is a
-- function of the segment number; `load_gdt` and `load_tss` are assembly and have no model.
pub mod Segments
mod Tests
use project_k.Base.{
  ℕ, ◌+◌, ◌*◌, ◌/◌, ◌%◌, ◌^◌, ◌==◌, if◌then◌else◌, u8, u16, u32, shr, low_bits, bit_and, bit_or,
}

pub record GdtEntry : Type 0 where
  pub segment_limit : ℕ
  pub base_low : ℕ
  pub base_middle : ℕ
  pub access : ℕ
  pub flags : ℕ
  pub base_high : ℕ

abbrev pub Gdt : Type 0
Gdt = ℕ → GdtEntry

unfoldable pub gdt_set_entry : (segment base limit access flags : ℕ) → Gdt → Gdt
gdt_set_entry segment base limit access flags gdt m =
    if m == segment
    then record {
      segment_limit = low_bits limit 16;
      base_low = low_bits base 16;
      base_middle = low_bits (shr base 16) 8;
      access = u8 access;
      flags = u8 (bit_or (low_bits (shr limit 16) 4) (bit_and (u8 flags) 0xF0));
      base_high = low_bits (shr base 24) 8;
    }
    else gdt m

-- The registers of `struct TSS`, all of 32 bits.
pub record Tss : Type 0 where
  pub previous_task : ℕ
  pub esp0 : ℕ
  pub ss0 : ℕ
  pub esp1 : ℕ
  pub ss1 : ℕ
  pub esp2 : ℕ
  pub ss2 : ℕ
  pub cr3 : ℕ
  pub eip : ℕ
  pub eflags : ℕ
  pub eax : ℕ
  pub ecx : ℕ
  pub edx : ℕ
  pub ebx : ℕ
  pub esp : ℕ
  pub ebp : ℕ
  pub esi : ℕ
  pub edi : ℕ
  pub es : ℕ
  pub cs : ℕ
  pub ss : ℕ
  pub ds : ℕ
  pub fs : ℕ
  pub gs : ℕ
  pub ldt : ℕ
  pub trap : ℕ
  pub iomap_base : ℕ

-- `sizeof(TSS)`: 27 fields of 4 bytes.
abbrev pub sizeof_tss : ℕ
sizeof_tss = 108

-- What `memset(&default_tss, 0, sizeof(TSS))` leaves.
abbrev pub zero_tss : Tss
zero_tss = record {
  previous_task = 0;
  esp0 = 0;
  ss0 = 0;
  esp1 = 0;
  ss1 = 0;
  esp2 = 0;
  ss2 = 0;
  cr3 = 0;
  eip = 0;
  eflags = 0;
  eax = 0;
  ecx = 0;
  edx = 0;
  ebx = 0;
  esp = 0;
  ebp = 0;
  esi = 0;
  edi = 0;
  es = 0;
  cs = 0;
  ss = 0;
  ds = 0;
  fs = 0;
  gs = 0;
  ldt = 0;
  trap = 0;
  iomap_base = 0;
}

pub record Segmentation : Type 0 where
  pub gdt_entries : Gdt
  pub default_tss : Tss

-- `address` is where the linker has put `default_tss`.
unfoldable pub set_tss_entry : (address ss0 esp0 : ℕ) → Segmentation → Segmentation
set_tss_entry address ss0 esp0 s =
    let base = u32 address in
    let limit = u32 (base + sizeof_tss) in
    record {
      gdt_entries = gdt_set_entry 5 base limit 0xE9 0x00 s.gdt_entries;
      default_tss = record zero_tss {
        ss0 = u16 ss0;
        esp0 = u32 esp0;
        cs = 0x0b;
        ss = 0x13;
        ds = 0x13;
        es = 0x13;
        fs = 0x13;
        gs = 0x13;
        iomap_base = u16 sizeof_tss;
      };
    }

unfoldable pub init_tss : (address : ℕ) → Segmentation → Segmentation
init_tss address s = set_tss_entry address 0x10 0x0 s

unfoldable pub set_tss_stack : ℕ → Segmentation → Segmentation
set_tss_stack esp0 s = record s { default_tss = record (s.default_tss) { esp0 = u32 esp0 } }

unfoldable pub init_gdt : (address : ℕ) → Segmentation → Segmentation
init_gdt address s =
    let gdt = gdt_set_entry 0 0 0 0 0 s.gdt_entries in
    let gdt = gdt_set_entry 1 0 0xFFFFF 0x9A 0xCF gdt in
    let gdt = gdt_set_entry 2 0 0xFFFFF 0x92 0xCF gdt in
    let gdt = gdt_set_entry 3 0 0xFFFFF 0xFA 0xCF gdt in
    let gdt = gdt_set_entry 4 0 0xFFFFF 0xF2 0xCF gdt in
    init_tss address (record s { gdt_entries = gdt })
