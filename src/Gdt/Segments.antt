-- ===== src/Gdt/Segments.antt =====
-- The segments that the processor reads out of the table.
use project_k.Base.{
  ℕ, ◌+◌, ◌*◌, ◌/◌, ◌%◌, ◌^◌, ◌<◌, ◌≡◌, ◌≢◌, refl, arith, Bool, ◌==◌, ==_iff, if◌then◌else◌,
  has_bit, u8, bit_or, bit_and,
}
use project_k.Base.Digits.{fields-bit_or}
use project_k.Base.Tables.{every, every-holds}
use project_k.Gdt.{GdtEntry, gdt_set_entry, Segmentation, set_tss_entry, init_tss, init_gdt}

-- Base, limit, privilege level and the other bits of a descriptor.
abbrev pub base_of : GdtEntry → ℕ
base_of e = e.base_high * 2 ^ 24 + e.base_middle * 2 ^ 16 + e.base_low

abbrev pub limit_of : GdtEntry → ℕ
limit_of e = e.flags % 16 * 2 ^ 16 + e.segment_limit

abbrev pub privilege : GdtEntry → ℕ
privilege e = e.access / 32 % 4

-- The last byte of the segment: the limit counts pages of 4096 bytes if the top flag is set.
abbrev pub last_byte : GdtEntry → ℕ
last_byte e = if has_bit e.flags 7 then limit_of e * 4096 + 4095 else limit_of e

high_half : ℕ → Bool
high_half x = bit_and x 0xF0 == x / 16 * 16

high_flags : (x : ℕ) → x < 256 → bit_and x 0xF0 ≡ x / 16 * 16
unfolding high_half
high_flags x h = (==_iff _ _).0 (every-holds high_half {bound = 256} (unfold every in refl) x h)

flag_byte :
    (limit flags : ℕ)
    → flags < 256
    → u8 (bit_or (limit / 2 ^ 16 % 2 ^ 4) (bit_and (u8 flags) 0xF0))
      ≡ flags / 16 * 16 + limit / 2 ^ 16 % 16
flag_byte limit flags h =
    ground (arith, high_flags (u8 flags), fields-bit_or 4 (flags / 16) (limit / 2 ^ 16 % 2 ^ 4))

-- In one of the descriptors of the table, `gdt_set_entry` splits a base below 2^32 and a limit below
-- 2^20 so that the processor reads the same base and limit back, with the access byte and the upper four
-- bits of a byte of flags as given; the other descriptors stay.
pub gdt_set_entry_lem :
    (segment base limit access flags : ℕ) (gdt : ℕ → GdtEntry)
    → segment < 6
    → base < 2 ^ 32
    → limit < 2 ^ 20
    → access < 256
    → flags < 256
    → let after = gdt_set_entry segment base limit access flags gdt in
      (base_of (after segment) ≡ base)
      × (limit_of (after segment) ≡ limit)
      × ((after segment).access ≡ access)
      × ((after segment).flags / 16 ≡ flags / 16)
      × ((m : ℕ) → m ≢ segment → after m ≡ gdt m)
unfolding gdt_set_entry
gdt_set_entry_lem segment base limit access flags gdt h0 h1 h2 h3 h4 =
    let f = flag_byte limit flags h4 in
    (ground arith, ground (arith, f), ground arith, ground (arith, f), λ m ne. ground arith)

-- The descriptor of the task state segment has the segment's address for its base, but for its
-- limit the low 20 bits of the address behind the segment, not the segment's size.
pub init_gdt-tss :
    (address : ℕ) (s : Segmentation)
    → address + 108 < 2 ^ 32
    → let after = init_gdt address s in
      (base_of (after.gdt_entries 5) ≡ address)
      × (limit_of (after.gdt_entries 5) ≡ (address + 108) % 2 ^ 20)
      × (after.default_tss.iomap_base ≡ 108)
      × (after.default_tss.ss0 ≡ 0x10)
unfolding init_gdt init_tss set_tss_entry gdt_set_entry
init_gdt-tss address s h = (ground arith, ground (arith, flag_byte (address + 108) 0), refl, refl)
