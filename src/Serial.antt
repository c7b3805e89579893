-- ===== src/Serial.antt =====
-- The serial line: k/write.c with k/write.h.
pub mod Sent
mod Tests
use project_k.Base.{ℕ, zero, suc, ◌+◌, ◌^◌, ◌%◌, ◌∷◌, u8, u16}
use project_k.Bus.{Bus, outb}

abbrev pub com1 : ℕ
com1 = 0x3F8

unfoldable pub init_serial : Bus → Bus
init_serial bus =
    let bus = outb (com1 + 3) 0x80 (outb (com1 + 1) 0x00 bus) in
    let bus = outb (com1 + 1) 0x00 (outb (com1 + 0) 0x03 bus) in
    outb (com1 + 2) 0xC7 (outb (com1 + 3) 0x03 bus)

-- The loop of `write`, after `n` rounds; `buf` is the buffer's bytes.
unfoldable pub write_loop : (buf : ℕ → ℕ) (n : ℕ) → Bus → Bus
write_loop buf zero bus = bus
write_loop buf (suc n) bus = outb com1 (buf n) (write_loop buf n bus)

-- `size_t` has 32 bits.
unfoldable pub write : (buf : ℕ → ℕ) (count : ℕ) → Bus → ℕ × Bus
write buf count bus = (count, write_loop buf count bus)
