-- ===== src/Pic.antt =====
-- The interrupt controller: k/pic_8259.c.
pub mod Masks
pub mod Commands
mod Tests
use project_k.Base.{
  ℕ, ◌+◌, ◌-◌, ◌*◌, ◌^◌, ◌%◌, ltb, leb, if◌then◌else◌, u8, u16, shl, bit_and, bit_or,
}
use project_k.Bus.{Bus, Hardware, outb, inb, iowait}

abbrev pub pic1_command : ℕ
pic1_command = 0x20

abbrev pub pic1_data : ℕ
pic1_data = 0x21

abbrev pub pic2_command : ℕ
pic2_command = 0xA0

abbrev pub pic2_data : ℕ
pic2_data = 0xA1

-- A write to a port, and the pause behind it.
abbrev outb_wait : ℕ → ℕ → Bus → Bus
outb_wait port val bus = iowait (outb port val bus)

-- `init_PIC_8259`: ICW1 to ICW4 to both chips, then the mask of the first, written twice.
unfoldable pub init_pic_8259 : ℕ → ℕ → Bus → Bus
init_pic_8259 offset_pic1 offset_pic2 bus =
    let bus = outb_wait pic2_command 0x11 (outb_wait pic1_command 0x11 bus) in
    let bus = outb_wait pic2_data offset_pic2 (outb_wait pic1_data offset_pic1 bus) in
    let bus = outb_wait pic2_data 0x02 (outb_wait pic1_data 0x04 bus) in
    let bus = outb_wait pic2_data 0x01 (outb_wait pic1_data 0x01 bus) in
    outb_wait pic1_data 0x0 (outb_wait pic1_data 0x0 bus)

-- `port` and `irq` after the branch that `IRQ_set_mask` and `IRQ_clear_mask` begin with.
abbrev pub mask_port : ℕ → ℕ
mask_port irq = if ltb irq 8 then pic1_data else pic2_data

abbrev pub mask_line : ℕ → ℕ
mask_line irq = if ltb irq 8 then irq else irq - 8

-- `value | (1 << irq)` and `value & ~(1 << irq)`, cut to a byte.
unfoldable pub masked : ℕ → ℕ → ℕ
masked value line = u8 (bit_or value (shl 1 line))

unfoldable pub unmasked : ℕ → ℕ → ℕ
unmasked value line = u8 (bit_and value (255 - u8 (shl 1 line)))

unfoldable pub irq_set_mask : Hardware → ℕ → Bus → Bus
irq_set_mask dev irq bus =
    let (value, bus) = inb dev (mask_port irq) bus in
    outb (mask_port irq) (masked value (mask_line irq)) bus

unfoldable pub irq_clear_mask : Hardware → ℕ → Bus → Bus
irq_clear_mask dev irq bus =
    let (value, bus) = inb dev (mask_port irq) bus in
    outb (mask_port irq) (unmasked value (mask_line irq)) bus

unfoldable pub disable_pic : Bus → Bus
disable_pic bus = outb_wait pic2_data 0xFF (outb_wait pic1_data 0xFF bus)

unfoldable pub send_pic_eoi : ℕ → Bus → Bus
send_pic_eoi irq bus =
    outb pic1_command 0x20 (if leb 8 irq then outb pic2_command 0x20 bus else bus)

-- Both registers are read from the command port of the second chip.
unfoldable pub read_register : Hardware → ℕ → Bus → ℕ × Bus
read_register dev command bus =
    let bus = outb pic2_command command (outb pic1_command command bus) in
    let (lo, bus) = inb dev pic2_command bus in
    let (hi, bus) = inb dev pic2_command bus in (u16 (bit_or lo (shl hi 8)), bus)

abbrev pub read_irq_request_register : Hardware → Bus → ℕ × Bus
read_irq_request_register dev bus = read_register dev 0x0A bus

abbrev pub read_in_service_register : Hardware → Bus → ℕ × Bus
read_in_service_register dev bus = read_register dev 0x0B bus
