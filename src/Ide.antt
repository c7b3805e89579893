-- ===== src/Ide.antt =====
-- The driver of the disk controller: the channels, the devices and the access to their registers
-- of k/ide.c, with k/include/k/ide.h and k/include/k/atapi.h.
pub mod Reg
pub mod TaskFile
pub mod Address
pub mod Access
pub mod Sectors
pub mod Wait
pub mod Silence
pub mod Transfer
pub mod Requests
pub mod Detect
pub mod Identity
mod Tests
use project_k.Base.{
  ℕ, zero, suc, ◌+◌, ◌-◌, ◌*◌, ◌/◌, ◌%◌, ◌^◌, ltb, leb, ◌==◌, ◌&&◌, Bool, if◌then◌else◌, List, ◌∷◌,
  Option, none, some, u8, u16, u32, bit_or, has_bit,
}
use project_k.Bus.{Bus, Hardware, outb, inb}
use project_k.Ide.Reg

pub record Channel : Type 0 where
  pub base : ℕ
  pub control : ℕ
  pub bm_ide : ℕ
  pub no_int : ℕ

-- The field `type`, a keyword of this language, is called `kind`.
pub record Device : Type 0 where
  pub reserved : ℕ
  pub channel : ℕ
  pub drive : ℕ
  pub kind : ℕ
  pub signature : ℕ
  pub features : ℕ
  pub command_sets : ℕ
  pub size : ℕ
  pub model : ℕ → ℕ

-- The messages on the console.
pub data Message : Type 0 where
  ide_error device_fault no_address_mark no_media aborted id_mark_not_found : Message
  uncorrectable bad_sectors read_nothing write_protected drive_not_found : Message
  beyond_the_end : (lba size : ℕ) → Message
  which_drive : (channel drive : ℕ) → Message

-- `memory` is the bytes of the address space that the transfers use.
pub record Ide : Type 0 where
  pub channels : ℕ → Channel
  pub devices : ℕ → Device
  pub irq_invoked : ℕ
  pub memory : ℕ → ℕ
  pub log : List Message
  pub bus : Bus

-- `out_of_bounds` is an access behind an array, `out_of_fuel` a wait that the fuel does not end.
pub data Outcome {ℓ} (A : Type ℓ) : Type ℓ where
  ended : A → Outcome A
  out_of_bounds out_of_fuel : Outcome A

infixl 5 ◌>>=◌
abbrev pub ◌>>=◌ {ℓ κ} : {A : Type ℓ} {B : Type κ} → Outcome A → (A → Outcome B) → Outcome B
ended a >>= f = f a
out_of_bounds >>= f = out_of_bounds
out_of_fuel >>= f = out_of_fuel

abbrev pub maximum_ide_devices : ℕ
maximum_ide_devices = 5

-- The chain of tests on `reg` that the four access functions share: the port, if there is one.
unfoldable pub port_of : Channel → ℕ → Option ℕ
port_of c reg =
    if ltb reg 0x08
    then some (c.base + reg)
    else if ltb reg 0x0C
    then some (c.base + reg - 0x06)
    else if ltb reg 0x0E
    then some (c.control + reg - 0x0A)
    else if ltb reg 0x16
    then some (c.bm_ide + reg - 0x0E)
    else none

-- A write with no bracket of writes to the control register.
unfoldable pub write_port : Option ℕ → ℕ → Ide → Ide
write_port none value s = s
write_port (some port) value s = record s { bus = outb port value s.bus }

abbrev pub plain_write : (channel reg value : ℕ) → Ide → Ide
plain_write channel reg value s = write_port (port_of (s.channels channel) reg) value s

-- The inner calls write register 12, which has no bracket of its own.
unfoldable pub ide_write_register : (channel reg value : ℕ) → Ide → Ide
ide_write_register channel reg value s =
    let no_int = (s.channels channel).no_int in
    if ltb 0x07 reg && ltb reg 0x0C
    then plain_write channel Reg.control no_int
        (plain_write channel reg value (plain_write channel Reg.control (bit_or 0x80 no_int) s))
    else plain_write channel reg value s

-- `garbage` is what an uninitialized variable holds.
module _ (dev : Hardware) (garbage : ℕ) where
  unfoldable pub read_port : Option ℕ → Ide → ℕ × Ide
  read_port none s = (garbage, s)
  read_port (some port) s = let (v, bus) = inb dev port s.bus in (v, record s { bus = bus })

  unfoldable pub ide_read_register : (channel reg : ℕ) → Ide → ℕ × Ide
  ide_read_register channel reg s =
      let no_int = (s.channels channel).no_int in
      let ready = plain_write channel Reg.control (bit_or 0x80 no_int) s in
      let (v, done) = read_port (port_of (ready.channels channel) reg) ready in
      if ltb 0x07 reg && ltb reg 0x0C
      then (v, plain_write channel Reg.control no_int done)
      else read_port (port_of (s.channels channel) reg) s

  -- Up to `fuel` readings of the status register, for bit 7 to be clear.
  unfoldable pub busy_wait : (fuel channel : ℕ) → Ide → Outcome Ide
  busy_wait zero channel s = out_of_fuel
  busy_wait (suc fuel) channel s =
      let (status, s) = ide_read_register channel Reg.status s in
      let rest = busy_wait fuel channel s in if has_bit status 7 then rest else ended s

  -- The four readings of the alternate status.
  unfoldable pub pause : ℕ → (channel : ℕ) → Ide → Ide
  pause zero channel s = s
  pause (suc n) channel s = (ide_read_register channel Reg.altstatus (pause n channel s)).1

  -- The tests of `IDE_polling` on the status.
  unfoldable pub verdict : ℕ → ℕ
  verdict status =
      if has_bit status 0
      then 2
      else if has_bit status 5
      then 1
      else if has_bit status 3
      then 0
      else 3

  unfoldable pub ide_polling :
      (fuel channel : ℕ) → (advanced_check : Bool) → Ide → Outcome (ℕ × Ide)
  ide_polling fuel channel advanced_check s = busy_wait fuel channel (pause 4 channel s) >>= λ s.
      let (status, checked) = ide_read_register channel Reg.status s in
      if advanced_check then ended (verdict status, checked) else ended (0, s)
