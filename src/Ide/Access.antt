-- ===== src/Ide/Access.antt =====
-- `IDE_ATA_access` of k/ide.c: the address, the command and the transfer of sectors.
use project_k.Base.{
  ℕ, zero, suc, ◌+◌, ◌-◌, ◌*◌, ◌/◌, ◌%◌, leb, ◌==◌, true, false, if◌then◌else◌, u8, u16, u32,
  bit_or, has_bit, low_bits, shl, shr,
}
use project_k.Bus.{Hardware, inw, outw}
use project_k.Ide.{
  Ide, Device, Outcome, ended, out_of_bounds, maximum_ide_devices, ◌>>=◌, ide_write_register,
  busy_wait, ide_polling,
}
use project_k.Ide.Reg

abbrev pub ata_read : ℕ
ata_read = 0

abbrev pub ata_write : ℕ
ata_write = 1

-- The modes `LBA_MODE_CHS`, `LBA_MODE_28` and `LBA_MODE_48`.
pub data LbaMode : Type 0 where
  chs lba28 lba48 : LbaMode

-- `lba_mode`, the first four entries of `lba_io` (the other two are 0 in each mode) and `head`.
pub record LbaIo : Type 0 where
  pub mode : LbaMode
  pub io0 : ℕ
  pub io1 : ℕ
  pub io2 : ℕ
  pub io3 : ℕ
  pub head : ℕ

-- Step (I). `lba` is a `u32`, `cyl` a `u16`.
unfoldable pub lba_io : (features lba : ℕ) → LbaIo
lba_io features lba =
    if leb 0x10000000 lba
    then record {
      mode = lba48;
      io0 = low_bits lba 8;
      io1 = low_bits (shr lba 8) 8;
      io2 = low_bits (shr lba 16) 8;
      io3 = low_bits (shr lba 24) 8;
      head = 0;
    }
    else if has_bit features 9
    then record {
      mode = lba28;
      io0 = low_bits lba 8;
      io1 = low_bits (shr lba 8) 8;
      io2 = low_bits (shr lba 16) 8;
      io3 = 0;
      head = low_bits (shr lba 24) 4;
    }
    else let sect = u8 (lba % 63 + 1) in
      let cyl = u16 ((lba + 1 - sect) / (16 * 63)) in
      record {
        mode = chs;
        io0 = sect;
        io1 = low_bits cyl 8;
        io2 = low_bits (shr cyl 8) 8;
        io3 = 0;
        head = u8 ((lba + 1 - sect) % (16 * 63) / 63);
      }

-- Step (IV): `0xA0 | (slavebit << 4) | head`, or with 0xE0 for the two modes of linear addresses.
unfoldable pub drive_byte : LbaMode → (slavebit head : ℕ) → ℕ
drive_byte chs slavebit head = u8 (bit_or (bit_or 0xA0 (shl slavebit 4)) head)
drive_byte lba28 slavebit head = u8 (bit_or (bit_or 0xE0 (shl slavebit 4)) head)
drive_byte lba48 slavebit head = u8 (bit_or (bit_or 0xE0 (shl slavebit 4)) head)

-- The branch of step (V) for the upper bytes.
unfoldable pub write_extended : LbaMode → (channel io3 : ℕ) → Ide → Ide
write_extended chs channel io3 s = s
write_extended lba28 channel io3 s = s
write_extended lba48 channel io3 s = ide_write_register channel Reg.lba5 0 (
    ide_write_register channel Reg.lba4 0
      (ide_write_register channel Reg.lba3 io3 (ide_write_register channel Reg.sector_count1 0 s)))

-- Steps (IV) and (V): the drive, the number of sectors and the address.
unfoldable pub write_address : (channel slavebit nb_sects : ℕ) → LbaIo → Ide → Ide
write_address channel slavebit nb_sects a s =
    let s = ide_write_register channel Reg.drive (drive_byte a.mode slavebit a.head) s in
    let s = write_extended a.mode channel a.io3 s in
    let s = ide_write_register channel Reg.sector_count nb_sects s in
    let s = ide_write_register channel Reg.lba_lo a.io0 s in
    let s = ide_write_register channel Reg.lba_mi a.io1 s in
    ide_write_register channel Reg.lba_hi a.io2 s

abbrev pub pio : (read write : ℕ) → (direction garbage : ℕ) → ℕ
pio read write direction garbage =
    if direction == ata_read then read else if direction == ata_write then write else garbage

-- Step (VI), in which `dma` is 0: the six tests on it that hold of the other value are left out.
unfoldable pub command : LbaMode → (direction garbage : ℕ) → ℕ
command chs direction garbage = pio 0x20 0x30 direction garbage
command lba28 direction garbage = pio 0x20 0x30 direction garbage
command lba48 direction garbage = pio 0x24 0x34 direction garbage

unfoldable pub cache_flush : LbaMode → ℕ
cache_flush chs = 0xE7
cache_flush lba28 = 0xE7
cache_flush lba48 = 0xEA

-- `rep outsw`: `n` words from memory to the port, the lower byte of a word first.
unfoldable pub outsw : ℕ → (port buffer : ℕ) → Ide → Ide
outsw zero port buffer s = s
outsw (suc n) port buffer s =
    let s = outsw n port buffer s in
    let at = u32 (buffer + 2 * n) in
    record s { bus = outw port (s.memory at + 256 * s.memory (u32 (at + 1))) s.bus }

abbrev pub store : (ℕ → ℕ) → ℕ → ℕ → ℕ → ℕ
store memory address value j = if j == address then value else memory j

-- `ide_channels[channel].no_int = (ide_irq_invoked = 0) + 2`.
abbrev pub no_interrupts : ℕ → Ide → Ide
no_interrupts channel s = record s {
  irq_invoked = 0;
  channels = λ c. if c == channel then record (s.channels c) { no_int = 2 } else s.channels c;
}

module _ (dev : Hardware) (garbage : ℕ) where
  -- `rep insw`: `n` words from the port to memory.
  unfoldable pub insw : ℕ → (port buffer : ℕ) → Ide → Ide
  insw zero port buffer s = s
  insw (suc n) port buffer s =
      let s = insw n port buffer s in
      let at = u32 (buffer + 2 * n) in
      let (v, bus) = inw dev port s.bus in
      record s { memory = store (store s.memory at (v % 256)) (u32 (at + 1)) (v / 256); bus = bus }

  -- The loop of the PIO read over the sectors left; it returns the first error.
  unfoldable pub read_loop : ℕ → (fuel channel port buffer : ℕ) → Ide → Outcome (ℕ × Ide)
  read_loop zero fuel channel port buffer s = ended (0, s)
  read_loop (suc n) fuel channel port buffer s =
      ide_polling dev garbage fuel channel true s >>= λ (err, s).
      let rest = read_loop n fuel channel port (u32 (buffer + 512)) (insw 256 port buffer s) in
      if err == 0 then rest else ended (err, s)

  unfoldable pub write_loop : ℕ → (fuel channel port buffer : ℕ) → Ide → Outcome Ide
  write_loop zero fuel channel port buffer s = ended s
  write_loop (suc n) fuel channel port buffer s =
      ide_polling dev garbage fuel channel false s >>= λ (err, s).
      write_loop n fuel channel port (u32 (buffer + 512)) (outsw 256 port buffer s)

  -- The transfer, and the flush of the cache behind a write.
  unfoldable pub transfer :
      LbaMode → (fuel direction channel port nb_sects buffer : ℕ) → Ide → Outcome (ℕ × Ide)
  transfer mode fuel direction channel port nb_sects buffer s =
      if direction == ata_read
      then read_loop nb_sects fuel channel port buffer s
      else write_loop nb_sects fuel channel port buffer s >>= λ s.
          ide_polling dev garbage fuel channel false
            (ide_write_register channel Reg.command (cache_flush mode) s)
          >>= λ (err, s). ended (0, s)

  -- The access to the device `drive`, which is in the array.
  unfoldable pub access_device :
      (fuel direction : ℕ) → Device → (lba nb_sects buffer : ℕ) → Ide → Outcome (ℕ × Ide)
  access_device fuel direction device lba nb_sects buffer s =
      let a = lba_io device.features lba in
      let s = ide_write_register device.channel Reg.control 2 (no_interrupts device.channel s) in
      busy_wait dev garbage fuel device.channel s >>= λ s.
      let s = write_address device.channel device.drive nb_sects a s in
      let s = ide_write_register device.channel Reg.command (command a.mode direction garbage) s in
      transfer a.mode fuel direction device.channel (s.channels device.channel).base nb_sects buffer
        s

  unfoldable pub ide_ata_access :
      (fuel direction drive lba nb_sects buffer : ℕ) → Ide → Outcome (ℕ × Ide)
  ide_ata_access fuel direction drive lba nb_sects buffer s =
      if leb maximum_ide_devices drive
      then out_of_bounds
      else access_device fuel direction (s.devices drive) lba nb_sects buffer s
