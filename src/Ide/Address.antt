-- ===== src/Ide/Address.antt =====
-- The address that a drive puts together from what is written to its registers.
use project_k.Base.{
  ℕ, zero, suc, ◌+◌, ◌-◌, ◌*◌, ◌/◌, ◌%◌, ◌^◌, ◌<◌, ◌≡◌, refl, arith, leb, Bool, true, false, ◌||◌,
  inl, inr, Bool-cases, u8, u16, has_bit,
}
use project_k.Base.Digits.{bit_or-fields}
use project_k.Ide.{Ide}
use project_k.Ide.TaskFile.{
  TaskFile, Separate, task_file, extended, addressed, write_address-addressed,
}
use project_k.Ide.Access.{LbaMode, chs, lba28, lba48, lba_io, drive_byte, write_address}

-- What the drive takes for the address: cylinder, head and sector from 1 on, or the linear number.
decode : LbaMode → TaskFile → ℕ
decode chs f = ((f.current 5 * 256 + f.current 4) * 16 + f.current 6 % 16) * 63 + f.current 3 - 1
decode lba28 f =
    f.current 6 % 16 * 2 ^ 24 + f.current 5 * 2 ^ 16 + f.current 4 * 2 ^ 8 + f.current 3
decode lba48 f =
    f.previous 5 * 2 ^ 40
    + f.previous 4 * 2 ^ 32
    + f.previous 3 * 2 ^ 24
    + f.current 5 * 2 ^ 16
    + f.current 4 * 2 ^ 8
    + f.current 3

-- How many sectors it takes to be meant, and whether bit 6 says that the address is linear.
count : LbaMode → TaskFile → ℕ
count chs f = f.current 2
count lba28 f = f.current 2
count lba48 f = f.previous 2 * 256 + f.current 2

is_linear : LbaMode → Bool
is_linear chs = false
is_linear lba28 = true
is_linear lba48 = true

-- The drive is told the sector `lba`, the number of sectors, which of the two drives of the channel
-- it is, and the kind of address.
unfoldable pub Asks : LbaMode → (lba nb_sects slavebit : ℕ) → TaskFile → Type 0
unfolding decode count is_linear
Asks mode lba nb_sects slavebit f =
    (decode mode f ≡ lba)
    × (count mode f ≡ nb_sects)
    × (f.current 6 / 16 % 2 ≡ slavebit)
    × (has_bit (f.current 6) 6 ≡ is_linear mode)

first_bits : LbaMode → ℕ
first_bits chs = 0xA0
first_bits lba28 = 0xE0
first_bits lba48 = 0xE0

drive_byte_sum :
    (mode : LbaMode) (slavebit head : ℕ)
    → slavebit < 2
    → head < 16
    → u8 (drive_byte mode slavebit head) ≡ first_bits mode + 16 * slavebit + head
unfolding drive_byte first_bits
drive_byte_sum chs zero head h h' = omega (arith, bit_or-fields 4 10 head h')
drive_byte_sum chs (suc zero) head h h' = omega (arith, bit_or-fields 4 11 head h')
drive_byte_sum lba28 zero head h h' = omega (arith, bit_or-fields 4 14 head h')
drive_byte_sum lba28 (suc zero) head h h' = omega (arith, bit_or-fields 4 15 head h')
drive_byte_sum lba48 zero head h h' = omega (arith, bit_or-fields 4 14 head h')
drive_byte_sum lba48 (suc zero) head h h' = omega (arith, bit_or-fields 4 15 head h')
drive_byte_sum mode (suc (suc n)) head h h' = absurd (omega arith)

module _ (features lba nb_sects slavebit : ℕ) (fits : lba < 2 ^ 32) (few : nb_sects < 256)
    (bit : slavebit < 2) where
  addressed-Asks :
      (f : TaskFile)
      → ((leb 0x10000000 lba || has_bit features 9) ≡ false → lba < 63 * 16 * 2 ^ 16)
      → Asks
          (lba_io features lba).mode
          lba
          nb_sects
          slavebit
          (addressed slavebit nb_sects (lba_io features lba) f)
  unfolding lba_io addressed extended Asks decode count is_linear first_bits
  addressed-Asks f cylinders = elim (Bool-cases (leb 0x10000000 lba)) [
    | inl big ↦
        let byte = drive_byte_sum lba48 slavebit 0 bit (omega arith) in
        rw big
          (ground (arith, byte), ground (arith, byte), ground (arith, byte), ground (arith, byte))
    | inr small ↦ elim (Bool-cases (has_bit features 9)) [
      | inl linear ↦
          let byte = drive_byte_sum lba28 slavebit (lba / 2 ^ 24 % 16) bit (omega arith) in
          rw (small, linear)
            (ground (arith, byte), ground (arith, byte), ground (arith, byte), ground (arith, byte))
      | inr old ↦
          let room = cylinders (rw (small, old) refl) in
          let sect : u8 (lba % 63 + 1) ≡ lba % 63 + 1 = omega arith in
          let start : lba + 1 - (lba % 63 + 1) ≡ 63 * (lba / 63) = omega arith in
          let cyl : u16 (63 * (lba / 63) / 1008) ≡ lba / 63 / 16 = omega (arith, room) in
          let head : 63 * (lba / 63) % 1008 / 63 ≡ lba / 63 % 16 = omega arith in
          let byte = drive_byte_sum chs slavebit (lba / 63 % 16) bit (omega arith) in
          let cut : u8 (lba / 63 % 16) ≡ lba / 63 % 16 = omega arith in
          rw (small, old, sect, start, cyl, head, cut)
            (omega (arith, byte, room), omega arith, omega (arith, byte), ground (arith, byte))
    ]
  ]

-- The address that `IDE_ATA_access` writes to a channel whose control register is not among the
-- ports of its drive: for a 32-bit `lba`, a number of sectors below 256 and either drive, the drive
-- takes its registers, in the mode chosen, to ask for exactly the sector `lba` and that number of
-- sectors. An address by cylinder, head and sector has the condition that the cylinder fits 16 bits.
pub write_address-Asks :
    (t : TaskFile) (channel features lba nb_sects slavebit : ℕ) (s : Ide)
    → Separate (s.channels channel)
    → lba < 2 ^ 32
    → nb_sects < 256
    → slavebit < 2
    → ((leb 0x10000000 lba || has_bit features 9) ≡ false → lba < 63 * 16 * 2 ^ 16)
    → let a = lba_io features lba in
      Asks a.mode lba nb_sects slavebit
        (task_file (s.channels channel).base t (write_address channel slavebit nb_sects a s).bus)
write_address-Asks t channel features lba nb_sects slavebit s apart h1 h2 h3 cylinders =
    let a = lba_io features lba in
    let f = task_file (s.channels channel).base t s.bus in
    let written =
      write_address-addressed t channel (s.channels channel) apart slavebit nb_sects a f s
        (record { same = refl; registers = refl }) in
    rw written.registers (addressed-Asks features lba nb_sects slavebit h1 h2 h3 f cylinders)
