-- ===== src/Ide/Sectors.antt =====
-- The operations of k/ide.c on sectors: `IDE_print_error`, `IDE_read_sectors`, `IDE_write_sectors`
-- and the search for a drive by its model.
use project_k.Base.{ℕ, ◌+◌, ltb, ◌==◌, ◌&&◌, if◌then◌else◌, ◌∷◌, u8, u32, has_bit}
use project_k.Base.Int.{ℤ, pos, negsuc}
use project_k.Bus.{Hardware}
use project_k.Ide.{
  Ide, Outcome, ended, out_of_bounds, ◌>>=◌, Message, ide_error, device_fault, no_address_mark,
  no_media, aborted, id_mark_not_found, uncorrectable, bad_sectors, read_nothing, write_protected,
  drive_not_found, beyond_the_end, which_drive, ide_read_register, maximum_ide_devices,
}
use project_k.Ide.Access.{ide_ata_access, ata_write}

abbrev pub say : Message → Ide → Ide
say m s = record s { log = m ∷ s.log }

-- One of the eight tests on the error register: the message and the code, if the bit is set.
abbrev pub report : (status bit : ℕ) → Message → ℕ → ℕ × Ide → ℕ × Ide
report status bit m code (err, s) = if has_bit status bit then (code, say m s) else (err, s)

-- The branch for error 2, behind the reading of the error register.
unfoldable pub describe : (status err : ℕ) → Ide → ℕ × Ide
describe status err s = report status 7 bad_sectors 13 (
    report status 6 uncorrectable 22 (
      report status 5 no_media 3 (
        report status 4 id_mark_not_found 21 (
          report status 3 no_media 3 (
            report status 2 aborted 20
              (report status 1 no_media 3 (report status 0 no_address_mark 7 (err, s))))))))

module _ (dev : Hardware) (garbage : ℕ) where
  -- The chain of tests on `err`.
  unfoldable pub explain : (drive err : ℕ) → Ide → ℕ × Ide
  explain drive err s =
      let (status, read) = ide_read_register dev garbage (s.devices drive).channel 1 s in
      if err == 1
      then (19, say device_fault s)
      else if err == 2
      then describe status err read
      else if err == 3
      then (23, say read_nothing s)
      else if err == 4
      then (8, say write_protected s)
      else (err, s)

  unfoldable pub ide_print_error : (drive err : ℕ) → Ide → ℕ × Ide
  ide_print_error drive err s =
      let (code, told) = explain drive err (say ide_error s) in
      let device = s.devices drive in
      if err == 0 then (0, s) else (code, say (which_drive device.channel device.drive) told)

  -- The body that `IDE_read_sectors` and `IDE_write_sectors` share, but for the direction that they
  -- pass on. -1 and -2 are `negsuc 0` and `negsuc 1`; the array has no device 5.
  unfoldable pub access_sectors :
      (fuel direction drive nb_sects lba edi : ℕ) → Ide → Outcome (ℤ × Ide)
  access_sectors fuel direction drive nb_sects lba edi s =
      let device = s.devices drive in
      let access =
        ide_ata_access dev garbage fuel direction drive lba nb_sects edi s >>= λ (err, s).
        let (code, s) = ide_print_error drive err s in ended (pos code, s) in
      let (code, told) = ide_print_error drive (u8 garbage) s in
      if ltb maximum_ide_devices drive
      then ended (negsuc 0, say drive_not_found s)
      else if drive == maximum_ide_devices
      then out_of_bounds
      else if device.reserved == 0
      then ended (negsuc 0, say drive_not_found s)
      else if ltb device.size (u32 (lba + nb_sects)) && device.kind == 0
      then ended (negsuc 1, say (beyond_the_end lba device.size) s)
      else if device.kind == 0
      then access
      else ended (pos code, told)

  -- Both pass on `ATA_WRITE`.
  unfoldable pub ide_read_sectors : (fuel drive nb_sects lba edi : ℕ) → Ide → Outcome (ℤ × Ide)
  ide_read_sectors fuel drive nb_sects lba edi s =
      access_sectors fuel ata_write drive nb_sects lba edi s

  unfoldable pub ide_write_sectors : (fuel drive nb_sects lba edi : ℕ) → Ide → Outcome (ℤ × Ide)
  ide_write_sectors fuel drive nb_sects lba edi s =
      access_sectors fuel ata_write drive nb_sects lba edi s
