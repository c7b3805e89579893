-- ===== src/Ide/Requests.antt =====
-- What a request for sectors does: refused, or carried out.
use project_k.Base.{ℕ, ◌+◌, ◌%◌, ◌^◌, ◌<◌, ◌≤◌, ◌≡◌, ◌≢◌, arith, false, ltb, ◌==◌, ◌++◌, u16, u32}
use project_k.Base.Int.{ℤ, pos}
use project_k.Bus.{Bus, Hardware}
use project_k.Ide.{Ide, Outcome, ended}
use project_k.Ide.TaskFile.{Separate}
use project_k.Ide.Wait.{Settles}
use project_k.Ide.Access.{ata_write}
use project_k.Ide.Sectors.{ide_print_error, access_sectors, ide_write_sectors}
use project_k.Bus.Traffic.{sent}
use project_k.Ide.Transfer.{sectors, ide_ata_access-sectors}

-- Memory is as it was, and nothing was written to any port.
pub record Quiet (s s' : Ide) : Type 0 where
  pub memory : s'.memory ≡ s.memory
  pub traffic : (port : ℕ) → sent port s'.bus ≡ sent port s.bus

module _ (dev : Hardware) (garbage fuel drive nb_sects lba edi : ℕ) (s : Ide) where
  -- A present ATA drive, and sectors that end within it.
  pub record Granted : Type 0 where
    pub in_range : drive < 5
    pub present : (s.devices drive).reserved ≢ 0
    pub is_ata : (s.devices drive).kind ≡ 0
    pub inside : (lba + nb_sects) % 2 ^ 32 ≤ (s.devices drive).size

  module _ (granted : Granted) (apart : Separate (s.channels (s.devices drive).channel))
      (ready : (bus : Bus)
        → Settles dev (u16 ((s.channels (s.devices drive).channel).base + 7)) fuel bus) where
    abbrev pub Written : Outcome (ℤ × Ide) → Type 0
    Written outcome =
        (s' : Ide) × (outcome ≡ ended (pos 0, s'))
        × (s'.memory ≡ s.memory)
        × (let port = (s.channels (s.devices drive).channel).base in
            sent port s'.bus ≡ sent port s.bus ++ sectors s.memory edi nb_sects)

    granted-Written : Written (access_sectors dev garbage fuel ata_write drive nb_sects lba edi s)
    unfolding access_sectors ide_print_error
    granted-Written =
        let (s', r, memory, data_port) =
          ide_ata_access-sectors dev garbage fuel drive lba nb_sects edi s granted.in_range apart
            ready in
        let not_above : ltb 5 drive ≡ false = ground (arith, granted.in_range) in
        let not_behind : (drive == 5) ≡ false = ground (arith, granted.in_range) in
        let there : ((s.devices drive).reserved == 0) ≡ false = ground (arith, granted.present) in
        let fits : ltb (s.devices drive).size (u32 (lba + nb_sects)) ≡ false =
          ground (arith, granted.inside) in
        (s', rw (not_above, not_behind, there, fits, granted.is_ata, r), memory, data_port)

    -- A granted request to write ends with 0 and has sent the sectors of the buffer to the drive.
    pub ide_write_sectors-Written :
        Written (ide_write_sectors dev garbage fuel drive nb_sects lba edi s)
    unfolding ide_write_sectors
    ide_write_sectors-Written = granted-Written
