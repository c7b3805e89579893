-- ===== src/Ide/Reg.antt =====
-- The registers of a channel by their numbers: `ATA_REG_SECTOR_COUNT(0)` to `ATA_REG_ALTSTATUS(0)`
-- of k/include/k/atapi.h.
use project_k.Base.{ℕ}

abbrev pub sector_count : ℕ
sector_count = 2

abbrev pub lba_lo : ℕ
lba_lo = 3

abbrev pub lba_mi : ℕ
lba_mi = 4

abbrev pub lba_hi : ℕ
lba_hi = 5

abbrev pub drive : ℕ
drive = 6

abbrev pub status : ℕ
status = 7

abbrev pub command : ℕ
command = 7

abbrev pub sector_count1 : ℕ
sector_count1 = 8

abbrev pub lba3 : ℕ
lba3 = 9

abbrev pub lba4 : ℕ
lba4 = 10

abbrev pub lba5 : ℕ
lba5 = 11

abbrev pub control : ℕ
control = 12

abbrev pub altstatus : ℕ
altstatus = 12
