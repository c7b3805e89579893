-- ===== src/Ide/Tests.antt =====
-- The first drive of the primary channel, with hardware that is never busy.
use project_k.Base.{◌%◌, ◌≡◌, refl, arith, inr, [], ◌∷◌, ◌++◌}
use project_k.Base.Int.{pos, negsuc}
use project_k.Bus.{Bus, Hardware, wrote}
use project_k.Ide.{
  Ide, Channel, Device, ended, beyond_the_end, ide_write_register, write_port, port_of, busy_wait,
}
use project_k.Ide.TaskFile.{TaskFile, Separate, task_file}
use project_k.Ide.Address.{Asks, write_address-Asks}
use project_k.Ide.Wait.{Settles, Waited, busy_wait-Waited}
use project_k.Ide.Access.{lba28, lba_io, write_address, ata_write, ide_ata_access}
use project_k.Ide.Sectors.{access_sectors, ide_write_sectors}
use project_k.Bus.Traffic.{sent}
use project_k.Ide.Detect.{Search, read_device}
use project_k.Ide.Identity.{Truncated, read_device-Truncated}
use project_k.Ide.Transfer.{sectors, ide_ata_access-sectors}
use project_k.Ide.Requests.{Granted, ide_write_sectors-Written}

abbrev dev : Hardware
dev bus port = 0x58

abbrev primary : Channel
primary = record { base = 0x1F0; control = 0x3F6; bm_ide = 0; no_int = 0 }

abbrev disk : Device
disk = record {
  reserved = 1;
  channel = 0;
  drive = 0;
  kind = 0;
  signature = 0;
  features = 0x200;
  command_sets = 0;
  size = 2048;
  model = λ k. 0;
}

abbrev start : Ide
start = record {
  channels = λ c. primary;
  devices = λ d. disk;
  irq_invoked = 0;
  memory = λ a. a % 251;
  log = [];
  bus = [];
}

abbrev blank : TaskFile
blank = record { current = λ r. 0; previous = λ r. 0 }

apart : Separate primary
apart = (omega arith, omega arith, inr (omega arith))

ready : (bus : Bus) → Settles dev 0x1F7 3 bus
ready bus = (0, omega arith, refl)

mode_run : (lba_io 0x200 1000).mode ≡ lba28
unfolding lba_io
mode_run = refl

write_address-Asks_example :
    Asks
      (lba_io 0x200 1000).mode
      1000
      8
      0
      (task_file 0x1F0 blank (write_address 0 0 8 (lba_io 0x200 1000) start).bus)
write_address-Asks_example =
    write_address-Asks blank 0 0x200 1000 8 0 start apart (omega arith) (omega arith) (omega arith)
      (λ h. omega arith)

busy_wait-Waited_test :
    (bus : Bus) × (busy_wait dev 0 3 0 start ≡ ended (record start { bus = bus }))
    × Waited dev 0x1F7 [] bus
busy_wait-Waited_test = busy_wait-Waited dev 0 0 3 start (ready [])

ide_ata_access-sectors_example :
    (s' : Ide) × (ide_ata_access dev 0 3 ata_write 0 1000 2 4096 start ≡ ended (0, s'))
    × (s'.memory ≡ start.memory)
    × (sent 0x1F0 s'.bus ≡ sent 0x1F0 [] ++ sectors start.memory 4096 2)
ide_ata_access-sectors_example =
    ide_ata_access-sectors dev 0 3 0 1000 2 4096 start (omega arith) apart ready

granted : Granted dev 0 3 0 2 1000 4096 start
granted = record {
  in_range = omega arith;
  present = λ e. absurd (omega arith);
  is_ata = refl;
  inside = omega arith;
}

ide_write_sectors-Written_test :
    (s' : Ide) × (ide_write_sectors dev 0 3 0 2 1000 4096 start ≡ ended (pos 0, s'))
    × (s'.memory ≡ start.memory)
    × (sent 0x1F0 s'.bus ≡ sent 0x1F0 [] ++ sectors start.memory 4096 2)
ide_write_sectors-Written_test =
    ide_write_sectors-Written dev 0 3 0 2 1000 4096 start granted apart ready

beyond_test :
    access_sectors dev 0 3 ata_write 0 2 2047 4096 start
    ≡ ended (negsuc 1, record start { log = beyond_the_end 2047 2048 ∷ [] })
unfolding access_sectors
beyond_test = refl

abbrev search : Search
search = record { count = 0; ide_buf = λ j. 0; ide = start }

read_device-Truncated_example : Truncated ((read_device dev 0 0 0 1 search start).ide.devices 0)
read_device-Truncated_example = read_device-Truncated dev 0 0 0 1 search start

-- On these channels the control register is the port 0x3F8 of the serial line.
control_run : (ide_write_register 0 12 2 start).bus ≡ wrote 0x3F8 2 ∷ []
unfolding ide_write_register write_port port_of
control_run = refl
