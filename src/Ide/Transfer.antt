-- ===== src/Ide/Transfer.antt =====
-- What a write of sectors sends to the data port.
use project_k.Base.{
  ℕ, zero, suc, ◌+◌, ◌*◌, ◌≡◌, refl, ◌∙◌, arith, ◌<◌, true, false, leb, ◌==◌, List, [], ◌∷◌, ◌++◌,
  u16, u32,
}
use mathlib.Core.Path.{subst}
use mathlib.Core.List.{append-nil, append_assoc}
use project_k.Bus.{Bus, Hardware}
use project_k.Ide.{
  Ide, Channel, ended, port_of, read_port, ide_read_register, ide_write_register, busy_wait, pause,
  ide_polling,
}
use project_k.Ide.Reg
use project_k.Ide.TaskFile.{Separate}
use project_k.Bus.Traffic.{sent}
use project_k.Ide.Silence.{
  Sends, Sends-trans, quietly, low-Sends, control-Sends, write_address-Sends,
}
use project_k.Ide.Wait.{Settles, polls, busy_wait-Waited}
use project_k.Ide.Access.{
  LbaMode, lba_io, write_address, outsw, write_loop, transfer, command, cache_flush, access_device,
  ide_ata_access, ata_write, no_interrupts,
}

-- `n` words of memory, and the words of `n` sectors.
unfoldable pub words : (ℕ → ℕ) → (buffer n : ℕ) → List ℕ
words memory buffer zero = []
words memory buffer (suc n) =
    let at = u32 (buffer + 2 * n) in
    words memory buffer n ++ (u16 (memory at + 256 * memory (u32 (at + 1))) ∷ [])

unfoldable pub sectors : (ℕ → ℕ) → (buffer n : ℕ) → List ℕ
sectors memory buffer zero = []
sectors memory buffer (suc n) = words memory buffer 256 ++ sectors memory (u32 (buffer + 512)) n

sent-polls :
    (port status n : ℕ) (dev : Hardware) (bus : Bus)
    → sent port (polls dev status n bus) ≡ sent port bus
unfolding polls sent
sent-polls port status zero dev bus = refl
sent-polls port status (suc n) dev bus = sent-polls port status n dev _

module _ (channel : ℕ) (c : Channel) (apart : Separate c) where
  outsw-Sends :
      (n buffer : ℕ) (s : Ide)
      → s.channels channel ≡ c
      → Sends channel c (words s.memory buffer n) s (outsw n c.base buffer s)
  unfolding outsw words sent
  outsw-Sends zero buffer s same = record { same = same; memory = refl; data_port = rw append-nil }
  outsw-Sends (suc n) buffer s same =
      let before = outsw-Sends n buffer s same in
      let port : u16 c.base ≡ c.base = omega arith in
      let self : (c.base == c.base) ≡ true = ground arith in
      record {
        same = before.same;
        memory = before.memory;
        data_port = rw (port, self, before.data_port, before.memory) (simp append_assoc);
      }

  module _ (dev : Hardware) (garbage fuel : ℕ)
      (ready : (bus : Bus) → Settles dev (u16 (c.base + 7)) fuel bus) where
    busy_wait-Sends :
        (s : Ide)
        → s.channels channel ≡ c
        → (s' : Ide) × (busy_wait dev garbage fuel channel s ≡ ended s') × Sends channel c [] s s'
    busy_wait-Sends s same =
        let settles : Settles dev (u16 ((s.channels channel).base + 7)) fuel s.bus =
          rw same (ready s.bus) in
        let (bus, r, w) = busy_wait-Waited dev garbage channel fuel s settles in
        (
          record s { bus = bus },
          r,
          record {
            same = same;
            memory = refl;
            data_port = rw (w.history, append-nil) (sent-polls c.base _ (suc w.readings) dev s.bus);
          },
        )

    pause-Sends :
        (n : ℕ) (s : Ide)
        → s.channels channel ≡ c
        → Sends channel c [] s (pause dev garbage n channel s)
    unfolding pause ide_read_register read_port port_of sent
    pause-Sends zero s same = record { same = same; memory = refl; data_port = rw append-nil }
    pause-Sends (suc n) s same =
        let before = pause-Sends n s same in
        record { same = before.same; memory = before.memory; data_port = before.data_port }

    ide_polling-Sends :
        (s : Ide)
        → s.channels channel ≡ c
        → (s' : Ide) × (ide_polling dev garbage fuel channel false s ≡ ended (0, s'))
          × Sends channel c [] s s'
    unfolding ide_polling
    ide_polling-Sends s same =
        let w1 = pause-Sends 4 s same in
        let (s', r, w2) = busy_wait-Sends (pause dev garbage 4 channel s) w1.same in
        (s', rw r, quietly channel c apart _ _ _ _ w1 w2)

    write_loop-Sends :
        (n buffer : ℕ) (s : Ide)
        → s.channels channel ≡ c
        → (s' : Ide) × (write_loop dev garbage n fuel channel c.base buffer s ≡ ended s')
          × Sends channel c (sectors s.memory buffer n) s s'
    unfolding write_loop sectors
    write_loop-Sends zero buffer s same =
        (s, refl, record { same = same; memory = refl; data_port = rw append-nil })
    write_loop-Sends (suc n) buffer s same =
        let (s1, r1, w1) = ide_polling-Sends s same in
        let w2 = outsw-Sends 256 buffer s1 w1.same in
        let (s3, r3, w3) =
          write_loop-Sends n (u32 (buffer + 512)) (outsw 256 c.base buffer s1) w2.same in
        let s2 = outsw 256 c.base buffer s1 in
        let w2' = subst (λ m. Sends channel c (words m buffer 256) s1 s2) w1.memory w2 in
        let w3' =
          subst (λ m. Sends channel c (sectors m (u32 (buffer + 512)) n) s2 s3)
            (w2.memory ∙ w1.memory) w3 in
        (
          s3,
          rw r1 r3,
          quietly channel c apart _ _ _ _ w1 (Sends-trans channel c apart _ _ _ _ _ w2' w3'),
        )

    transfer-Sends :
        (mode : LbaMode) (nb_sects buffer : ℕ) (s : Ide)
        → s.channels channel ≡ c
        → (s' : Ide) × (transfer dev garbage mode fuel ata_write channel c.base nb_sects buffer s
            ≡ ended (0, s'))
          × Sends channel c (sectors s.memory buffer nb_sects) s s'
    unfolding transfer
    transfer-Sends mode nb_sects buffer s same =
        let (s1, r1, w1) = write_loop-Sends nb_sects buffer s same in
        let w2 = low-Sends channel c apart 7 (cache_flush mode) s1 refl w1.same in
        let (s3, r3, w3) =
          ide_polling-Sends (ide_write_register channel Reg.command (cache_flush mode) s1)
            w2.same in
        (
          s3,
          rw (r1, r3),
          subst (λ xs. Sends channel c xs s s3) (append-nil _)
              (Sends-trans channel c apart _ _ _ _ _ w1 (quietly channel c apart _ _ _ _ w2 w3)),
        )

-- A write of sectors with one of the five drives, to a channel whose control register is not among the ports of its drive and
-- whose status register is at no time busy for `fuel` readings: it ends without an error, leaves
-- memory as it was, and sends to the data port the 256 words of each sector of the buffer, in
-- order, and nothing else.
pub ide_ata_access-sectors :
    (dev : Hardware) (garbage fuel drive lba nb_sects buffer : ℕ) (s : Ide)
    → drive < 5
    → let c = s.channels (s.devices drive).channel in
      Separate c
      → ((bus : Bus) → Settles dev (u16 (c.base + 7)) fuel bus)
      → (s' : Ide) × (ide_ata_access dev garbage fuel ata_write drive lba nb_sects buffer s
          ≡ ended (0, s'))
        × (s'.memory ≡ s.memory)
        × (sent c.base s'.bus ≡ sent c.base s.bus ++ sectors s.memory buffer nb_sects)
unfolding ide_ata_access access_device
ide_ata_access-sectors dev garbage fuel drive lba nb_sects buffer s in_range apart ready =
    let there : leb 5 drive ≡ false = ground (arith, in_range) in
    let channel = (s.devices drive).channel in
    let c = record (s.channels channel) { no_int = 2 } in
    let a = lba_io (s.devices drive).features lba in
    let self : (channel == channel) ≡ true = ground arith in
    let s0 = no_interrupts channel s in
    let w0 = control-Sends channel c apart 2 s0 (rw self) in
    let (s1, r1, w1) = busy_wait-Sends channel c apart dev garbage fuel ready _ w0.same in
    let s2 = write_address channel (s.devices drive).drive nb_sects a s1 in
    let w2 = write_address-Sends channel c apart (s.devices drive).drive nb_sects a s1 w1.same in
    let s3 = ide_write_register channel Reg.command (command a.mode ata_write garbage) s2 in
    let w3 = low-Sends channel c apart 7 (command a.mode ata_write garbage) s2 refl w2.same in
    let to_here : Sends channel c [] s0 s3 =
      quietly channel c apart _ _ _ _ w0
        (quietly channel c apart _ _ _ _ w1 (quietly channel c apart _ _ _ _ w2 w3)) in
    let (s4, r4, w4) =
      transfer-Sends channel c apart dev garbage fuel ready a.mode nb_sects buffer s3 w3.same in
    let w4' : Sends channel c (sectors s.memory buffer nb_sects) s3 s4 =
      subst (λ m. Sends channel c (sectors m buffer nb_sects) s3 s4) to_here.memory w4 in
    let all = quietly channel c apart _ _ _ _ to_here w4' in
    (s4, rw there (rw (r1, w3.same) r4), all.memory, all.data_port)
