-- ===== src/Ide/Silence.antt =====
-- The writes to registers leave the data port alone.
use project_k.Base.{
  ℕ, ◌+◌, ◌-◌, ◌≡◌, refl, ◌∙◌, arith, true, false, ltb, leb, ◌&&◌, ◌==◌, List, [], ◌++◌, u16,
}
use mathlib.Core.List.{append-nil, append_assoc}
use project_k.Bus.Traffic.{sent}
use project_k.Ide.{Ide, Channel, port_of, write_port, ide_write_register}
use project_k.Ide.Reg
use project_k.Ide.TaskFile.{Separate}
use project_k.Ide.Access.{
  LbaMode, chs, lba28, lba48, LbaIo, drive_byte, write_extended, write_address,
}

-- Nothing went to the data port of the channel `c`, and `extra` did; the channel and memory stay.
pub record Sends (channel : ℕ) (c : Channel) (extra : List ℕ) (s s' : Ide) : Type 0 where
  pub same : s'.channels channel ≡ c
  pub memory : s'.memory ≡ s.memory
  pub data_port : sent c.base s'.bus ≡ sent c.base s.bus ++ extra

module _ (channel : ℕ) (c : Channel) (apart : Separate c) where
  pub Sends-trans :
      (xs ys : List ℕ) (a b d : Ide)
      → Sends channel c xs a b
      → Sends channel c ys b d
      → Sends channel c (xs ++ ys) a d
  Sends-trans xs ys a b d first next = record {
    same = next.same;
    memory = next.memory ∙ first.memory;
    data_port = next.data_port ∙ rw first.data_port (simp append_assoc);
  }

  pub quietly :
      (xs : List ℕ) (a b d : Ide)
      → Sends channel c [] a b
      → Sends channel c xs b d
      → Sends channel c xs a d
  quietly xs a b d first next = Sends-trans [] xs a b d first next

  control_silent : (u16 (c.control + 12 - 10) == c.base) ≡ false
  control_silent = ground arith

  pub low-Sends :
      (r v : ℕ) (s : Ide)
      → (leb 1 r && ltb r 8) ≡ true
      → s.channels channel ≡ c
      → Sends channel c [] s (ide_write_register channel r v s)
  unfolding ide_write_register write_port port_of sent
  low-Sends r v s h same =
      let low : ltb r 8 ≡ true = ground arith in
      let not_high : ltb 7 r ≡ false = ground arith in
      let silent : (u16 (c.base + r) == c.base) ≡ false = ground arith in
      record {
        same = rw (low, not_high, same);
        memory = rw (low, not_high);
        data_port = rw (low, not_high, same, silent, append-nil);
      }

  high-Sends :
      (r v : ℕ) (s : Ide)
      → (leb 8 r && ltb r 12) ≡ true
      → s.channels channel ≡ c
      → Sends channel c [] s (ide_write_register channel r v s)
  unfolding ide_write_register write_port port_of sent
  high-Sends r v s h same =
      let not_low : ltb r 8 ≡ false = ground arith in
      let high : ltb 7 r ≡ true = ground arith in
      let high' : ltb r 12 ≡ true = ground arith in
      let silent : (u16 (c.base + r - 6) == c.base) ≡ false = ground arith in
      record {
        same = rw (not_low, high, high', same);
        memory = rw (not_low, high, high');
        data_port = rw (not_low, high, high', same, control_silent, silent, append-nil);
      }

  pub control-Sends :
      (v : ℕ) (s : Ide)
      → s.channels channel ≡ c
      → Sends channel c [] s (ide_write_register channel Reg.control v s)
  unfolding ide_write_register write_port port_of sent
  control-Sends v s same = record {
    same = same;
    memory = refl;
    data_port = rw (same, control_silent, append-nil);
  }

  write_extended-Sends :
      (mode : LbaMode) (io3 : ℕ) (s : Ide)
      → s.channels channel ≡ c
      → Sends channel c [] s (write_extended mode channel io3 s)
  unfolding write_extended
  write_extended-Sends chs io3 s same = record {
    same = same;
    memory = refl;
    data_port = rw append-nil;
  }
  write_extended-Sends lba28 io3 s same = record {
    same = same;
    memory = refl;
    data_port = rw append-nil;
  }
  write_extended-Sends lba48 io3 s same =
      let w1 = high-Sends 8 0 s refl same in
      let w2 = high-Sends 9 io3 _ refl w1.same in
      let w3 = high-Sends 10 0 _ refl w2.same in
      let w4 = high-Sends 11 0 _ refl w3.same in
      quietly _ _ _ _ w1 (quietly _ _ _ _ w2 (quietly _ _ _ _ w3 w4))

  pub write_address-Sends :
      (slavebit nb_sects : ℕ) (a : LbaIo) (s : Ide)
      → s.channels channel ≡ c
      → Sends channel c [] s (write_address channel slavebit nb_sects a s)
  unfolding write_address
  write_address-Sends slavebit nb_sects a s same =
      let w1 = low-Sends 6 (drive_byte a.mode slavebit a.head) s refl same in
      let w2 = write_extended-Sends a.mode a.io3 _ w1.same in
      let w3 = low-Sends 2 nb_sects _ refl w2.same in
      let w4 = low-Sends 3 a.io0 _ refl w3.same in
      let w5 = low-Sends 4 a.io1 _ refl w4.same in
      let w6 = low-Sends 5 a.io2 _ refl w5.same in
      quietly _ _ _ _ w1
        (quietly _ _ _ _ w2 (quietly _ _ _ _ w3 (quietly _ _ _ _ w4 (quietly _ _ _ _ w5 w6))))
