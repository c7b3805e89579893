-- ===== src/Ide/TaskFile.antt =====
-- The registers of a drive, as the writes of `IDE_ATA_access` leave them.
use project_k.Base.{
  ℕ, ◌+◌, ◌-◌, ◌^◌, ◌<◌, ◌≤◌, ◌≡◌, refl, arith, ltb, leb, ltb→lt, ◌==◌, true, false, ◌&&◌,
  if◌then◌else◌, ◌⊎◌, [], ◌∷◌, u8, u16,
}
use project_k.Bus.{Event, wrote, read, Bus}
use project_k.Ide.{Ide, Channel, ide_write_register, write_port, port_of}
use project_k.Ide.Access.{
  LbaMode, chs, lba28, lba48, LbaIo, drive_byte, write_extended, write_address,
}

-- The registers of a drive. Each keeps the value written last, and the one before it.
pub record TaskFile : Type 0 where
  pub current : ℕ → ℕ
  pub previous : ℕ → ℕ

abbrev pub latch : (r v : ℕ) → TaskFile → TaskFile
latch r v t = record {
  current = λ q. if q == r then v else t.current q;
  previous = λ q. if q == r then t.current q else t.previous q;
}

-- The eight registers stand at the ports from `base` on.
abbrev task_step : ℕ → Event → TaskFile → TaskFile
task_step base (wrote p v) t = if leb base p && ltb p (base + 8) then latch (p - base) v t else t
task_step base (read p v) t = t

unfoldable pub task_file : ℕ → TaskFile → Bus → TaskFile
task_file base t [] = t
task_file base t (e ∷ bus) = task_step base e (task_file base t bus)

-- The port of the control register is none of the eight.
abbrev pub Separate : Channel → Type 0
Separate c =
    (c.base + 8 ≤ 2 ^ 16)
    × (c.control + 2 < 2 ^ 16)
    × ((c.control + 2 < c.base) ⊎ (c.base + 8 ≤ c.control + 2))

-- The registers after the writes of `write_address`.
unfoldable pub extended : LbaMode → (io3 : ℕ) → TaskFile → TaskFile
extended chs io3 f = f
extended lba28 io3 f = f
extended lba48 io3 f = latch 5 0 (latch 4 0 (latch 3 (u8 io3) (latch 2 0 f)))

unfoldable pub addressed : (slavebit nb_sects : ℕ) → LbaIo → TaskFile → TaskFile
unfolding extended
addressed slavebit nb_sects a f = latch 5 (u8 a.io2) (
    latch 4 (u8 a.io1) (
      latch 3 (u8 a.io0) (
        latch 2 (u8 nb_sects)
          (extended a.mode a.io3 (latch 6 (u8 (drive_byte a.mode slavebit a.head)) f)))))

module _ (t : TaskFile) (channel : ℕ) (c : Channel) (apart : Separate c) where
  -- The channel is `c`, and the registers of its drive hold `f` after all accesses so far.
  pub record Holding (f : TaskFile) (s : Ide) : Type 0 where
    pub same : s.channels channel ≡ c
    pub registers : task_file c.base t s.bus ≡ f

  module _ (r v : ℕ) where
    low_write :
        (f : TaskFile) (s : Ide)
        → ltb r 8 ≡ true
        → Holding f s
        → Holding (latch r (u8 v) f) (ide_write_register channel r v s)
    unfolding ide_write_register write_port port_of task_file
    low_write f s low holding =
        let small : r < 8 = ltb→lt r 8 low in
        let not_high : ltb 7 r ≡ false = ground arith in
        let port : u16 (c.base + r) ≡ c.base + r = omega arith in
        let index : c.base + r - c.base ≡ r = omega arith in
        let inside : (leb c.base (c.base + r) && ltb (c.base + r) (c.base + 8)) ≡ true =
          ground arith in
        record {
          same = rw (low, not_high, holding.same);
          registers = rw (low, not_high, holding.same, port, inside, index, holding.registers);
        }

    high_write :
        (f : TaskFile) (s : Ide)
        → (leb 8 r && ltb r 12) ≡ true
        → Holding f s
        → Holding (latch (r - 6) (u8 v) f) (ide_write_register channel r v s)
    unfolding ide_write_register write_port port_of task_file
    high_write f s h holding =
        let above : 8 ≤ r = ground arith in
        let below : r < 12 = ground arith in
        let not_low : ltb r 8 ≡ false = ground arith in
        let high : ltb 7 r ≡ true = ground arith in
        let high' : ltb r 12 ≡ true = ground arith in
        let port : u16 (c.base + r - 6) ≡ c.base + r - 6 = omega arith in
        let index : c.base + r - 6 - c.base ≡ r - 6 = omega arith in
        let inside : (leb c.base (c.base + r - 6) && ltb (c.base + r - 6) (c.base + 8)) ≡ true =
          ground arith in
        let control : u16 (c.control + 12 - 10) ≡ c.control + 2 = omega arith in
        let outside : (leb c.base (c.control + 2) && ltb (c.control + 2) (c.base + 8)) ≡ false =
          ground arith in
        record {
          same = rw (not_low, high, high', holding.same);
          registers = rw (
            not_low, high, high', holding.same, control, outside, port, inside, index,
            holding.registers,
          );
        }

  write_extended-extended :
      (mode : LbaMode) (io3 : ℕ) (f : TaskFile) (s : Ide)
      → Holding f s
      → Holding (extended mode io3 f) (write_extended mode channel io3 s)
  unfolding write_extended extended
  write_extended-extended chs io3 f s h = h
  write_extended-extended lba28 io3 f s h = h
  write_extended-extended lba48 io3 f s h =
      let h1 = high_write 8 0 f s refl h in
      let h2 = high_write 9 io3 _ _ refl h1 in
      let h3 = high_write 10 0 _ _ refl h2 in high_write 11 0 _ _ refl h3

  pub write_address-addressed :
      (slavebit nb_sects : ℕ) (a : LbaIo) (f : TaskFile) (s : Ide)
      → Holding f s
      → Holding (addressed slavebit nb_sects a f) (write_address channel slavebit nb_sects a s)
  unfolding write_address addressed
  write_address-addressed slavebit nb_sects a f s h =
      let h1 = low_write 6 (drive_byte a.mode slavebit a.head) f s refl h in
      let h2 = write_extended-extended a.mode a.io3 _ _ h1 in
      let h3 = low_write 2 nb_sects _ _ refl h2 in
      let h4 = low_write 3 a.io0 _ _ refl h3 in
      let h5 = low_write 4 a.io1 _ _ refl h4 in low_write 5 a.io2 _ _ refl h5
