-- ===== src/Ide/Detect.antt =====
-- The detection of devices: `IDE_read_buffer` and `init_IDE` of k/ide.c, but for the summary that it
-- prints at the end.
use project_k.Base.{
  ℕ, zero, suc, ◌+◌, ◌*◌, ◌/◌, ◌%◌, ◌^◌, ltb, ◌==◌, ◌&&◌, ◌||◌, not, Bool, true, false,
  if◌then◌else◌, Option, none, some, u16, bit_or, shl, has_bit,
}
use project_k.Bus.{Hardware, inl}
use project_k.Ide.{
  Ide, Channel, Device, Outcome, ended, out_of_fuel, ◌>>=◌, port_of, plain_write,
  ide_write_register, ide_read_register,
}
use project_k.Ide.Reg

-- The bytes of `ide_buf`.
abbrev pub Buffer : Type 0
Buffer = ℕ → ℕ

abbrev pub put : Buffer → (at value : ℕ) → Buffer
put buf at value j = if j == at then value else buf j

-- `buffer[index] = inl(reg)`, a long word with the lowest byte first.
abbrev pub put_long : Buffer → (index value : ℕ) → Buffer
put_long buf index value =
    put
      (put (put (put buf (4 * index) (value % 256)) (4 * index + 1) (value / 2 ^ 8 % 256))
        (4 * index + 2) (value / 2 ^ 16 % 256))
      (4 * index + 3) (value / 2 ^ 24 % 256)

abbrev pub u16_at : Buffer → ℕ → ℕ
u16_at buf at = buf at + 2 ^ 8 * buf (at + 1)

abbrev pub u32_at : Buffer → ℕ → ℕ
u32_at buf at = buf at + 2 ^ 8 * buf (at + 1) + 2 ^ 16 * buf (at + 2) + 2 ^ 24 * buf (at + 3)

-- The bytes of a string of words are swapped in pairs, after `n` pairs.
unfoldable pub swap_pairs : ℕ → Buffer → Buffer → Buffer
swap_pairs zero buf model = model
swap_pairs (suc n) buf model =
    put (put (swap_pairs n buf model) (2 * n) (buf (54 + 2 * n + 1))) (2 * n + 1) (buf (54 + 2 * n))

-- Spaces at the end become zeros, from index `n - 1` down to the first byte that is none.
unfoldable pub trim : ℕ → Buffer → Buffer
trim zero model = model
trim (suc k) model = let rest = trim k (put model k 0) in if model k == b' ' then rest else model

unfoldable pub model_of : Buffer → Buffer → Buffer
model_of buf old = trim 40 (put (swap_pairs 20 buf old) 40 0)

-- The parameters of a device, from its identification.
unfoldable pub identified : (kind channel drive : ℕ) → Buffer → Device → Device
identified kind channel drive buf old =
    let command_sets = u32_at buf 164 in
    record {
      reserved = 1;
      channel = channel;
      drive = drive;
      kind = kind;
      signature = u16_at buf 0;
      features = u16_at buf 98;
      command_sets = command_sets;
      size = if has_bit command_sets 26 then u32_at buf 200 else u32_at buf 120;
      model = model_of buf old.model;
    }

abbrev set_device : (ℕ → Device) → ℕ → Device → ℕ → Device
set_device devices n device m = if m == n then device else devices m

-- The state of the detection: how many devices were found, and the buffer.
pub record Search : Type 0 where
  pub count : ℕ
  pub ide_buf : Buffer
  pub ide : Ide

module _ (dev : Hardware) (garbage : ℕ) where
  -- The loop of `insl`, after `n` rounds; no port, no reading.
  unfoldable pub insl : ℕ → Option ℕ → Buffer → Ide → Buffer × Ide
  insl zero port buf s = (buf, s)
  insl (suc n) none buf s = (buf, s)
  insl (suc n) (some port) buf s =
      let (buf, s) = insl n (some port) buf s in
      let (v, bus) = inl dev port s.bus in (put_long buf n v, record s { bus = bus })

  unfoldable pub ide_read_buffer : (channel reg quads : ℕ) → Buffer → Ide → Buffer × Ide
  ide_read_buffer channel reg quads buf s =
      let no_int = (s.channels channel).no_int in
      let ready = plain_write channel Reg.control (bit_or 0x80 no_int) s in
      let (buf', done) = insl quads (port_of (ready.channels channel) reg) buf ready in
      if ltb 0x07 reg && ltb reg 0x0C
      then (buf', plain_write channel Reg.control no_int done)
      else insl quads (port_of (s.channels channel) reg) buf s

  -- `while (1)` on the status: whether the device reports an error.
  unfoldable pub probe : (fuel channel : ℕ) → Ide → Outcome (Bool × Ide)
  probe zero channel s = out_of_fuel
  probe (suc fuel) channel s =
      let (status, s) = ide_read_register dev garbage channel Reg.status s in
      let rest = probe fuel channel s in
      if has_bit status 0
      then ended (true, s)
      else if not (has_bit status 7) && has_bit status 3
      then ended (false, s)
      else rest

  -- Step (V) on, for a device of the type `kind`.
  unfoldable pub read_device : (kind channel drive : ℕ) → Search → Ide → Search
  read_device kind channel drive f s =
      let (buf, s) = ide_read_buffer channel 0 128 f.ide_buf s in
      record {
        count = f.count + 1;
        ide_buf = buf;
        ide = record s {
          devices =
              set_device s.devices f.count (identified kind channel drive buf (s.devices f.count));
        };
      }

  -- Step (IV): a device that reports an error may be an ATAPI device.
  unfoldable pub probe_atapi : (channel drive : ℕ) → Search → Ide → Search
  probe_atapi channel drive f s =
      let (c1, s) = ide_read_register dev garbage channel Reg.lba_mi s in
      let (ch, s) = ide_read_register dev garbage channel Reg.lba_hi s in
      let known = c1 == 0x14 && ch == 0xEB || c1 == 0x69 && ch == 0x96 in
      let asked = ide_write_register channel Reg.command 0xA1 s in
      if known then read_device 1 channel drive f asked else record f { ide = s }

  abbrev absent : Device → Device
  absent d = record d { reserved = 0 }

  -- The body of the two loops.
  unfoldable pub detect : (fuel channel drive : ℕ) → Search → Outcome Search
  detect fuel channel drive f =
      let s = record (f.ide) {
        devices = set_device f.ide.devices f.count (absent (f.ide.devices f.count));
      } in
      let s = ide_write_register channel Reg.drive (bit_or 0xA0 (shl drive 4)) s in
      let s = ide_write_register channel Reg.command 0xEC s in
      let (status, s) = ide_read_register dev garbage channel Reg.status s in
      let probed = probe fuel channel s >>= λ (err, s).
      ended (if err then probe_atapi channel drive f s else read_device 0 channel drive f s) in
      if status == 0 then ended (record f { ide = s }) else probed

  abbrev ports : (base control bus_master : ℕ) → Channel → Channel
  ports base control bus_master c = record c {
    base = u16 base;
    control = u16 control;
    bm_ide = u16 bus_master;
  }

  unfoldable pub init_ide :
      (fuel base0 control0 base1 control1 bus_master : ℕ) → Ide → Outcome Search
  init_ide fuel base0 control0 base1 control1 bus_master s =
      let s = record s {
        channels = λ c.
            if c == 0
            then ports base0 control0 bus_master (s.channels 0)
            else if c == 1
            then ports base1 control1 bus_master (s.channels 1)
            else s.channels c;
      } in
      let s = ide_write_register 1 Reg.control 2 (ide_write_register 0 Reg.control 2 s) in
      detect fuel 0 0 (record { count = 0; ide_buf = λ j. 0; ide = s })
      >>= detect fuel 0 1
      >>= detect fuel 1 0
      >>= detect fuel 1 1

  unfoldable pub init_ata : (fuel : ℕ) → Ide → Outcome Search
  init_ata fuel s = init_ide fuel 0x1F0 0x3F6 0x170 0x376 0x000 s
