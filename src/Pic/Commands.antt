-- ===== src/Pic/Commands.antt =====
-- The command sequences of k/pic_8259.c against the protocol of the 8259A: what each chip has
-- been told by the writes to its two ports.
use project_k.Base.{
  ℕ, ◌+◌, ◌*◌, ◌<◌, ◌≡◌, arith, ◌==◌, Bool, true, false, if◌then◌else◌, [], ◌∷◌, has_bit, u8,
}
use project_k.Base.Digits.{fields-bit_or}
use project_k.Bus.{Event, wrote, read, Bus, Hardware}
use project_k.Pic.{init_pic_8259, read_register, disable_pic}

-- Which initialization word a chip waits for; `ready` is normal operation.
pub data Phase : Type 0 where
  ready word2 word3 word4 : Phase

-- `single`, `level` and `fourth` are what ICW1 said: that there is no other chip, that lines are
-- triggered by their level, and that a fourth word comes.
pub record Chip : Type 0 where
  pub phase : Phase
  pub single : Bool
  pub level : Bool
  pub fourth : Bool
  pub offset : ℕ
  pub cascade : ℕ
  pub mode : ℕ
  pub mask : ℕ

-- ICW1 (bit 4 of a command) starts the sequence and clears the mask; if no fourth word comes, the
-- mode is that of the 8080.
command : ℕ → Chip → Chip
command v c =
    if has_bit v 4
    then record c {
      phase = word2;
      single = has_bit v 1;
      level = has_bit v 3;
      fourth = has_bit v 0;
      mode = if has_bit v 0 then c.mode else 0;
      mask = 0;
    }
    else c

-- The last word but the fourth has come.
third_done : Chip → Chip
third_done c = record c { phase = if c.fourth then word4 else ready }

-- A chip that is alone gets no third word.
data_in : Phase → ℕ → Chip → Chip
data_in ready v c = record c { mask = v }
data_in word2 v c =
    let c = record c { offset = v } in if c.single then third_done c else record c { phase = word3 }
data_in word3 v c = third_done (record c { cascade = v })
data_in word4 v c = record c { phase = ready; mode = v }

-- A chip hears its command port and its data port.
listen : ℕ → ℕ → Event → Chip → Chip
listen cmd dat (wrote p v) c =
    if p == cmd then command v c else if p == dat then data_in c.phase v c else c
listen cmd dat (read p v) c = c

pub chip_after : ℕ → ℕ → Chip → Bus → Chip
chip_after cmd dat c [] = c
chip_after cmd dat c (e ∷ bus) = listen cmd dat e (chip_after cmd dat c bus)

abbrev pub master : Chip → Bus → Chip
master c bus = chip_after 0x20 0x21 c bus

abbrev pub slave : Chip → Bus → Chip
slave c bus = chip_after 0xA0 0xA1 c bus

abbrev pub set_up : ℕ → ℕ → Chip
set_up offset cascade = record {
  phase = ready;
  single = false;
  level = false;
  fourth = true;
  offset = offset;
  cascade = cascade;
  mode = 1;
  mask = 0;
}

-- Whatever the two chips were told before, after `init_PIC_8259` both are in normal operation, in
-- cascade and triggered by edges, in 8086 mode with the offsets given, which are below 256; the first knows of a slave on line 2, the second has the
-- cascade identity 2, and no line of either is masked.
pub init_pic_8259-set_up :
    (first second : Chip) (offset1 offset2 : ℕ) (bus : Bus)
    → offset1 < 256
    → offset2 < 256
    → (master first (init_pic_8259 offset1 offset2 bus) ≡ set_up offset1 4)
      × (slave second (init_pic_8259 offset1 offset2 bus) ≡ set_up offset2 2)
unfolding init_pic_8259 chip_after listen command data_in third_done
init_pic_8259-set_up first second offset1 offset2 bus h1 h2 = (ground arith, ground arith)

-- After `disable_PIC`, if both chips are in normal operation, every line of both is masked.
pub disable_pic-masks :
    (first second : Chip) (bus : Bus)
    → (master first bus).phase ≡ ready
    → (slave second bus).phase ≡ ready
    → ((master first (disable_pic bus)).mask ≡ 0xFF)
      × ((slave second (disable_pic bus)).mask ≡ 0xFF)
unfolding disable_pic chip_after listen command data_in third_done
disable_pic-masks first second bus h1 h2 = (ground arith, ground arith)

-- What `readIRQRequestRegister` and `readInServiceRegister` return has in its low byte the answer
-- of the second chip, as in its high byte: the first chip is never read.
pub read_register-slave :
    (dev : Hardware) (cmd : ℕ) (bus : Bus)
    → cmd < 256
    → (lo hi : ℕ) × ((read_register dev cmd bus).0 ≡ hi * 256 + lo)
      × ((read_register dev cmd bus).1
          ≡ read 0xA0 hi ∷ read 0xA0 lo ∷ wrote 0xA0 cmd ∷ wrote 0x20 cmd ∷ bus)
unfolding read_register
read_register-slave dev cmd bus h =
    let sent : Bus = wrote 0xA0 cmd ∷ wrote 0x20 cmd ∷ bus in
    let lo = u8 (dev sent 0xA0) in
    let hi = u8 (dev (read 0xA0 lo ∷ sent) 0xA0) in
    let e : u8 cmd ≡ cmd = omega arith in
    (lo, hi, rw e (ground (arith, fields-bit_or 8 hi lo (omega arith))), rw e)
