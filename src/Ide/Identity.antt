-- ===== src/Ide/Identity.antt =====
-- What is left of a device's identification.
use project_k.Base.{
  ℕ, zero, suc, ◌+◌, ◌*◌, ◌^◌, ◌<◌, ◌≡◌, arith, ◌==◌, true, false, some, u16, has_bit,
}
use project_k.Bus.{Hardware}
use project_k.Ide.{Ide, Device, port_of}
use project_k.Ide.Detect.{
  Buffer, put_long, u32_at, identified, insl, ide_read_buffer, Search, read_device,
}

-- The bytes of the first `n` long words: two below 256, and two zeros.
pub record Halves (n : ℕ) (buf : Buffer) : Type 0 where
  pub low : (i : ℕ) → i < n → buf (4 * i) < 256
  pub high : (i : ℕ) → i < n → buf (4 * i + 1) < 256
  pub third : (i : ℕ) → i < n → buf (4 * i + 2) ≡ 0
  pub fourth : (i : ℕ) → i < n → buf (4 * i + 3) ≡ 0

put_long-Halves :
    (n v : ℕ) (buf : Buffer) → v < 2 ^ 16 → Halves n buf → Halves (suc n) (put_long buf n v)
put_long-Halves n v buf h halves = record {
  low = λ i k. ground (arith, halves.low i);
  high = λ i k. ground (arith, halves.high i);
  third = λ i k. ground (arith, halves.third i);
  fourth = λ i k. ground (arith, halves.fourth i);
}

u16-lt : (x : ℕ) → u16 x < 2 ^ 16
u16-lt x = omega arith

insl-Halves :
    (dev : Hardware) (garbage n port : ℕ) (buf : Buffer) (s : Ide)
    → Halves n (insl dev garbage n (some port) buf s).0
unfolding insl
insl-Halves dev garbage zero port buf s = record {
  low = λ i k. absurd (omega arith);
  high = λ i k. absurd (omega arith);
  third = λ i k. absurd (omega arith);
  fourth = λ i k. absurd (omega arith);
}
insl-Halves dev garbage (suc n) port buf s =
    put_long-Halves n _ _ (u16-lt _) (insl-Halves dev garbage n port buf s)

-- A device as far as its capabilities and its size were read.
pub record Truncated (d : Device) : Type 0 where
  pub features : d.features ≡ 0
  pub command_sets : d.command_sets < 2 ^ 16
  pub size : d.size < 2 ^ 16

identified-Truncated :
    (kind channel drive : ℕ) (buf : Buffer) (old : Device)
    → Halves 128 buf
    → Truncated (identified kind channel drive buf old)
unfolding identified
identified-Truncated kind channel drive buf old h =
    let sets : u32_at buf 164 < 2 ^ 16 = omega (
      arith,
      h.low 41 (omega arith),
      h.high 41 (omega arith),
      h.third 41 (omega arith),
      h.fourth 41 (omega arith),
    ) in
    let size : u32_at buf 120 < 2 ^ 16 = omega (
      arith,
      h.low 30 (omega arith),
      h.high 30 (omega arith),
      h.third 30 (omega arith),
      h.fourth 30 (omega arith),
    ) in
    let bit : has_bit (u32_at buf 164) 26 ≡ false = ground (arith, sets) in
    record {
      features = omega (arith, h.third 24 (omega arith), h.fourth 24 (omega arith));
      command_sets = sets;
      size = rw bit size;
    }

-- Since `inl` keeps only the lower half of a long word, the device that step (V) and (VI) record at
-- the place `count`, whatever the hardware answers, has no features, so that it is never addressed in
-- the mode of 28 bits, has no command set above the 16th, and a size below 2^16 sectors.
pub read_device-Truncated :
    (dev : Hardware) (garbage kind channel drive : ℕ) (f : Search) (s : Ide)
    → Truncated ((read_device dev garbage kind channel drive f s).ide.devices f.count)
unfolding read_device ide_read_buffer port_of
read_device-Truncated dev garbage kind channel drive f s =
    let self : (f.count == f.count) ≡ true = ground arith in
    rw self
      (identified-Truncated kind channel drive _ _ (insl-Halves dev garbage 128 _ f.ide_buf s))
