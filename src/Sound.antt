-- ===== src/Sound.antt =====
-- Melodies: tools/mkksf/mkksf.c, which writes them to a file, and libs/libk/sound.c, which loads them.
pub mod Loading
mod Tests
use project_k.Base.{
  ℕ, zero, suc, ◌+◌, ◌-◌, ◌*◌, ◌/◌, ◌%◌, ◌^◌, leb, ◌==◌, ◌&&◌, not, Bool, true, false,
  if◌then◌else◌, List, [], ◌∷◌, ◌++◌, Option, none, some, u32, length,
}

-- A `struct melody`.
pub record Melody : Type 0 where
  pub freq : ℕ
  pub duration : ℕ

abbrev pub magic : List ℕ
magic = b'.' ∷ b'K' ∷ b'S' ∷ b'F' ∷ []

-- The bytes of an `int`, and the `int` of four bytes.
abbrev pub int_bytes : (v : ℕ) → List ℕ
int_bytes v = (v % 256) ∷ (v / 256 % 256) ∷ (v / 65536 % 256) ∷ (v / 16777216 % 256) ∷ []

abbrev pub int_of : List ℕ → ℕ
int_of (a ∷ b ∷ c ∷ d ∷ bs) = a + 256 * b + 65536 * c + 16777216 * d
int_of bs = 0

abbrev pub is_empty : List Melody → Bool
is_empty [] = true
is_empty (t ∷ ts) = false

-- The pairs that the loop of the tool writes, for the pairs of numbers in the text. `last` is in the
-- variables before. The end of the file is noticed by the read that meets it: by that of the last
-- number, unless something is behind it, as a newline is.
unfoldable pub tones_written : (last : Melody) → List Melody → (behind : Bool) → List Melody
tones_written last [] behind = last ∷ []
tones_written last (t ∷ ts) behind =
    let rest = tones_written t ts behind in t ∷ (if is_empty ts && not behind then [] else rest)

unfoldable pub tone_bytes : List Melody → List ℕ
tone_bytes [] = []
tone_bytes (t ∷ ts) = int_bytes t.freq ++ int_bytes t.duration ++ tone_bytes ts

-- The file that the tool leaves.
unfoldable pub mkksf : (garbage : Melody) → List Melody → (behind : Bool) → List ℕ
mkksf garbage tones behind =
    let written = tones_written garbage tones behind in
    magic ++ int_bytes (length written) ++ tone_bytes written

abbrev pub end_of_melody : Melody
end_of_melody = record { freq = 0; duration = 2 ^ 32 - 1 }

-- What `load_sound` comes to: NULL, the melody, or an access behind the memory of the melody.
pub data Loaded : Type 0 where
  null : Loaded
  melody : List Melody → Loaded
  out_of_bounds : Loaded

abbrev pub with_tone : Melody → Loaded → Loaded
with_tone t null = null
with_tone t (melody ts) = melody (t ∷ ts)
with_tone t out_of_bounds = out_of_bounds

abbrev pub same_bytes : List ℕ → List ℕ → Bool
same_bytes [] [] = true
same_bytes [] (b ∷ bs) = false
same_bytes (a ∷ xs) [] = false
same_bytes (a ∷ xs) (b ∷ bs) = (a == b) && same_bytes xs bs

-- The system call `read` on an open file, whose state is a `S`: the bytes read, and the file.
module _ {S : Type 0} (read : (count : ℕ) → S → List ℕ × S) where
  -- The loop from the tone `i` on, with `left` rounds to go, in memory of `size` bytes.
  unfoldable pub load_tones : (left i size : ℕ) → S → Loaded
  load_tones zero i size fd =
      if leb (8 * i + 8) size then melody (end_of_melody ∷ []) else out_of_bounds
  load_tones (suc left) i size fd =
      let freq = read 4 fd in
      let duration = read 4 freq.1 in
      let rest = load_tones left (i + 1) size duration.1 in
      if not (leb (8 * i + 8) size)
      then out_of_bounds
      else if not (length freq.0 == 4)
      then null
      else if not (length duration.0 == 4)
      then null
      else with_tone (record { freq = int_of freq.0; duration = int_of duration.0 }) rest

  -- `opened` is the answer of `open`, and `malloc` tells whether there is so much memory. A negative
  -- number of tones has no round, and puts the last tone in front of the memory.
  unfoldable pub load_sound : (opened : Option S) → (malloc : (size : ℕ) → Bool) → Loaded
  load_sound none malloc = null
  load_sound (some fd) malloc =
      let buf = read 4 fd in
      let nb = read 4 buf.1 in
      let size = u32 ((int_of nb.0 + 1) * 8) in
      let loaded = load_tones (int_of nb.0) 0 size nb.1 in
      if not (length buf.0 == 4 && same_bytes magic buf.0)
      then null
      else if not (length nb.0 == 4)
      then null
      else if not (malloc size)
      then null
      else if leb (2 ^ 31) (int_of nb.0)
      then out_of_bounds
      else loaded
