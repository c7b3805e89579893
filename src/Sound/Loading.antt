-- ===== src/Sound/Loading.antt =====
-- A melody that the tool has written, loaded.
use project_k.Base.{
  ℕ, ◌+◌, ◌*◌, ◌^◌, ◌<◌, ◌≤◌, ◌≡◌, refl, ap, ◌∙◌, arith, leb, Bool, true, false, List, [], ◌∷◌,
  ◌++◌, some, u32, length, take, drop,
}
use project_k.Sound.{
  Melody, magic, int_bytes, int_of, tones_written, tone_bytes, mkksf, end_of_melody, melody,
  load_tones, load_sound,
}

-- Numbers that fit in 32 bits.
abbrev pub Fit : List Melody → Type 0
Fit [] = Unit {0}
Fit (t ∷ ts) = (t.freq < 2 ^ 32) × (t.duration < 2 ^ 32) × Fit ts

int_of-int_bytes : (v : ℕ) → v < 2 ^ 32 → int_of (int_bytes v) ≡ v
int_of-int_bytes v h = omega (arith, h)

tones_written-whole :
    (last t : Melody) (ts : List Melody) → tones_written last (t ∷ ts) false ≡ t ∷ ts
unfolding tones_written
tones_written-whole last t [] = refl
tones_written-whole last t (u ∷ ts) = ap (λ r. t ∷ r) (tones_written-whole t u ts)

-- A file of which `left` tells the bytes that are still to be read.
module _ {S : Type 0} (read : (count : ℕ) → S → List ℕ × S) (left : S → List ℕ)
    (read-gives : (n : ℕ) (fd : S) → (read n fd).0 ≡ take n (left fd))
    (read-leaves : (n : ℕ) (fd : S) → left (read n fd).1 ≡ drop n (left fd)) where
  read_int :
      (v : ℕ) (bs : List ℕ) (fd : S)
      → left fd ≡ int_bytes v ++ bs
      → ((read 4 fd).0 ≡ int_bytes v) × (left (read 4 fd).1 ≡ bs)
  read_int v bs fd e = (read-gives 4 fd ∙ ap (take 4) e, read-leaves 4 fd ∙ ap (drop 4) e)

  load_tones-written :
      (ts : List Melody) (i size : ℕ) (fd : S)
      → left fd ≡ tone_bytes ts
      → Fit ts
      → 8 * (i + length ts) + 8 ≤ size
      → load_tones read (length ts) i size fd ≡ melody (ts ++ (end_of_melody ∷ []))
  unfolding load_tones tone_bytes
  load_tones-written [] i size fd e fit room =
      let inside : leb (8 * i + 8) size ≡ true = ground (arith, room) in rw inside refl
  load_tones-written (t ∷ ts) i size fd e fit room =
      let inside : leb (8 * i + 8) size ≡ true = ground (arith, room) in
      let (f, e') = read_int t.freq (int_bytes t.duration ++ tone_bytes ts) fd e in
      let (d, e'') = read_int t.duration (tone_bytes ts) (read 4 fd).1 e' in
      let rest =
        load_tones-written ts (i + 1) size (read 4 (read 4 fd).1).1 e'' fit.2
          (omega (arith, room)) in
      rw (inside, f, d, rest, int_of-int_bytes t.freq fit.0, int_of-int_bytes t.duration fit.1) refl

  -- On a file of which a read gives the next bytes, and leaves those behind them, and with memory for
  -- it, loading what the tool wrote gives the tones of the text, if there is one and nothing is behind
  -- the last, and then the tone that ends a melody. They are fewer than 2^28, in numbers of 32 bits.
  pub load_sound-mkksf :
      (garbage t : Melody) (ts : List Melody) (malloc : ℕ → Bool) (fd : S)
      → left fd ≡ mkksf garbage (t ∷ ts) false
      → Fit (t ∷ ts)
      → length (t ∷ ts) < 2 ^ 28
      → malloc (8 * length (t ∷ ts) + 8) ≡ true
      → load_sound read (some fd) malloc ≡ melody ((t ∷ ts) ++ (end_of_melody ∷ []))
  unfolding load_sound mkksf
  load_sound-mkksf garbage t ts malloc fd e fit few memory =
      let written = tones_written-whole garbage t ts in
      let e0 : left fd ≡ magic ++ int_bytes (length (t ∷ ts)) ++ tone_bytes (t ∷ ts) =
        e ∙ rw written refl in
      let m : (read 4 fd).0 ≡ magic = read-gives 4 fd ∙ ap (take 4) e0 in
      let e1 = read-leaves 4 fd ∙ ap (drop 4) e0 in
      let (n, e2) = read_int (length (t ∷ ts)) (tone_bytes (t ∷ ts)) (read 4 fd).1 e1 in
      let number = int_of-int_bytes (length (t ∷ ts)) (omega (arith, few)) in
      let size : u32 ((length (t ∷ ts) + 1) * 8) ≡ 8 * length (t ∷ ts) + 8 = ground (arith, few) in
      let positive : leb (2 ^ 31) (length (t ∷ ts)) ≡ false = ground (arith, few) in
      let loaded =
        load_tones-written (t ∷ ts) 0 (8 * length (t ∷ ts) + 8) (read 4 (read 4 fd).1).1 e2 fit
          (omega arith) in
      rw (m, n) (rw number (rw size (rw (memory, positive) loaded)))
