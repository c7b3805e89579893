-- ===== src/Sound/Tests.antt =====
-- Melodies that are written and loaded.
use project_k.Base.{ℕ, ◌≡◌, refl, arith, true, false, List, [], ◌∷◌, ◌++◌, some, take, drop}
use project_k.Sound.{
  Melody, mkksf, tones_written, end_of_melody, null, melody, out_of_bounds, load_sound, load_tones,
}
use project_k.Sound.Loading.{load_sound-mkksf}

-- A file as the bytes that are left of it.
abbrev read_bytes : (count : ℕ) → List ℕ → List ℕ × List ℕ
read_bytes n bs = (take n bs, drop n bs)

abbrev la : Melody
la = record { freq = 440; duration = 1000 }

abbrev mi : Melody
mi = record { freq = 330; duration = 500 }

load_sound-mkksf_example :
    load_sound read_bytes (some (mkksf la (la ∷ mi ∷ []) false)) (λ size. true)
    ≡ melody ((la ∷ mi ∷ []) ++ (end_of_melody ∷ []))
load_sound-mkksf_example =
    load_sound-mkksf read_bytes (λ bs. bs) (λ n bs. refl) (λ n bs. refl) la la (mi ∷ [])
      (λ size. true) (mkksf la (la ∷ mi ∷ []) false) refl
      (omega arith, omega arith, (omega arith, omega arith, tt)) (omega arith) refl

-- A newline behind the last number gives a round more, and the last tone twice.
newline_test : tones_written la (la ∷ mi ∷ []) true ≡ la ∷ mi ∷ mi ∷ []
unfolding tones_written
newline_test = refl

-- A file that ends early, and one of another kind.
short_test :
    load_sound read_bytes (some (b'.' ∷ b'K' ∷ b'S' ∷ b'F' ∷ 1 ∷ 0 ∷ 0 ∷ 0 ∷ 9 ∷ [])) (λ size. true)
    ≡ null
unfolding load_sound load_tones
short_test = refl

magic_test : load_sound read_bytes (some (b'B' ∷ b'M' ∷ [])) (λ size. true) ≡ null
unfolding load_sound
magic_test = refl

-- A number of tones of -1 asks for no memory, and the end of the melody is put in front of it.
negative_test :
    load_sound read_bytes
      (some (b'.' ∷ b'K' ∷ b'S' ∷ b'F' ∷ 255 ∷ 255 ∷ 255 ∷ 255 ∷ []))
      (λ size. true)
    ≡ out_of_bounds
unfolding load_sound
negative_test = refl
