-- ===== src/Graphic/Bitmaps.antt =====
-- The images of the games, which `load_image` of libs/libk/graphic.c loads from bitmaps.
use project_k.Base.{
  ℕ, zero, suc, ◌+◌, ◌*◌, ◌/◌, ltb, ◌==◌, ◌&&◌, ◌||◌, not, Bool, true, false, if◌then◌else◌, List,
  [], ◌∷◌, Option, none, some, u32, length, drop, get_or,
}
use project_k.Base.Options.{◌>>=◌}
use project_k.Base.Signed.{sub32, lt32}
use project_k.Sound.{int_of}

-- A `struct image`, with its rows.
pub record Bitmap : Type 0 where
  pub width : ℕ
  pub height : ℕ
  pub rows : List (List ℕ)

-- The fields of `struct bitmap_header` that are read; it has 54 bytes.
abbrev pub sizeof_bitmap_header : ℕ
sizeof_bitmap_header = 54

abbrev pub bmp_offset : List ℕ → ℕ
bmp_offset bmp = int_of (drop 10 bmp)

abbrev pub bmp_width : List ℕ → ℕ
bmp_width bmp = int_of (drop 18 bmp)

abbrev pub bmp_height : List ℕ → ℕ
bmp_height bmp = int_of (drop 22 bmp)

abbrev pub bmp_size : List ℕ → ℕ
bmp_size bmp = int_of (drop 34 bmp)

abbrev pub signed_bm : List ℕ → Bool
signed_bm bmp = (get_or bmp 0 0 == b'B') && (get_or bmp 1 0 == b'M')

-- The bytes behind each row.
abbrev pub padding : List ℕ → ℕ
padding bmp = sub32 (bmp_size bmp) (u32 (bmp_width bmp * bmp_height bmp)) / bmp_height bmp

-- What `load_image` comes to; the division by a height of 0 traps.
pub data LoadedImage : Type 0 where
  null : LoadedImage
  image : Bitmap → LoadedImage
  trap : LoadedImage

-- Whether there is memory for each row; the first two calls are for the image and the array.
unfoldable pub rows_allocated : (calloc : ℕ → Bool) → (n : ℕ) → Bool
rows_allocated calloc zero = true
rows_allocated calloc (suc n) = rows_allocated calloc n && calloc (2 + n)

-- The system calls on an open file: `read`, and `lseek` from the start or from the place itself. `none`
-- is their -1.
module _ {S : Type 0} (read : (count : ℕ) → S → Option (List ℕ × S))
    (lseek : (offset : ℕ) → (from_here : Bool) → S → Option S) where
  unfoldable pub load_rows : (n width ppl : ℕ) → S → Option (List (List ℕ))
  load_rows zero width ppl fd = some []
  load_rows (suc n) width ppl fd = read width fd >>= λ (row, fd).
      (if lt32 (length row) width then none else lseek ppl true fd) >>= λ fd.
      load_rows n width ppl fd >>= λ rows. some (row ∷ rows)

  unfoldable pub load_pixels : (bmp : List ℕ) → S → LoadedImage
  load_pixels bmp fd =
      if bmp_height bmp == 0
      then trap
      else elim (lseek (bmp_offset bmp) false fd
          >>= load_rows (bmp_height bmp) (bmp_width bmp) (padding bmp)) [
            | none ↦ null
            | some rows ↦
                image (record { width = bmp_width bmp; height = bmp_height bmp; rows = rows })
          ]

  unfoldable pub load_image : (opened : Option S) → (calloc : ℕ → Bool) → LoadedImage
  load_image none calloc = null
  load_image (some fd) calloc = elim (read sizeof_bitmap_header fd) [
    | none ↦ null
    | some (bmp, fd) ↦
        if ltb (length bmp) sizeof_bitmap_header || not (signed_bm bmp)
        then null
        else if not (calloc 0 && calloc 1 && rows_allocated calloc (bmp_height bmp))
        then null
        else load_pixels bmp fd
  ]
