-- ===== src/Graphic/Loading.antt =====
-- The pixels of an image that is loaded.
use project_k.Base.{
  ℕ, zero, suc, ◌+◌, ◌*◌, ◌^◌, ◌<◌, ◌≤◌, ◌≡◌, refl, sym, ap, ◌∙◌, arith, ltb, ◌==◌, Bool, true,
  false, List, [], ◌∷◌, Option, some, length, take, drop, get_or, u32,
}
use project_k.Base.Signed.{lt32, sub32}
use native.Mathlib.Nat.{mul-add, mul_comm, mul-div_right}
use project_k.Graphic.Bitmaps.{
  Bitmap, image, bmp_offset, bmp_width, bmp_height, bmp_size, padding, signed_bm, rows_allocated,
  load_rows, load_pixels, load_image,
}

-- A part of a list: its length, and its entries.
length-part : (k n : ℕ) (xs : List ℕ) → k + n ≤ length xs → length (take n (drop k xs)) ≡ n
length-part zero zero xs h = refl
length-part zero (suc n) [] h = absurd (omega (arith, h))
length-part zero (suc n) (x ∷ xs) h = ap suc (length-part zero n xs (omega (arith, h)))
length-part (suc k) n [] h = absurd (omega (arith, h))
length-part (suc k) n (x ∷ xs) h = length-part k n xs (omega (arith, h))

get_or-take : (n j : ℕ) (xs : List ℕ) → j < n → get_or (take n xs) j 0 ≡ get_or xs j 0
get_or-take zero j xs h = absurd (omega (arith, h))
get_or-take (suc n) j [] h = refl
get_or-take (suc n) zero (x ∷ xs) h = refl
get_or-take (suc n) (suc j) (x ∷ xs) h = get_or-take n j xs (omega (arith, h))

get_or-drop : (k j : ℕ) (xs : List ℕ) → get_or (drop k xs) j 0 ≡ get_or xs (k + j) 0
get_or-drop zero j xs = let e : 0 + j ≡ j = omega arith in rw e refl
get_or-drop (suc k) j [] = refl
get_or-drop (suc k) j (x ∷ xs) =
    let e : suc k + j ≡ suc (k + j) = omega arith in get_or-drop k j xs ∙ rw e refl

-- The rows of `width` bytes that stand in a file from `k` on, each with `ppl` more bytes behind it.
abbrev rows_of : (n width ppl k : ℕ) → List ℕ → List (List ℕ)
rows_of zero width ppl k file = []
rows_of (suc n) width ppl k file =
    take width (drop k file) ∷ rows_of n width ppl (k + width + ppl) file

rows_of-entry :
    (n width ppl k i j : ℕ) (file : List ℕ)
    → i < n
    → j < width
    → get_or (get_or (rows_of n width ppl k file) i []) j 0
      ≡ get_or file (k + i * (width + ppl) + j) 0
rows_of-entry zero width ppl k i j file h h' = absurd (omega (arith, h))
rows_of-entry (suc n) width ppl k zero j file h h' =
    let e : k + 0 * (width + ppl) + j ≡ k + j = omega arith in
    rw e (get_or-take width j (drop k file) h' ∙ get_or-drop k j file)
rows_of-entry (suc n) width ppl k (suc i) j file h h' =
    let e : k + suc i * (width + ppl) + j ≡ (k + width + ppl) + i * (width + ppl) + j =
      ground arith in
    rw e (rows_of-entry n width ppl (k + width + ppl) i j file (omega (arith, h)) h')

rows_allocated-all :
    (calloc : ℕ → Bool) → ((n : ℕ) → calloc n ≡ true) → (n : ℕ) → rows_allocated calloc n ≡ true
unfolding rows_allocated
rows_allocated-all calloc h zero = refl
rows_allocated-all calloc h (suc n) = rw (rows_allocated-all calloc h n, h (2 + n)) refl

-- The size in a header, divided up into rows with the same padding.
padding-even :
    (bmp : List ℕ) (p : ℕ)
    → 0 < bmp_height bmp
    → bmp_size bmp < 2 ^ 32
    → bmp_size bmp ≡ bmp_height bmp * (bmp_width bmp + p)
    → padding bmp ≡ p
padding-even bmp p tall fits even =
    let size : bmp_size bmp ≡ bmp_height bmp * bmp_width bmp + bmp_height bmp * p =
      even ∙ mul-add (bmp_height bmp) (bmp_width bmp) p in
    let same = mul_comm (bmp_width bmp) (bmp_height bmp) in
    let left : sub32 (bmp_size bmp) (u32 (bmp_width bmp * bmp_height bmp)) ≡ bmp_height bmp * p =
      omega (arith, size, same, fits) in
    rw left (mul-div_right p tall)

-- A file with the bytes `file`, whose state tells the place in it.
module _ {S : Type 0} (read : (count : ℕ) → S → Option (List ℕ × S))
    (lseek : (offset : ℕ) → (from_here : Bool) → S → Option S) (file : List ℕ) (place : S → ℕ)
    (read-gives : (n : ℕ) (fd : S)
      → place fd + n ≤ length file
      → (fd' : S) × (read n fd ≡ some (take n (drop (place fd) file), fd'))
        × (place fd' ≡ place fd + n))
    (lseek-set : (o : ℕ) (fd : S)
      → o ≤ length file
      → (fd' : S) × (lseek o false fd ≡ some fd') × (place fd' ≡ o))
    (lseek-cur : (o : ℕ) (fd : S)
      → place fd + o ≤ length file
      → (fd' : S) × (lseek o true fd ≡ some fd') × (place fd' ≡ place fd + o)) where
  load_rows-read :
      (n width ppl k : ℕ) (fd : S)
      → place fd ≡ k
      → width < 2 ^ 31
      → k + n * (width + ppl) ≤ length file
      → load_rows read lseek n width ppl fd ≡ some (rows_of n width ppl k file)
  unfolding load_rows
  load_rows-read zero width ppl k fd at few room = refl
  load_rows-read (suc n) width ppl k fd at few room =
      let more : k + width + ppl + n * (width + ppl) ≤ length file = ground (arith, room) in
      let (fd1, r, at1) = read-gives width fd (omega (arith, at, more)) in
      let (fd2, l, at2) = lseek-cur ppl fd1 (omega (arith, at, at1, more)) in
      let full : length (take width (drop k file)) ≡ width =
        length-part k width file (omega (arith, more)) in
      let not_short : lt32 width width ≡ false = ground arith in
      let rest =
        load_rows-read n width ppl (k + width + ppl) fd2 (omega (arith, at, at1, at2)) few more in
      let row : read width fd ≡ some (take width (drop k file), fd1) =
        r ∙ ap (λ k. some (take width (drop k file), fd1)) at in
      rw (row, full, not_short) (rw l (rw rest refl))

  -- On a file at its start, of which a read gives the next bytes and lseek moves the place, with a
  -- header of a bitmap, of at least one row and of rows below 2^31, that has all its rows, and with
  -- memory for it, the image is loaded: it has the size of the header, and its pixel in the row i and
  -- the column j is the byte of the file behind i rows with their padding and j pixels from the offset
  -- in the header on. When the size in the header is below 2^32 and that of rows with p bytes behind each,
  -- the padding is p.
  pub load_image-pixels :
      (fd : S) (calloc : ℕ → Bool) (bmp : List ℕ)
      → place fd ≡ 0
      → 54 ≤ length file
      → take 54 file ≡ bmp
      → signed_bm bmp ≡ true
      → ((n : ℕ) → calloc n ≡ true)
      → 0 < bmp_height bmp
      → bmp_width bmp < 2 ^ 31
      → bmp_offset bmp + bmp_height bmp * (bmp_width bmp + padding bmp) ≤ length file
      → (b : Bitmap) × (load_image read lseek (some fd) calloc ≡ image b)
        × (b.width ≡ bmp_width bmp)
        × (b.height ≡ bmp_height bmp)
        × ((i j : ℕ)
            → i < b.height
            → j < b.width
            → get_or (get_or b.rows i []) j 0
              ≡ get_or file (bmp_offset bmp + i * (b.width + padding bmp) + j) 0)
        × ((p : ℕ)
            → bmp_size bmp < 2 ^ 32
            → bmp_size bmp ≡ b.height * (b.width + p)
            → padding bmp ≡ p)
  unfolding load_image load_pixels
  load_image-pixels fd calloc bmp at header head signed memory tall few room =
      let (fd1, r, at1) = read-gives 54 fd (omega (arith, at, header)) in
      let bytes : read 54 fd ≡ some (bmp, fd1) =
        r ∙ ap (λ k. some (take 54 (drop k file), fd1)) at ∙ ap (λ h. some (h, fd1)) head in
      let (fd2, l, at2) = lseek-set (bmp_offset bmp) fd1 (omega (arith, room)) in
      let whole : ltb (length bmp) 54 ≡ false =
        let e : length bmp ≡ 54 = ap length (sym head) ∙ length-part 0 54 file header in
        ground (arith, e) in
      let some_row : (bmp_height bmp == 0) ≡ false = ground (arith, tall) in
      let rows =
        load_rows-read (bmp_height bmp) (bmp_width bmp) (padding bmp) (bmp_offset bmp) fd2 at2 few
          room in
      (
        record {
          width = bmp_width bmp;
          height = bmp_height bmp;
          rows = rows_of (bmp_height bmp) (bmp_width bmp) (padding bmp) (bmp_offset bmp) file;
        },
        rw (bytes, load_image)
            (rw
              (whole, signed, memory 0, memory 1, rows_allocated-all calloc memory (bmp_height bmp))
              (rw some_row (rw l (rw rows refl)))),
        refl,
        refl,
        λ i j h h'.
            rows_of-entry (bmp_height bmp) (bmp_width bmp) (padding bmp) (bmp_offset bmp) i j file h
              h',
        λ p fits even. padding-even bmp p tall fits even,
      )
