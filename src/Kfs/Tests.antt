-- ===== src/Kfs/Tests.antt =====
-- An image of two small files, and some checksums.
use project_k.Base.{ℕ, ◌<◌, ◌≡◌, refl, arith, true, [], ◌∷◌, map, none, some, get_or}
use project_k.Kfs.{sums, kfs_checksum}
use project_k.Kfs.Writer.{
  Rom, got, failed, File, kfs_read_block, direct, kfs_write_inode, write_file, files_loop,
  kfs_write_files, mkkfs,
}
use project_k.Kfs.Adler.{adler32, kfs_checksum-adler32}
use project_k.Kfs.Reader.{read_image}
use project_k.Kfs.Files.{entry, Fits}
use project_k.Kfs.Image.{mkkfs-read_image}

abbrev abc : ℕ → ℕ
abc i = get_or (b'a' ∷ b'b' ∷ b'c' ∷ []) i 0

abc_bytes : (i : ℕ) → abc i < 256
abc_bytes i = ground arith

abbrev hello : File
hello = record { basename = b'h' ∷ []; st_size = 3; reads = got 1 (2 ∷ []) ∷ got 3 [] ∷ [] }

abbrev empty : File
empty = record { basename = b'e' ∷ []; st_size = 0; reads = [] }

hello-Fits : Fits hello
hello-Fits = record {
  readable = (omega arith, (omega arith, tt));
  size = omega arith;
  parts = omega arith;
}

empty-Fits : Fits empty
empty-Fits = record { readable = tt; size = omega arith; parts = omega arith }

mkkfs-read_image_example :
    (rom : Rom) × (mkkfs (λ off. true) none (some (b'r' ∷ [])) 0 (hello ∷ empty ∷ []) ≡ some rom)
    × (read_image rom ≡ some (map entry (hello ∷ empty ∷ [])))
mkkfs-read_image_example =
    mkkfs-read_image (λ off. true) (λ off. refl) none (b'r' ∷ []) 0 hello (empty ∷ [])
      (hello-Fits, (empty-Fits, tt)) (omega arith)

kfs_checksum-adler32_example : kfs_checksum abc 3 ≡ adler32 3 abc
kfs_checksum-adler32_example = kfs_checksum-adler32 abc abc_bytes 3 (omega arith)

checksum_run : kfs_checksum abc 3 ≡ 0x024d0127
unfolding kfs_checksum sums
checksum_run = refl

-- A read that fails ends the tool.
failed_run :
    mkkfs
      (λ off. true)
      none
      (some [])
      0
      (record { basename = []; st_size = 1; reads = failed ∷ [] } ∷ [])
    ≡ none
unfolding mkkfs kfs_write_files files_loop write_file kfs_write_inode direct kfs_read_block
failed_run = refl
