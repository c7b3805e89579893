-- ===== src/Kfs/Image.antt =====
-- The whole image: all files are read back.
use project_k.Base.{
  ℕ, ◌+◌, ◌*◌, ◌^◌, ◌<◌, ◌≡◌, refl, ◌∙◌, arith, ◌==◌, Bool, true, inl, List, [], ◌∷◌, map, Option,
  none, some, u32, length,
}
use project_k.Kfs.{superblock_bytes}
use project_k.Kfs.Writer.{
  superblock, Rom, File, kfs_write, kfs_write_files, new_superblock, kfs_write_superblock, mkkfs,
}
use project_k.Kfs.Reader.{find, as_superblock, read_chain, read_image}
use project_k.Kfs.Lasting.{find-here, read_chain-Kept}
use project_k.Kfs.Files.{AllFit, entry, Kept-push, files_loop-AllAdded}

as_superblock-new :
    (time : ℕ) (name : List ℕ) (blk_cnt files_cnt : ℕ)
    → as_superblock (superblock (new_superblock time name blk_cnt files_cnt))
      ≡ some (new_superblock time name blk_cnt files_cnt)
unfolding as_superblock new_superblock superblock_bytes
as_superblock-new time name blk_cnt files_cnt =
    let sum = (new_superblock time name blk_cnt files_cnt).cksum in
    let right : (sum == sum) ≡ true = ground arith in rw right

nowhere : (k : ℕ) → find k [] ≡ none
unfolding find
nowhere k = refl

-- An image by its superblock.
read_image_by :
    (rom : Rom) (time : ℕ) (name : List ℕ) (blk_cnt n : ℕ)
    → find 0 rom ≡ none
    → n < 2 ^ 32
    → read_image ((0, superblock (new_superblock time name blk_cnt n)) ∷ rom)
      ≡ read_chain ((0, superblock (new_superblock time name blk_cnt n)) ∷ rom) n 1
unfolding read_image new_superblock
read_image_by rom time name blk_cnt n free small =
    let s = new_superblock time name blk_cnt n in
    let cut : u32 n ≡ n = omega arith in
    rw (find-here 0 (superblock s) rom, as_superblock-new time name blk_cnt n, cut)

module _ (writable : ℕ → Bool) (all : (n : ℕ) → writable n ≡ true) where
  -- If every write succeeds, and some files, at least one, fit with their blocks the 32 bits of an
  -- index, then the tool ends with an image, and from this image are read, by the superblock, the chain
  -- of the inodes and the direct and indirect blocks, and with all checksums right, exactly these
  -- files in their order, each with its name up to 32 bytes, its size and its whole content.
  pub mkkfs-read_image :
      (rom_name : Option (List ℕ)) (rom_file : List ℕ) (time : ℕ) (f : File) (files : List File)
      → AllFit (f ∷ files)
      → 283 * length (f ∷ files) + 1 < 2 ^ 32
      → (rom : Rom) × (mkkfs writable rom_name (some rom_file) time (f ∷ files) ≡ some rom)
        × (read_image rom ≡ some (map entry (f ∷ files)))
  unfolding mkkfs kfs_write_files kfs_write_superblock kfs_write
  mkkfs-read_image rom_name rom_file time f files fit room =
      let n = length (f ∷ files) in
      let (blk_cnt, rom, run, a) =
        files_loop-AllAdded writable all n 0 1 (n + 1) (f ∷ files) [] fit (λ k h. nowhere k)
          (omega arith) (λ k h. inl (nowhere k)) (omega arith) (omega arith) in
      let free : find 0 rom ≡ none = a.below 0 (omega arith) ∙ nowhere 0 in
      let name : List ℕ = elim rom_name [ none ↦ rom_file | some name ↦ name ] in
      let s = superblock (new_superblock time name blk_cnt n) in
      (
        (0, s) ∷ rom,
        rw (run, all 0),
        read_image_by rom time name blk_cnt n free (omega arith)
            ∙ read_chain-Kept rom _ (Kept-push 0 s rom free) n 1 (map entry (f ∷ files)) a.chain,
      )
