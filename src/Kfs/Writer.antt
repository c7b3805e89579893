-- ===== src/Kfs/Writer.antt =====
-- The program that makes an image, tools/mkkfs/mkkfs.c. `none` is an exit with an error.
use project_k.Base.{
  ℕ, zero, suc, ◌+◌, ◌-◌, ◌*◌, ◌/◌, ltb, ◌==◌, Bool, true, false, if◌then◌else◌, List, [], ◌∷◌,
  Option, none, some, u32, length, get_or,
}
use project_k.Base.Options.{◌>>=◌}
use project_k.Kfs.{
  Block, IBlock, Inode, Superblock, kfs_magic, kfs_blk_sz, kfs_blk_data_sz, kfs_direct_blk,
  kfs_indirect_blk, kfs_indirect_blk_cnt, kfs_fname_sz, kfs_name_sz, block_bytes, iblock_bytes,
  inode_bytes, superblock_bytes, iblock_front, inode_front, superblock_front, kfs_checksum,
}

pub data Content : Type 0 where
  block : Block → Content
  iblock : IBlock → Content
  inode : Inode → Content
  superblock : Superblock → Content

-- All writes to the image so far, each with the index of its block, the newest first.
abbrev pub Rom : Type 0
Rom = List (ℕ × Content)

-- What a `read` of a file yields: some bytes, at least one, or an error.
pub data Read : Type 0 where
  got : ℕ → List ℕ → Read
  failed : Read

-- What `kfs_read_block` yields.
pub data Input : Type 0 where
  filled : Block → List Read → Input
  at_end : Input
  read_error : Input

-- At the end of the file `read` returns 0.
unfoldable pub kfs_read_block : List Read → Input
kfs_read_block [] = at_end
kfs_read_block (failed ∷ fd) = read_error
kfs_read_block (got b bytes ∷ fd) =
    filled (record { idx = 0; usage = u32 (length (b ∷ bytes)); cksum = 0; content = b ∷ bytes }) fd

-- `a[i] = v`.
abbrev pub put : (ℕ → ℕ) → (i v : ℕ) → ℕ → ℕ
put a i v j = if j == i then v else a j

-- `strncpy` to a field of `n` bytes; `s` is the text without its zero.
abbrev pub text : (n : ℕ) → List ℕ → ℕ → ℕ
text n s i = if ltb i n then get_or s i 0 else 0

-- A file of the command line: the last part of its path, what `fstat` says of its size, and what
-- the reads of it yield. Where `open` fails, which the tool does not notice, the first read fails.
pub record File : Type 0 where
  pub basename : List ℕ
  pub st_size : ℕ
  pub reads : List Read

abbrev pub kfs_max_file_sz : ℕ
kfs_max_file_sz = (kfs_direct_blk + kfs_indirect_blk * kfs_indirect_blk_cnt) * kfs_blk_data_sz

abbrev align_up : ℕ → ℕ → ℕ
align_up v d = (v + d - 1) / d * d

-- The variables of `kfs_write_inode`, and the image.
pub record Writer : Type 0 where
  pub ino : Inode
  pub blk_idx : ℕ
  pub fd : List Read
  pub rom : Rom

-- `blk` with the index and the checksum that it gets.
abbrev pub numbered : ℕ → Block → Block
numbered idx blk = record blk {
  idx = idx;
  cksum = kfs_checksum (block_bytes (record blk { idx = idx })) kfs_blk_sz;
}

abbrev pub numbered_iblock : ℕ → IBlock → IBlock
numbered_iblock idx b = record b {
  idx = idx;
  cksum = kfs_checksum (iblock_bytes (record b { idx = idx })) iblock_front;
}

abbrev pub no_blocks : IBlock
no_blocks = record { idx = 0; blk_cnt = 0; blks = λ j. 0; cksum = 0 }

-- The inode as `kfs_write_files` starts it, of file `i` of `nb_files`.
unfoldable pub new_inode : (nb_files i inode_off : ℕ) → File → Inode
new_inode nb_files i inode_off f = record {
  inumber = u32 (i + 1);
  filename = text kfs_fname_sz f.basename;
  file_sz = u32 f.st_size;
  idx = u32 inode_off;
  blk_cnt = u32 (align_up f.st_size kfs_blk_data_sz / kfs_blk_data_sz);
  next_inode = if i == nb_files - 1 then 0 else u32 (inode_off + 1);
  d_blk_cnt = 0;
  i_blk_cnt = 0;
  d_blks = λ j. 0;
  i_blks = λ j. 0;
  cksum = 0;
}

abbrev pub summed : Inode → Inode
summed n = record n { cksum = kfs_checksum (inode_bytes n) inode_front }

-- `time` is the time of the run, or 0 in a build with `DEBUG`.
unfoldable pub new_superblock :
    (time : ℕ) → (fsname : List ℕ) → (blk_cnt files_cnt : ℕ) → Superblock
new_superblock time fsname blk_cnt files_cnt =
    let s : Superblock = record {
      magic = kfs_magic;
      name = text kfs_name_sz fsname;
      ctime = u32 time;
      blk_cnt = u32 blk_cnt;
      inode_cnt = u32 files_cnt;
      inode_idx = 1;
      cksum = 0;
    } in
    record s { cksum = kfs_checksum (superblock_bytes s) superblock_front }

-- Whether `pwrite` succeeds, for the index of a block.
module _ (writable : ℕ → Bool) where
  unfoldable pub kfs_write : (off : ℕ) → Content → Rom → Option Rom
  kfs_write off c rom = if writable off then some ((off, c) ∷ rom) else none

  -- The block just read goes to the image.
  unfoldable pub store : Block → List Read → Writer → Option Writer
  store blk fd w = kfs_write w.blk_idx (block (numbered w.blk_idx blk)) w.rom >>= λ rom.
      some (record w { blk_idx = u32 (w.blk_idx + 1); fd = fd; rom = rom })

  -- The first loop, from `i` on with `left` rounds to go; `false` is the `return` inside it.
  unfoldable pub direct : (left i : ℕ) → Writer → Option (Writer × Bool)
  direct zero i w = some (w, true)
  direct (suc left) i w = elim (kfs_read_block w.fd) [
    | read_error ↦ none
    | at_end ↦ some (w, false)
    | filled blk fd ↦ store blk fd w >>= λ s. direct left (suc i) (record s {
      ino = record (w.ino) {
        d_blks = put w.ino.d_blks i w.blk_idx;
        d_blk_cnt = w.ino.d_blk_cnt + 1;
      };
    })
  ]

  -- The inner loop over the blocks of one indirect block.
  unfoldable pub indirect_data : (left j : ℕ) → IBlock → Writer → Option (IBlock × Writer)
  indirect_data zero j b w = some (b, w)
  indirect_data (suc left) j b w = elim (kfs_read_block w.fd) [
    | read_error ↦ none
    | at_end ↦ some (b, w)
    | filled blk fd ↦
        store blk fd w
        >>= indirect_data left (suc j)
            (record b { blks = put b.blks j w.blk_idx; blk_cnt = b.blk_cnt + 1 })
  ]

  -- The indirect block itself, behind its data.
  unfoldable pub finish : (i : ℕ) → IBlock → Writer → Option Writer
  finish i b w = kfs_write w.blk_idx (iblock (numbered_iblock w.blk_idx b)) w.rom >>= λ rom.
      some (record w {
        ino = record (w.ino) {
          i_blks = put w.ino.i_blks i w.blk_idx;
          i_blk_cnt = w.ino.i_blk_cnt + 1;
        };
        blk_idx = u32 (w.blk_idx + 1);
        rom = rom;
      })

  unfoldable pub indirect : (left i : ℕ) → Writer → Option Writer
  indirect zero i w = some w
  indirect (suc left) i w = indirect_data kfs_indirect_blk_cnt 0 no_blocks w >>= λ (b, w).
      elim (b.blk_cnt == 0) [ true ↦ some w | false ↦ finish i b w >>= indirect left (suc i) ]

  unfoldable pub kfs_write_inode : Writer → Option Writer
  kfs_write_inode w = direct kfs_direct_blk 0 w >>= λ (w, go_on).
      if go_on then indirect kfs_indirect_blk 0 w else some w

  -- The body of the loop for one file.
  unfoldable pub write_file : (nb_files i inode_off blk_idx : ℕ) → File → Rom → Option (ℕ × Rom)
  write_file nb_files i inode_off blk_idx f rom =
      if ltb kfs_max_file_sz f.st_size
      then none
      else (kfs_write_inode (record {
        ino = new_inode nb_files i inode_off f;
        blk_idx = u32 blk_idx;
        fd = f.reads;
        rom = rom;
      })
          >>= λ w.
              kfs_write w.ino.idx (inode (summed w.ino)) w.rom >>= λ rom. some (w.blk_idx, rom))

  unfoldable pub files_loop :
      (nb_files i inode_off blk_idx : ℕ) → List File → Rom → Option (ℕ × Rom)
  files_loop nb_files i inode_off blk_idx [] rom = some (blk_idx, rom)
  files_loop nb_files i inode_off blk_idx (f ∷ files) rom =
      write_file nb_files i inode_off blk_idx f rom >>= λ (blk_idx, rom).
      files_loop nb_files (suc i) (inode_off + 1) blk_idx files rom

  unfoldable pub kfs_write_files : List File → (blkoff : ℕ) → Rom → Option (ℕ × Rom)
  kfs_write_files files blkoff rom =
      files_loop (length files) 0 blkoff (length files + blkoff) files rom

  unfoldable pub kfs_write_superblock :
      (time : ℕ) → (fsname : List ℕ) → (blk_cnt files_cnt : ℕ) → Rom → Option Rom
  kfs_write_superblock time fsname blk_cnt files_cnt rom =
      kfs_write 0 (superblock (new_superblock time fsname blk_cnt files_cnt)) rom

  -- `main` behind the options: the values of `-n` and `-o`, the time, and the files.
  unfoldable pub mkkfs : (rom_name rom_file : Option (List ℕ)) → (time : ℕ) → List File → Option Rom
  mkkfs rom_name none time files = none
  mkkfs rom_name (some rom_file) time [] = none
  mkkfs rom_name (some rom_file) time (f ∷ files) =
      kfs_write_files (f ∷ files) 1 [] >>= λ (blk_cnt, rom).
      kfs_write_superblock time (elim rom_name [ none ↦ rom_file | some name ↦ name ]) blk_cnt
        (length (f ∷ files)) rom
