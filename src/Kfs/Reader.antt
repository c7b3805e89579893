-- ===== src/Kfs/Reader.antt =====
-- How an image is read, by the meaning of the structures of k/include/k/kfs.h: every structure has to
-- stand where it says, with the checksum of its bytes.
use project_k.Base.{
  ℕ, zero, suc, ◌==◌, ◌&&◌, if◌then◌else◌, List, [], ◌∷◌, ◌++◌, Option, none, some, take,
}
use project_k.Base.Options.{◌>>=◌}
use project_k.Kfs.{
  Inode, Superblock, kfs_magic, kfs_blk_sz, block_bytes, iblock_bytes, inode_bytes,
  superblock_bytes, iblock_front, inode_front, superblock_front, kfs_checksum,
}
use project_k.Kfs.Writer.{Content, block, iblock, inode, superblock, Rom}

-- What was written last to a block.
unfoldable pub find : ℕ → Rom → Option Content
find k [] = none
find k ((j, c) ∷ rom) = if j == k then some c else find k rom

-- The bytes of a block of data at `k`. Its checksum was taken while its own field was 0.
unfoldable pub block_data : (k : ℕ) → Content → Option (List ℕ)
block_data k (block b) =
    if b.idx == k && b.cksum == kfs_checksum (block_bytes (record b { cksum = 0 })) kfs_blk_sz
    then some (take b.usage b.content)
    else none
block_data k other = none

-- The bytes of the first `n` blocks of an array.
unfoldable pub read_blocks : Rom → (ℕ → ℕ) → (n : ℕ) → Option (List ℕ)
read_blocks rom blks zero = some []
read_blocks rom blks (suc n) =
    read_blocks rom blks n >>= λ d. find (blks n) rom >>= block_data (blks n) >>= λ e. some (d ++ e)

unfoldable pub iblock_data : Rom → (k : ℕ) → Content → Option (List ℕ)
iblock_data rom k (iblock b) =
    if b.idx == k && b.cksum == kfs_checksum (iblock_bytes b) iblock_front
    then read_blocks rom b.blks b.blk_cnt
    else none
iblock_data rom k other = none

unfoldable pub read_iblocks : Rom → (ℕ → ℕ) → (n : ℕ) → Option (List ℕ)
read_iblocks rom blks zero = some []
read_iblocks rom blks (suc n) = read_iblocks rom blks n >>= λ d.
    find (blks n) rom >>= iblock_data rom (blks n) >>= λ e. some (d ++ e)

-- The content of a file: its direct blocks, then the blocks of its indirect blocks.
unfoldable pub read_file : Rom → Inode → Option (List ℕ)
read_file rom n = read_blocks rom n.d_blks n.d_blk_cnt >>= λ d.
    read_iblocks rom n.i_blks n.i_blk_cnt >>= λ e. some (d ++ e)

-- A file as a reader of the image sees it.
pub record Entry : Type 0 where
  pub name : ℕ → ℕ
  pub size : ℕ
  pub content : List ℕ

unfoldable pub as_inode : (k : ℕ) → Content → Option Inode
as_inode k (inode n) =
    if n.idx == k && n.cksum == kfs_checksum (inode_bytes n) inode_front then some n else none
as_inode k other = none

-- The files of the chain of inodes that starts at `k`, which ends after `n` of them.
unfoldable pub read_chain : Rom → (n k : ℕ) → Option (List Entry)
read_chain rom zero k = if k == 0 then some [] else none
read_chain rom (suc n) k = find k rom >>= as_inode k >>= λ i. read_file rom i >>= λ d.
    read_chain rom n i.next_inode >>= λ rest.
    some (record { name = i.filename; size = i.file_sz; content = d } ∷ rest)

unfoldable pub as_superblock : Content → Option Superblock
as_superblock (superblock s) =
    if s.magic == kfs_magic && s.cksum == kfs_checksum (superblock_bytes s) superblock_front
    then some s
    else none
as_superblock other = none

-- All files of an image, by its superblock.
unfoldable pub read_image : Rom → Option (List Entry)
read_image rom = find 0 rom >>= as_superblock >>= λ s. read_chain rom s.inode_cnt s.inode_idx
