-- ===== src/Kfs.antt =====
-- The file system of k/include/k/kfs.h: the structures of an image, as values and as the bytes that
-- they are on the disk, and their checksum.
pub mod Writer
pub mod Adler
pub mod Reader
pub mod Lasting
pub mod Blocks
pub mod Direct
pub mod Indirect
pub mod Contents
pub mod Files
pub mod Image
mod Tests
use project_k.Base.{
  ℕ, zero, suc, ◌+◌, ◌-◌, ◌*◌, ◌/◌, ◌%◌, ◌^◌, ltb, if◌then◌else◌, List, u32, shl, bit_or, get_or,
}

abbrev pub kfs_magic : ℕ
kfs_magic = 0xd35f9caa

abbrev pub kfs_blk_sz : ℕ
kfs_blk_sz = 4096

abbrev pub kfs_blk_data_sz : ℕ
kfs_blk_data_sz = kfs_blk_sz - 3 * 4

abbrev pub kfs_direct_blk : ℕ
kfs_direct_blk = 10

abbrev pub kfs_indirect_blk : ℕ
kfs_indirect_blk = 16

abbrev pub kfs_indirect_blk_cnt : ℕ
kfs_indirect_blk_cnt = 16

abbrev pub kfs_fname_sz : ℕ
kfs_fname_sz = 32

abbrev pub kfs_name_sz : ℕ
kfs_name_sz = 32

-- `content` is the start of the field `data`; the bytes behind it are zeros.
pub record Block : Type 0 where
  pub idx : ℕ
  pub usage : ℕ
  pub cksum : ℕ
  pub content : List ℕ

pub record IBlock : Type 0 where
  pub idx : ℕ
  pub blk_cnt : ℕ
  pub blks : ℕ → ℕ
  pub cksum : ℕ

pub record Inode : Type 0 where
  pub inumber : ℕ
  pub filename : ℕ → ℕ
  pub file_sz : ℕ
  pub idx : ℕ
  pub blk_cnt : ℕ
  pub next_inode : ℕ
  pub d_blk_cnt : ℕ
  pub i_blk_cnt : ℕ
  pub d_blks : ℕ → ℕ
  pub i_blks : ℕ → ℕ
  pub cksum : ℕ

pub record Superblock : Type 0 where
  pub magic : ℕ
  pub name : ℕ → ℕ
  pub ctime : ℕ
  pub blk_cnt : ℕ
  pub inode_cnt : ℕ
  pub inode_idx : ℕ
  pub cksum : ℕ

-- A `u32` in memory, the lowest byte first, and an array of them.
abbrev pub word : (v i : ℕ) → ℕ
word v i = v / 2 ^ (8 * i) % 256

abbrev pub words : (ℕ → ℕ) → ℕ → ℕ
words f i = word (f (i / 4)) (i % 4)

unfoldable pub block_bytes : Block → ℕ → ℕ
block_bytes b i =
    if ltb i 4
    then word b.idx i
    else if ltb i 8
    then word b.usage (i - 4)
    else if ltb i 12
    then word b.cksum (i - 8)
    else get_or b.content (i - 12) 0

-- Of the other structures the bytes in front of `cksum`, their last field.
unfoldable pub iblock_bytes : IBlock → ℕ → ℕ
iblock_bytes b i =
    if ltb i 4
    then word b.idx i
    else if ltb i 8
    then word b.blk_cnt (i - 4)
    else words b.blks (i - 8)

unfoldable pub inode_bytes : Inode → ℕ → ℕ
inode_bytes n i =
    if ltb i 4
    then word n.inumber i
    else if ltb i 36
    then n.filename (i - 4)
    else if ltb i 40
    then word n.file_sz (i - 36)
    else if ltb i 44
    then word n.idx (i - 40)
    else if ltb i 48
    then word n.blk_cnt (i - 44)
    else if ltb i 52
    then word n.next_inode (i - 48)
    else if ltb i 56
    then word n.d_blk_cnt (i - 52)
    else if ltb i 60
    then word n.i_blk_cnt (i - 56)
    else if ltb i 100
    then words n.d_blks (i - 60)
    else words n.i_blks (i - 100)

unfoldable pub superblock_bytes : Superblock → ℕ → ℕ
superblock_bytes s i =
    if ltb i 4
    then word s.magic i
    else if ltb i 36
    then s.name (i - 4)
    else if ltb i 40
    then word s.ctime (i - 36)
    else if ltb i 44
    then word s.blk_cnt (i - 40)
    else if ltb i 48
    then word s.inode_cnt (i - 44)
    else word s.inode_idx (i - 48)

-- `sizeof(sb) - sizeof(sb.cksum)` and the like.
abbrev pub iblock_front : ℕ
iblock_front = 72

abbrev pub inode_front : ℕ
inode_front = 164

abbrev pub superblock_front : ℕ
superblock_front = 52

-- The loop of `kfs_checksum`, after `n` rounds: `a` and `b`.
unfoldable pub sums : (n : ℕ) → (ℕ → ℕ) → ℕ × ℕ
sums zero buf = (1, 0)
sums (suc n) buf = let (a, b) = sums n buf in (u32 (a + buf n), u32 (b + u32 (a + buf n)))

abbrev pub adler32_mod : ℕ
adler32_mod = 65521

unfoldable pub kfs_checksum : (ℕ → ℕ) → (size : ℕ) → ℕ
kfs_checksum buf size =
    let (a, b) = sums size buf in bit_or (u32 (shl (b % adler32_mod) 16)) (a % adler32_mod)
