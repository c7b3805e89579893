-- ===== src/Kfs/Blocks.antt =====
-- The blocks that `kfs_write_inode` writes, read back.
use project_k.Base.{
  ℕ, zero, suc, ◌+◌, ◌^◌, ◌<◌, ◌≤◌, ◌≡◌, refl, ◌∙◌, arith, ◌==◌, Bool, true, List, [], ◌∷◌, ◌++◌,
  some, u32, drop, length, take-length,
}
use project_k.Kfs.{Block, Inode, kfs_blk_sz, block_bytes, kfs_checksum}
use project_k.Kfs.Writer.{
  Content, block, Rom, Read, got, failed, put, Writer, numbered, kfs_write, store,
}
use project_k.Kfs.Reader.{block_data, read_blocks}
use project_k.Kfs.Lasting.{
  Kept, Fresh, Extends, find-here, find-other, Extends-Kept, read_blocks-Kept, read_blocks-put,
}

-- The reads of a file that can be read, each of at most a block.
abbrev pub Readable : List Read → Type 0
Readable [] = Unit {0}
Readable (got b bytes ∷ fd) = (length bytes < 4084) × Readable fd
Readable (failed ∷ fd) = ⊥

-- The bytes that the reads yield.
abbrev pub bytes_of : List Read → List ℕ
bytes_of [] = []
bytes_of (got b bytes ∷ fd) = (b ∷ bytes) ++ bytes_of fd
bytes_of (failed ∷ fd) = bytes_of fd

pub Readable-drop : (n : ℕ) (fd : List Read) → Readable fd → Readable (drop n fd)
Readable-drop zero fd h = h
Readable-drop (suc n) [] h = h
Readable-drop (suc n) (got b bytes ∷ fd) h = Readable-drop n fd h.1
Readable-drop (suc n) (failed ∷ fd) h = absurd h

-- The fields of an inode that `kfs_write_inode` leaves alone.
abbrev pub head : Inode → Inode
head n = record n { d_blk_cnt = 0; i_blk_cnt = 0; d_blks = λ j. 0; i_blks = λ j. 0 }

-- Blocks were written at the end of the image.
pub record Moved (w w' : Writer) : Type 0 where
  pub fresh : Fresh w'.blk_idx w'.rom
  pub extends : Extends w.blk_idx w.rom w'.rom
  pub later : w.blk_idx ≤ w'.blk_idx
  pub head : head w'.ino ≡ head w.ino

pub Moved-refl : (w : Writer) → Fresh w.blk_idx w.rom → Moved w w
Moved-refl w fresh = record {
  fresh = fresh;
  extends = λ k h. refl;
  later = omega arith;
  head = refl;
}

pub Moved-trans : (u v w : Writer) → Moved u v → Moved v w → Moved u w
Moved-trans u v w m n = record {
  fresh = n.fresh;
  extends = λ k h. n.extends k (omega (arith, m.later)) ∙ m.extends k h;
  later = omega (arith, m.later, n.later);
  head = n.head ∙ m.head;
}

pub Moved-Kept : (w w' : Writer) → Fresh w.blk_idx w.rom → Moved w w' → Kept w.rom w'.rom
Moved-Kept w w' fresh m = Extends-Kept w.blk_idx w.rom w'.rom fresh m.extends

pub Fresh-push : (k : ℕ) (c : Content) (rom : Rom) → Fresh k rom → Fresh (suc k) ((k, c) ∷ rom)
Fresh-push k c rom fresh j h = find-other j k c rom (omega arith) ∙ fresh j (omega arith)

pub Extends-push : (k : ℕ) (c : Content) (rom : Rom) → Extends k rom ((k, c) ∷ rom)
Extends-push k c rom j h = find-other j k c rom (omega arith)

module _ (writable : ℕ → Bool) (all : (n : ℕ) → writable n ≡ true) where
  -- The writer behind the block just stored.
  abbrev pub after : (ino : Inode) → Block → List Read → Writer → Writer
  after ino blk fd w = record {
    ino = ino;
    blk_idx = w.blk_idx + 1;
    fd = fd;
    rom = (w.blk_idx, block (numbered w.blk_idx blk)) ∷ w.rom;
  }

  pub store_lem :
      (blk : Block) (fd : List Read) (w : Writer)
      → w.blk_idx + 1 < 2 ^ 32
      → store writable blk fd w ≡ some (after w.ino blk fd w)
  unfolding store kfs_write
  store_lem blk fd w room =
      let next : u32 (w.blk_idx + 1) ≡ w.blk_idx + 1 = omega arith in rw (all w.blk_idx, next)

  pub after-Moved :
      (ino : Inode) (blk : Block) (fd : List Read) (w : Writer)
      → Fresh w.blk_idx w.rom
      → head ino ≡ head w.ino
      → Moved w (after ino blk fd w)
  after-Moved ino blk fd w fresh same = record {
    fresh = rw (add_one w.blk_idx) (Fresh-push w.blk_idx _ w.rom fresh);
    extends = Extends-push w.blk_idx _ w.rom;
    later = omega arith;
    head = same;
  }
    where
      add_one : (n : ℕ) → n + 1 ≡ suc n
      add_one n = omega arith

  -- A block stored is one block more to read.
  pub after-read :
      (ino : Inode) (b : ℕ) (bytes : List ℕ) (fd : List Read) (w : Writer) (blks : ℕ → ℕ) (n : ℕ)
      (acc : List ℕ)
      → length bytes < 4084
      → Fresh w.blk_idx w.rom
      → read_blocks w.rom blks n ≡ some acc
      → read_blocks
          (after ino
            (record { idx = 0; usage = u32 (length (b ∷ bytes)); cksum = 0; content = b ∷ bytes })
            fd
            w).rom
          (put blks n w.blk_idx)
          (suc n)
        ≡ some (acc ++ (b ∷ bytes))
  unfolding read_blocks block_data
  after-read ino b bytes fd w blks n acc fits fresh e =
      let blk : Block = record {
        idx = 0;
        usage = u32 (length (b ∷ bytes));
        cksum = 0;
        content = b ∷ bytes;
      } in
      let here : (n == n) ≡ true = ground arith in
      let there : (w.blk_idx == w.blk_idx) ≡ true = ground arith in
      let rom' = (w.blk_idx, block (numbered w.blk_idx blk)) ∷ w.rom in
      let before : read_blocks rom' blks n ≡ some acc =
        read_blocks-Kept w.rom rom'
          (Extends-Kept w.blk_idx w.rom rom' fresh (Extends-push w.blk_idx _ w.rom)) blks n acc e in
      let sum = kfs_checksum (block_bytes (record blk { idx = w.blk_idx })) kfs_blk_sz in
      let valid : (sum == sum) ≡ true = ground arith in
      let whole : u32 (suc (length bytes)) ≡ suc (length bytes) = omega arith in
      rw (
        here,
        read_blocks-put rom' blks n w.blk_idx n (omega arith),
        before,
        find-here w.blk_idx (block (numbered w.blk_idx blk)) w.rom,
        there,
        valid,
        whole,
        take-length bytes,
      )
