-- ===== src/Kfs/Indirect.antt =====
-- One indirect block of a file, and the blocks that it lists.
use project_k.Base.{
  ℕ, zero, suc, ◌+◌, ◌^◌, ◌<◌, ◌≤◌, ◌≡◌, refl, ◌∙◌, arith, ◌==◌, Bool, true, List, [], ◌∷◌, ◌++◌,
  some, u32, take, drop, length,
}
use mathlib.Core.List.{append-nil, append_assoc}
use project_k.Kfs.{Block, IBlock, iblock_bytes, iblock_front, kfs_checksum}
use project_k.Kfs.Writer.{
  iblock, Read, got, failed, put, Writer, numbered_iblock, kfs_write, kfs_read_block, indirect_data,
  finish,
}
use project_k.Kfs.Reader.{read_blocks, iblock_data, read_iblocks}
use project_k.Kfs.Lasting.{
  Fresh, find-here, Extends-Kept, read_blocks-Kept, read_iblocks-Kept, read_iblocks-put,
}
use project_k.Kfs.Blocks.{
  Readable, bytes_of, Moved, Moved-refl, Moved-trans, Fresh-push, Extends-push, after, store_lem,
  after-Moved, after-read,
}

-- What the inner loop leaves, of an indirect block that it was to give `left` blocks behind `acc`.
pub record Filled (left : ℕ) (acc : List ℕ) (b b' : IBlock) (w w' : Writer) : Type 0 where
  pub moved : Moved w w'
  pub ino : w'.ino ≡ w.ino
  pub room : w'.blk_idx ≤ w.blk_idx + left
  pub read : read_blocks w'.rom b'.blks b'.blk_cnt ≡ some (acc ++ bytes_of (take left w.fd))
  pub fd : w'.fd ≡ drop left w.fd
  pub count : b'.blk_cnt ≡ b.blk_cnt + length (take left w.fd)

module _ (writable : ℕ → Bool) (all : (n : ℕ) → writable n ≡ true) where
  pub indirect_data-Filled :
      (left j : ℕ) (acc : List ℕ) (b : IBlock) (w : Writer) (fd : List Read)
      → Readable fd
      → Fresh w.blk_idx w.rom
      → w.blk_idx + left < 2 ^ 32
      → b.blk_cnt ≡ j
      → read_blocks w.rom b.blks j ≡ some acc
      → (b' : IBlock) × (w' : Writer) × (indirect_data writable left j b (record w { fd = fd })
          ≡ some (b', w'))
        × Filled left acc b b' (record w { fd = fd }) w'
  unfolding indirect_data kfs_read_block
  indirect_data-Filled zero j acc b w fd good fresh room count e = (
    b,
    record w { fd = fd },
    refl,
    record {
      moved = Moved-refl (record w { fd = fd }) fresh;
      ino = refl;
      room = omega arith;
      read = rw (count, append-nil acc) e;
      fd = refl;
      count = omega arith;
    },
  )
  indirect_data-Filled (suc left) j acc b w [] good fresh room count e = (
    b,
    record w { fd = [] },
    refl,
    record {
      moved = Moved-refl (record w { fd = [] }) fresh;
      ino = refl;
      room = omega arith;
      read = rw (count, append-nil acc) e;
      fd = refl;
      count = omega arith;
    },
  )
  indirect_data-Filled (suc left) j acc b w (failed ∷ fd) good fresh room count e = absurd good
  indirect_data-Filled (suc left) j acc b w (got x bytes ∷ fd) good fresh room count e =
      let blk : Block = record {
        idx = 0;
        usage = u32 (length (x ∷ bytes));
        cksum = 0;
        content = x ∷ bytes;
      } in
      let u = record w { fd = got x bytes ∷ fd } in
      let v = after writable all u.ino blk fd u in
      let one : Moved u v = after-Moved writable all u.ino blk fd u fresh refl in
      let more = record b { blks = put b.blks j w.blk_idx; blk_cnt = b.blk_cnt + 1 } in
      let (b', w', run, d) =
        indirect_data-Filled left (suc j) (acc ++ (x ∷ bytes)) more v fd good.1 one.fresh
          (omega arith) (omega arith)
          (after-read writable all u.ino x bytes fd w b.blks j acc good.0 fresh e) in
      (
        b',
        w',
        rw (store_lem writable all blk fd u (omega arith)) run,
        record {
          moved = Moved-trans u v w' one d.moved;
          ino = d.ino;
          room = omega (arith, d.room);
          read = d.read ∙ rw (append_assoc acc (x ∷ bytes) (bytes_of (take left fd)));
          fd = d.fd;
          count = omega (arith, d.count);
        },
      )

  -- The writer behind an indirect block.
  abbrev pub finished : (i : ℕ) → IBlock → Writer → Writer
  finished i b w = record w {
    ino = record (w.ino) { i_blks = put w.ino.i_blks i w.blk_idx; i_blk_cnt = w.ino.i_blk_cnt + 1 };
    blk_idx = w.blk_idx + 1;
    rom = (w.blk_idx, iblock (numbered_iblock w.blk_idx b)) ∷ w.rom;
  }

  pub finish_lem :
      (i : ℕ) (b : IBlock) (w : Writer)
      → w.blk_idx + 1 < 2 ^ 32
      → finish writable i b w ≡ some (finished i b w)
  unfolding finish kfs_write
  finish_lem i b w room =
      let next : u32 (w.blk_idx + 1) ≡ w.blk_idx + 1 = omega arith in rw (all w.blk_idx, next)

  pub finished-Moved :
      (i : ℕ) (b : IBlock) (w : Writer) → Fresh w.blk_idx w.rom → Moved w (finished i b w)
  finished-Moved i b w fresh = record {
    fresh = rw (add_one w.blk_idx) (Fresh-push w.blk_idx _ w.rom fresh);
    extends = Extends-push w.blk_idx _ w.rom;
    later = omega arith;
    head = refl;
  }
    where
      add_one : (n : ℕ) → n + 1 ≡ suc n
      add_one n = omega arith

  -- An indirect block is what its blocks are, to read behind the others.
  pub finished-read :
      (i : ℕ) (acc d : List ℕ) (b : IBlock) (w : Writer)
      → Fresh w.blk_idx w.rom
      → read_blocks w.rom b.blks b.blk_cnt ≡ some d
      → read_iblocks w.rom w.ino.i_blks i ≡ some acc
      → read_iblocks (finished i b w).rom (finished i b w).ino.i_blks (suc i) ≡ some (acc ++ d)
  unfolding read_iblocks iblock_data iblock_bytes
  finished-read i acc d b w fresh e e' =
      let here : (i == i) ≡ true = ground arith in
      let there : (w.blk_idx == w.blk_idx) ≡ true = ground arith in
      let rom' = (w.blk_idx, iblock (numbered_iblock w.blk_idx b)) ∷ w.rom in
      let kept = Extends-Kept w.blk_idx w.rom rom' fresh (Extends-push w.blk_idx _ w.rom) in
      let before = read_iblocks-Kept w.rom rom' kept w.ino.i_blks i acc e' in
      let inside = read_blocks-Kept w.rom rom' kept b.blks b.blk_cnt d e in
      let sum = kfs_checksum (iblock_bytes (record b { idx = w.blk_idx })) iblock_front in
      let valid : (sum == sum) ≡ true = ground arith in
      rw (
        here,
        read_iblocks-put rom' w.ino.i_blks i w.blk_idx i (omega arith),
        before,
        find-here w.blk_idx (iblock (numbered_iblock w.blk_idx b)) w.rom,
        there,
        valid,
        inside,
      )
