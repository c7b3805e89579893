-- ===== src/Kfs/Direct.antt =====
-- The direct blocks of a file.
use project_k.Base.{
  ℕ, zero, suc, ◌+◌, ◌^◌, ◌<◌, ◌≤◌, ◌≡◌, refl, ◌∙◌, arith, Bool, true, false, List, [], ◌∷◌, ◌++◌,
  some, u32, take, drop, length,
}
use mathlib.Core.List.{append-nil, append_assoc}
use project_k.Kfs.{Block}
use project_k.Kfs.Writer.{Read, got, failed, put, Writer, kfs_read_block, direct}
use project_k.Kfs.Reader.{read_blocks}
use project_k.Kfs.Lasting.{Fresh}
-- The reads of a file that can be read, each of at most a block.
use project_k.Kfs.Blocks.{
  Readable, bytes_of, Moved, Moved-refl, Moved-trans, after, store_lem, after-Moved, after-read,
}

-- What the first loop leaves, of a file that it was to read `left` blocks of behind `acc`.
pub record Direct (left : ℕ) (acc : List ℕ) (w w' : Writer) (go_on : Bool) : Type 0 where
  pub moved : Moved w w'
  pub room : w'.blk_idx ≤ w.blk_idx + left
  pub read :
      read_blocks w'.rom w'.ino.d_blks w'.ino.d_blk_cnt ≡ some (acc ++ bytes_of (take left w.fd))
  pub fd : w'.fd ≡ drop left w.fd
  pub stops : go_on ≡ false → w'.fd ≡ []
  pub i_blk_cnt : w'.ino.i_blk_cnt ≡ w.ino.i_blk_cnt

module _ (writable : ℕ → Bool) (all : (n : ℕ) → writable n ≡ true) where
  pub direct-Direct :
      (left i : ℕ) (acc : List ℕ) (w : Writer) (fd : List Read)
      → Readable fd
      → Fresh w.blk_idx w.rom
      → w.blk_idx + left < 2 ^ 32
      → w.ino.d_blk_cnt ≡ i
      → read_blocks w.rom w.ino.d_blks i ≡ some acc
      → (w' : Writer) × (go_on : Bool) × (direct writable left i (record w { fd = fd })
          ≡ some (w', go_on))
        × Direct left acc (record w { fd = fd }) w' go_on
  unfolding direct kfs_read_block
  direct-Direct zero i acc w fd good fresh room count e = (
    record w { fd = fd },
    true,
    refl,
    record {
      moved = Moved-refl (record w { fd = fd }) fresh;
      room = omega arith;
      read = rw (count, append-nil acc) e;
      fd = refl;
      stops = λ c. cc;
      i_blk_cnt = refl;
    },
  )
  direct-Direct (suc left) i acc w [] good fresh room count e = (
    record w { fd = [] },
    false,
    refl,
    record {
      moved = Moved-refl (record w { fd = [] }) fresh;
      room = omega arith;
      read = rw (count, append-nil acc) e;
      fd = refl;
      stops = λ c. refl;
      i_blk_cnt = refl;
    },
  )
  direct-Direct (suc left) i acc w (failed ∷ fd) good fresh room count e = absurd good
  direct-Direct (suc left) i acc w (got b bytes ∷ fd) good fresh room count e =
      let blk : Block = record {
        idx = 0;
        usage = u32 (length (b ∷ bytes));
        cksum = 0;
        content = b ∷ bytes;
      } in
      let ino = record (w.ino) {
        d_blks = put w.ino.d_blks i w.blk_idx;
        d_blk_cnt = w.ino.d_blk_cnt + 1;
      } in
      let u = record w { fd = got b bytes ∷ fd } in
      let v = after writable all ino blk fd u in
      let one : Moved u v = after-Moved writable all ino blk fd u fresh refl in
      let (w', go_on, run, d) =
        direct-Direct left (suc i) (acc ++ (b ∷ bytes)) v fd good.1 one.fresh (omega arith)
          (omega arith)
          (after-read writable all ino b bytes fd w w.ino.d_blks i acc good.0 fresh e) in
      (
        w',
        go_on,
        rw (store_lem writable all blk fd u (omega arith)) run,
        record {
          moved = Moved-trans u v w' one d.moved;
          room = omega (arith, d.room);
          read = d.read ∙ rw (append_assoc acc (b ∷ bytes) (bytes_of (take left fd)));
          fd = d.fd;
          stops = d.stops;
          i_blk_cnt = d.i_blk_cnt;
        },
      )
