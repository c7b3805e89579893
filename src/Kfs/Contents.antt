-- ===== src/Kfs/Contents.antt =====
-- The content of a file is what is read of it.
use project_k.Base.{
  ℕ, zero, suc, ◌+◌, ◌*◌, ◌^◌, ◌<◌, ◌≤◌, ◌≡◌, ◌≢◌, refl, sym, ap, ◌∙◌, arith, Bool, true,
  Bool-cases, inl, inr, List, [], ◌∷◌, ◌++◌, some, take, drop, take-add,
}
use mathlib.Core.List.{append-nil, append_assoc}
use mathlib.Core.Path.{subst}
use project_k.Kfs.{IBlock, Inode}
use project_k.Kfs.Writer.{
  Rom, Read, got, failed, Writer, indirect_data, no_blocks, indirect, kfs_write_inode,
}
use project_k.Kfs.Reader.{read_blocks, read_iblocks, read_file}
use project_k.Kfs.Lasting.{Fresh, read_blocks-Kept, read_iblocks-Kept}
use project_k.Kfs.Blocks.{
  Readable, bytes_of, Moved, Moved-refl, Moved-trans, Moved-Kept, Readable-drop,
}
use project_k.Kfs.Direct.{direct-Direct}
use project_k.Kfs.Indirect.{
  indirect_data-Filled, finished, finish_lem, finished-Moved, finished-read,
}

-- What the loop over `left` indirect blocks reads.
abbrev pub rounds : (left : ℕ) → List Read → List Read
rounds zero fd = []
rounds (suc left) fd = take 16 fd ++ rounds left (drop 16 fd)

rounds-nil : (left : ℕ) → rounds left [] ≡ []
rounds-nil zero = refl
rounds-nil (suc left) = rounds-nil left

bytes_of-append : (xs ys : List Read) → bytes_of (xs ++ ys) ≡ bytes_of xs ++ bytes_of ys
bytes_of-append [] ys = refl
bytes_of-append (got b bytes ∷ xs) ys =
    rw (bytes_of-append xs ys, append_assoc (b ∷ bytes) (bytes_of xs) (bytes_of ys))
bytes_of-append (failed ∷ xs) ys = bytes_of-append xs ys

-- What the outer loop leaves.
pub record Indirect (left : ℕ) (acc : List ℕ) (w w' : Writer) : Type 0 where
  pub moved : Moved w w'
  pub room : w'.blk_idx ≤ w.blk_idx + 17 * left
  pub read :
      read_iblocks w'.rom w'.ino.i_blks w'.ino.i_blk_cnt ≡ some (acc ++ bytes_of (rounds left w.fd))
  pub d_blks : w'.ino.d_blks ≡ w.ino.d_blks
  pub d_blk_cnt : w'.ino.d_blk_cnt ≡ w.ino.d_blk_cnt

nothing : (rom : Rom) → read_blocks rom no_blocks.blks 0 ≡ some []
unfolding read_blocks
nothing rom = refl

-- Where the file goes on being read does not matter.
Moved-fd : (u v : Writer) (fd : List Read) → Moved u v → Moved u (record v { fd = fd })
Moved-fd u v fd m = record { fresh = m.fresh; extends = m.extends; later = m.later; head = m.head }

module _ (writable : ℕ → Bool) (all : (n : ℕ) → writable n ≡ true) where
  indirect-stop :
      (left i : ℕ) (w v : Writer) (b : IBlock)
      → indirect_data writable 16 0 no_blocks w ≡ some (b, v)
      → b.blk_cnt ≡ 0
      → indirect writable (suc left) i w ≡ some v
  unfolding indirect
  indirect-stop left i w v b run none_left = ground (arith, run, none_left)

  indirect-next :
      (left i : ℕ) (w v : Writer) (b : IBlock)
      → indirect_data writable 16 0 no_blocks w ≡ some (b, v)
      → b.blk_cnt ≢ 0
      → v.blk_idx + 1 < 2 ^ 32
      → indirect writable (suc left) i w
        ≡ indirect writable left (suc i) (finished writable all i b v)
  unfolding indirect
  indirect-next left i w v b run more room = ground (arith, run, finish_lem writable all i b v room)

  indirect-Indirect :
      (left i : ℕ) (acc : List ℕ) (w : Writer) (fd : List Read)
      → Readable fd
      → Fresh w.blk_idx w.rom
      → w.blk_idx + 17 * left < 2 ^ 32
      → w.ino.i_blk_cnt ≡ i
      → read_iblocks w.rom w.ino.i_blks i ≡ some acc
      → (w' : Writer) × (indirect writable left i (record w { fd = fd }) ≡ some w')
        × Indirect left acc (record w { fd = fd }) w'
  unfolding indirect
  indirect-Indirect zero i acc w fd good fresh room count e = (
    record w { fd = fd },
    refl,
    record {
      moved = Moved-refl (record w { fd = fd }) fresh;
      room = omega arith;
      read = rw (count, append-nil acc) e;
      d_blks = refl;
      d_blk_cnt = refl;
    },
  )
  indirect-Indirect (suc left) i acc w [] good fresh room count e =
      let (b, v, run, d) =
        indirect_data-Filled writable all 16 0 [] no_blocks w [] good fresh (omega arith) refl
          (nothing w.rom) in
      let none_left : b.blk_cnt ≡ 0 = omega (arith, d.count) in
      (
        v,
        indirect-stop left i (record w { fd = [] }) v b run none_left,
        record {
          moved = d.moved;
          room = omega (arith, d.room);
          read =
              read_iblocks-Kept w.rom v.rom (Moved-Kept (record w { fd = [] }) v fresh d.moved)
                v.ino.i_blks v.ino.i_blk_cnt _
                (rw (d.ino, count, rounds-nil left, append-nil acc) e);
          d_blks = rw d.ino;
          d_blk_cnt = rw d.ino;
        },
      )
  indirect-Indirect (suc left) i acc w (x ∷ fd) good fresh room count e =
      let u = record w { fd = x ∷ fd } in
      let (b, v, run, d) =
        indirect_data-Filled writable all 16 0 [] no_blocks w (x ∷ fd) good fresh (omega arith) refl
          (nothing w.rom) in
      let more : b.blk_cnt ≢ 0 = λ none_left. omega (arith, d.count, none_left) in
      let kept = Moved-Kept u v fresh d.moved in
      let before : read_iblocks v.rom v.ino.i_blks i ≡ some acc =
        rw d.ino (read_iblocks-Kept w.rom v.rom kept w.ino.i_blks i acc e) in
      let y = finished writable all i b v in
      let one : Moved u y =
        Moved-trans u v y d.moved (finished-Moved writable all i b v d.moved.fresh) in
      let z = record y { fd = drop 16 (x ∷ fd) } in
      let cnt : y.ino.i_blk_cnt ≡ suc i = rw d.ino (omega (arith, count)) in
      let here = finished-read writable all i acc _ b v d.moved.fresh d.read before in
      let (w', run', r) =
        indirect-Indirect left (suc i) _ y (drop 16 (x ∷ fd)) (Readable-drop 16 (x ∷ fd) good)
          one.fresh (omega (arith, d.room)) cnt here in
      (
        w',
        indirect-next left i u v b run more (omega (arith, d.room))
            ∙ ap (λ f. indirect writable left (suc i) (record y { fd = f })) d.fd
            ∙ run',
        record {
          moved = Moved-trans u z w' (Moved-fd u y z.fd one) r.moved;
          room = omega (arith, r.room, d.room);
          read = r.read ∙ regroup acc;
          d_blks = r.d_blks ∙ ap (λ (n : Inode). n.d_blks) d.ino;
          d_blk_cnt = r.d_blk_cnt ∙ ap (λ (n : Inode). n.d_blk_cnt) d.ino;
        },
      )
    where
      regroup :
          (acc : List ℕ)
          → some ((acc ++ bytes_of (take 16 (x ∷ fd))) ++ bytes_of (rounds left (drop 16 (x ∷ fd))))
            ≡ some (acc ++ bytes_of (rounds (suc left) (x ∷ fd)))
      regroup acc = rw (
        bytes_of-append (take 16 (x ∷ fd)) (rounds left (drop 16 (x ∷ fd))),
        append_assoc acc (bytes_of (take 16 (x ∷ fd))) (bytes_of (rounds left (drop 16 (x ∷ fd)))),
      )

rounds-take : (n : ℕ) (fd : List Read) → rounds n fd ≡ take (16 * n) fd
rounds-take zero fd = refl
rounds-take (suc n) fd =
    let e : 16 + 16 * n ≡ 16 * suc n = omega arith in
    ap (λ ys. take 16 fd ++ ys) (rounds-take n (drop 16 fd))
    ∙ sym (take-add 16 (16 * n) fd)
    ∙ ap (λ k. take k fd) e

-- The direct blocks, then the blocks of the 16 indirect ones.
contents_split :
    (fd : List Read)
    → bytes_of (take 266 fd) ≡ bytes_of (take 10 fd) ++ bytes_of (rounds 16 (drop 10 fd))
contents_split fd =
    ap bytes_of
      (take-add 10 256 fd ∙ ap (λ ys. take 10 fd ++ ys) (sym (rounds-take 16 (drop 10 fd))))
    ∙ bytes_of-append (take 10 fd) (rounds 16 (drop 10 fd))

read_file-parts :
    (rom : Rom) (n : Inode) (d e : List ℕ)
    → read_blocks rom n.d_blks n.d_blk_cnt ≡ some d
    → read_iblocks rom n.i_blks n.i_blk_cnt ≡ some e
    → read_file rom n ≡ some (d ++ e)
unfolding read_file
read_file-parts rom n d e p q = rw (p, q)

module _ (rom : Rom) (blks : ℕ → ℕ) where
  no_direct : read_blocks rom blks 0 ≡ some []
  unfolding read_blocks
  no_direct = refl

  no_indirect : read_iblocks rom blks 0 ≡ some []
  unfolding read_iblocks
  no_indirect = refl

-- What `kfs_write_inode` leaves of the reads of a file.
pub record Written (w w' : Writer) : Type 0 where
  pub moved : Moved w w'
  pub room : w'.blk_idx ≤ w.blk_idx + 282
  pub read : read_file w'.rom w'.ino ≡ some (bytes_of (take 266 w.fd))

module _ (writable : ℕ → Bool) (all : (n : ℕ) → writable n ≡ true) where
  -- Of a file that can be read, `kfs_write_inode` writes at most 282 blocks behind what is there,
  -- changes nothing else of the image, and what is read by the inode is the content of the file, up
  -- to 266 blocks of it.
  pub kfs_write_inode-Written :
      (w : Writer)
      → Readable w.fd
      → Fresh w.blk_idx w.rom
      → w.blk_idx + 282 < 2 ^ 32
      → w.ino.d_blk_cnt ≡ 0
      → w.ino.i_blk_cnt ≡ 0
      → (w' : Writer) × (kfs_write_inode writable w ≡ some w') × Written w w'
  unfolding kfs_write_inode
  kfs_write_inode-Written w good fresh room d_cnt i_cnt =
      let (v, go_on, run, d) =
        direct-Direct writable all 10 0 [] w w.fd good fresh (omega arith) d_cnt
          (no_direct w.rom w.ino.d_blks) in
      let (w', run', r) =
        indirect-Indirect writable all 16 0 [] v v.fd
          (subst Readable (sym d.fd) (Readable-drop 10 w.fd good)) d.moved.fresh
          (omega (arith, d.room)) (d.i_blk_cnt ∙ i_cnt) (no_indirect v.rom v.ino.i_blks) in
      elim (Bool-cases go_on) [
        | inl more ↦ (
          w',
          rw (run, more) run',
          record {
            moved = Moved-trans w v w' d.moved r.moved;
            room = omega (arith, d.room, r.room);
            read =
                read_file-parts w'.rom w'.ino (bytes_of (take 10 w.fd)) _
                  (read_blocks-Kept v.rom w'.rom (Moved-Kept v w' d.moved.fresh r.moved)
                    w'.ino.d_blks w'.ino.d_blk_cnt (bytes_of (take 10 w.fd))
                    (rw (r.d_blks, r.d_blk_cnt) d.read))
                  r.read
                ∙ rw (d.fd, contents_split w.fd);
          },
        )
        | inr stop ↦ (
          v,
          rw (run, stop),
          record {
            moved = d.moved;
            room = omega (arith, d.room);
            read =
                read_file-parts v.rom v.ino (bytes_of (take 10 w.fd)) [] d.read
                  (rw (d.i_blk_cnt ∙ i_cnt) (no_indirect v.rom v.ino.i_blks))
                ∙ rw (contents_split w.fd, sym d.fd ∙ d.stops stop);
          },
        )
      ]
