-- ===== src/Kfs/Lasting.antt =====
-- What is read of an image stays as it is, while other blocks are written.
use project_k.Base.{
  ℕ, zero, suc, ◌<◌, ◌≤◌, ◌≡◌, ◌≢◌, refl, ◌∙◌, arith, ltb, ◌==◌, ◌&&◌, false, Bool-cases, inl, inr,
  List, ◌∷◌, none, some,
}
use project_k.Base.Options.{◌>>=◌, >>=-eq-some}
use project_k.Kfs.{Inode, iblock_bytes, iblock_front, kfs_checksum}
use project_k.Kfs.Writer.{Content, iblock, Rom, put}
use project_k.Kfs.Reader.{
  find, block_data, read_blocks, iblock_data, read_iblocks, read_file, Entry, as_inode, read_chain,
}

-- What was written stays.
abbrev pub Kept : Rom → Rom → Type 0
Kept rom rom' = (k : ℕ) (c : Content) → find k rom ≡ some c → find k rom' ≡ some c

-- Nothing was written from `bound` on, and nothing has changed below it.
abbrev pub Fresh : ℕ → Rom → Type 0
Fresh bound rom = (k : ℕ) → bound ≤ k → find k rom ≡ none

abbrev pub Extends : ℕ → Rom → Rom → Type 0
Extends bound rom rom' = (k : ℕ) → k < bound → find k rom' ≡ find k rom

pub find-here : (k : ℕ) (c : Content) (rom : Rom) → find k ((k, c) ∷ rom) ≡ some c
unfolding find
find-here k c rom = ground arith

pub find-other : (k j : ℕ) (c : Content) (rom : Rom) → j ≢ k → find k ((j, c) ∷ rom) ≡ find k rom
unfolding find
find-other k j c rom ne = ground arith

pub Extends-Kept :
    (bound : ℕ) (rom rom' : Rom) → Fresh bound rom → Extends bound rom rom' → Kept rom rom'
Extends-Kept bound rom rom' fresh same k c e = elim (Bool-cases (ltb k bound)) [
  | inl below ↦ same k (ground arith) ∙ e
  | inr above ↦ let missing = fresh k (ground arith) in cc
]

module _ (rom rom' : Rom) (kept : Kept rom rom') where
  pub read_blocks-Kept :
      (blks : ℕ → ℕ) (n : ℕ) (d : List ℕ)
      → read_blocks rom blks n ≡ some d
      → read_blocks rom' blks n ≡ some d
  unfolding read_blocks
  read_blocks-Kept blks zero d e = e
  read_blocks-Kept blks (suc n) d e =
      let (first, p, q) = >>=-eq-some (read_blocks rom blks n) _ e in
      let (last, q, r) = >>=-eq-some (find (blks n) rom >>= block_data (blks n)) _ q in
      let (c, s, t) = >>=-eq-some (find (blks n) rom) _ q in
      rw (read_blocks-Kept blks n first p, kept (blks n) c s, t) r

  iblock_data-Kept :
      (k : ℕ) (c : Content) (d : List ℕ)
      → iblock_data rom k c ≡ some d
      → iblock_data rom' k c ≡ some d
  unfolding iblock_data
  iblock_data-Kept k (iblock b) d e =
      elim (Bool-cases (b.idx == k && b.cksum == kfs_checksum (iblock_bytes b) iblock_front)) [
        | inl valid ↦ rw valid (read_blocks-Kept b.blks b.blk_cnt d (rw valid at e))
        | inr broken ↦ absurd (none-ne-some (rw broken at e))
      ]
    where
      none-ne-some : none ≡ some d → ⊥
      none-ne-some p = cc
  iblock_data-Kept k c d e = absurd (cc)

  pub read_iblocks-Kept :
      (blks : ℕ → ℕ) (n : ℕ) (d : List ℕ)
      → read_iblocks rom blks n ≡ some d
      → read_iblocks rom' blks n ≡ some d
  unfolding read_iblocks
  read_iblocks-Kept blks zero d e = e
  read_iblocks-Kept blks (suc n) d e =
      let (first, p, q) = >>=-eq-some (read_iblocks rom blks n) _ e in
      let (last, q, r) = >>=-eq-some (find (blks n) rom >>= iblock_data rom (blks n)) _ q in
      let (c, s, t) = >>=-eq-some (find (blks n) rom) _ q in
      rw (read_iblocks-Kept blks n first p, kept (blks n) c s, iblock_data-Kept (blks n) c last t) r

  pub read_file-Kept :
      (n : Inode) (d : List ℕ) → read_file rom n ≡ some d → read_file rom' n ≡ some d
  unfolding read_file
  read_file-Kept n d e =
      let (first, p, q) = >>=-eq-some (read_blocks rom n.d_blks n.d_blk_cnt) _ e in
      let (last, q, r) = >>=-eq-some (read_iblocks rom n.i_blks n.i_blk_cnt) _ q in
      rw
        (
          read_blocks-Kept n.d_blks n.d_blk_cnt first p,
          read_iblocks-Kept n.i_blks n.i_blk_cnt last q,
        )
        r

  pub read_chain-Kept :
      (n k : ℕ) (es : List Entry) → read_chain rom n k ≡ some es → read_chain rom' n k ≡ some es
  unfolding read_chain
  read_chain-Kept zero k es e = e
  read_chain-Kept (suc n) k es e =
      let (i, p, q) = >>=-eq-some (find k rom >>= as_inode k) _ e in
      let (c, s, t) = >>=-eq-some (find k rom) _ p in
      let (d, u, v) = >>=-eq-some (read_file rom i) _ q in
      let (rest, x, y) = >>=-eq-some (read_chain rom n i.next_inode) _ v in
      rw (kept k c s, t, read_file-Kept i d u, read_chain-Kept n i.next_inode rest x) y

-- An entry of an array behind those that are read.
module _ (rom : Rom) where
  pub read_blocks-put :
      (blks : ℕ → ℕ) (i v n : ℕ) → n ≤ i → read_blocks rom (put blks i v) n ≡ read_blocks rom blks n
  unfolding read_blocks
  read_blocks-put blks i v zero h = refl
  read_blocks-put blks i v (suc n) h =
      let other : (n == i) ≡ false = ground arith in
      rw (other, read_blocks-put blks i v n (omega arith))

  pub read_iblocks-put :
      (blks : ℕ → ℕ) (i v n : ℕ)
      → n ≤ i
      → read_iblocks rom (put blks i v) n ≡ read_iblocks rom blks n
  unfolding read_iblocks
  read_iblocks-put blks i v zero h = refl
  read_iblocks-put blks i v (suc n) h =
      let other : (n == i) ≡ false = ground arith in
      rw (other, read_iblocks-put blks i v n (omega arith))
