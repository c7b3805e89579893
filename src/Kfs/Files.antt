-- ===== src/Kfs/Files.antt =====
-- The inodes of the files of an image, and the chain of them.
use project_k.Base.{
  ℕ, suc, ◌+◌, ◌-◌, ◌*◌, ◌^◌, ◌<◌, ◌≤◌, ◌≡◌, ◌≢◌, refl, sym, ap, ◌∙◌, arith, ltb, ◌==◌, ==_iff,
  Bool, true, false, Bool-cases, ◌⊎◌, inl, inr, List, [], ◌∷◌, map, none, some, u32, length,
  take-all,
}
use mathlib.Core.Path.{subst}
use project_k.Kfs.{Inode, kfs_checksum, inode_bytes, inode_front}
use project_k.Kfs.Writer.{
  Content, inode, Rom, text, File, kfs_max_file_sz, Writer, kfs_write, new_inode, summed,
  write_file, files_loop,
}
use project_k.Kfs.Reader.{find, read_file, Entry, as_inode, read_chain}
use project_k.Kfs.Lasting.{Kept, Fresh, find-here, find-other, read_file-Kept}
use project_k.Kfs.Blocks.{Readable, bytes_of}
use project_k.Kfs.Contents.{kfs_write_inode-Written}

-- A file that the tool can put in an image: it can be read, in at most 266 parts.
pub record Fits (f : File) : Type 0 where
  pub readable : Readable f.reads
  pub size : f.st_size ≤ kfs_max_file_sz
  pub parts : length f.reads ≤ 266

-- What a reader of the image is to see of a file.
abbrev pub entry : File → Entry
entry f = record { name = text 32 f.basename; size = u32 f.st_size; content = bytes_of f.reads }

abbrev pub AllFit : List File → Type 0
AllFit [] = Unit {0}
AllFit (f ∷ files) = Fits f × AllFit files

-- The inode that stands for a file.
record IsEntry (rom : Rom) (k next : ℕ) (f : File) (n : Inode) : Type 0 where
  stands : find k rom ≡ some (inode n)
  valid : as_inode k (inode n) ≡ some n
  link : n.next_inode ≡ next
  name : n.filename ≡ text 32 f.basename
  size : n.file_sz ≡ u32 f.st_size
  content : read_file rom n ≡ some (bytes_of f.reads)

IsEntry-Kept :
    (rom rom' : Rom) (k next : ℕ) (f : File) (n : Inode)
    → Kept rom rom'
    → IsEntry rom k next f n
    → IsEntry rom' k next f n
IsEntry-Kept rom rom' k next f n kept e = record {
  stands = kept k (inode n) e.stands;
  valid = e.valid;
  link = e.link;
  name = e.name;
  size = e.size;
  content = read_file-Kept rom rom' kept n (bytes_of f.reads) e.content;
}

read_chain-cons :
    (rom : Rom) (count k next : ℕ) (f : File) (n : Inode) (rest : List Entry)
    → IsEntry rom k next f n
    → read_chain rom count next ≡ some rest
    → read_chain rom (suc count) k ≡ some (entry f ∷ rest)
unfolding read_chain
read_chain-cons rom count k next f n rest e more =
    rw (e.stands, e.valid, e.content, e.link, more, e.name, e.size)

as_inode-summed : (k : ℕ) (n : Inode) → n.idx ≡ k → as_inode k (inode (summed n)) ≡ some (summed n)
unfolding as_inode inode_bytes
as_inode-summed k n e =
    let here : (n.idx == k) ≡ true = (==_iff n.idx k).1 e in
    let sum = kfs_checksum (inode_bytes n) inode_front in
    let right : (sum == sum) ≡ true = ground arith in rw (here, right)

read_file-summed : (rom : Rom) (n : Inode) → read_file rom (summed n) ≡ read_file rom n
unfolding read_file
read_file-summed rom n = refl

pub Kept-push : (k : ℕ) (c : Content) (rom : Rom) → find k rom ≡ none → Kept rom ((k, c) ∷ rom)
Kept-push k c rom free j d e = elim (Bool-cases (k == j)) [
  | inl same ↦ let e' : find k rom ≡ some d = rw ((==_iff k j).0 same) e in cc
  | inr other ↦ let ne : k ≢ j = ground (arith, other) in find-other j k c rom ne ∙ e
]

-- What `write_file` leaves.
record Added (off blk_idx next : ℕ) (f : File) (rom : Rom) (blk_idx' : ℕ) (rom' : Rom)
    : Type 0 where
  n : Inode
  entry : IsEntry rom' off next f n
  fresh : Fresh blk_idx' rom'
  room : blk_idx' ≤ blk_idx + 282
  later : blk_idx ≤ blk_idx'
  others : (k : ℕ) → k < blk_idx → k ≢ off → find k rom' ≡ find k rom

-- Where the chain of the inodes of some files starts, the first of which is to stand at `off`.
abbrev pub start : (off : ℕ) → List File → ℕ
start off [] = 0
start off (f ∷ files) = off

-- What the loop over the files leaves.
pub record AllAdded (off : ℕ) (files : List File) (rom rom' : Rom) : Type 0 where
  pub kept : Kept rom rom'
  pub below : (k : ℕ) → k < off → find k rom' ≡ find k rom
  pub chain : read_chain rom' (length files) (start off files) ≡ some (map entry files)

empty_chain : (rom : Rom) → read_chain rom 0 0 ≡ some []
unfolding read_chain
empty_chain rom = refl

new_inode-link :
    (nb i off : ℕ) (f : File) (files : List File)
    → i + length (f ∷ files) ≡ nb
    → off + 1 < 2 ^ 32
    → (new_inode nb i off f).next_inode ≡ start (off + 1) files
unfolding new_inode
new_inode-link nb i off f [] count room = let last : (i == nb - 1) ≡ true = ground arith in rw last
new_inode-link nb i off f (g ∷ files) count room =
    let more : (i == nb - 1) ≡ false = ground arith in
    let small : u32 (off + 1) ≡ off + 1 = omega arith in rw (more, small)

module _ (writable : ℕ → Bool) (all : (n : ℕ) → writable n ≡ true) where
  write_file-Added :
      (nb i off blk_idx : ℕ) (f : File) (rom : Rom)
      → Fits f
      → Fresh blk_idx rom
      → off < blk_idx
      → find off rom ≡ none
      → blk_idx + 282 < 2 ^ 32
      → (blk_idx' : ℕ) × (rom' : Rom) × (write_file writable nb i off blk_idx f rom
          ≡ some (blk_idx', rom'))
        × Added off blk_idx (new_inode nb i off f).next_inode f rom blk_idx' rom'
  unfolding write_file kfs_write new_inode
  write_file-Added nb i off blk_idx f rom fits fresh below free room =
      let cut : u32 blk_idx ≡ blk_idx = omega arith in
      let small : u32 off ≡ off = omega arith in
      let w : Writer = record {
        ino = new_inode nb i off f;
        blk_idx = blk_idx;
        fd = f.reads;
        rom = rom;
      } in
      let (w', run, d) =
        kfs_write_inode-Written writable all w fits.readable fresh room refl refl in
      let allowed : ltb kfs_max_file_sz f.st_size ≡ false = ground (arith, fits.size) in
      let at : w'.ino.idx ≡ off = ap (λ (n : Inode). n.idx) d.moved.head ∙ small in
      let free' : find off w'.rom ≡ none = d.moved.extends off below ∙ free in
      let kept = Kept-push off (inode (summed w'.ino)) w'.rom free' in
      (
        w'.blk_idx,
        (off, inode (summed w'.ino)) ∷ w'.rom,
        rw (allowed, cut, run, all w'.ino.idx, at),
        record {
          n = summed w'.ino;
          entry = record {
            stands = find-here off (inode (summed w'.ino)) w'.rom;
            valid = as_inode-summed off w'.ino at;
            link = ap (λ (n : Inode). n.next_inode) d.moved.head;
            name = ap (λ (n : Inode). n.filename) d.moved.head;
            size = ap (λ (n : Inode). n.file_sz) d.moved.head;
            content =
                read_file-summed _ w'.ino
                ∙ read_file-Kept w'.rom _ kept w'.ino (bytes_of f.reads)
                    (d.read ∙ ap (λ xs. some (bytes_of xs)) (take-all 266 f.reads fits.parts));
          };
          fresh =
              λ k h. find-other k off _ w'.rom (omega (arith, d.moved.later)) ∙ d.moved.fresh k h;
          room = d.room;
          later = d.moved.later;
          others = λ k h ne. find-other k off _ w'.rom (λ e. ne (sym e)) ∙ d.moved.extends k h;
        },
      )

  pub files_loop-AllAdded :
      (nb i off blk_idx : ℕ) (files : List File) (rom : Rom)
      → AllFit files
      → Fresh blk_idx rom
      → off + length files ≤ blk_idx
      → ((k : ℕ) → off ≤ k → (find k rom ≡ none) ⊎ (off + length files ≤ k))
      → blk_idx + 282 * length files < 2 ^ 32
      → i + length files ≡ nb
      → (blk_idx' : ℕ) × (rom' : Rom) × (files_loop writable nb i off blk_idx files rom
          ≡ some (blk_idx', rom'))
        × AllAdded off files rom rom'
  unfolding files_loop
  files_loop-AllAdded nb i off blk_idx [] rom fit fresh below free room count = (
    blk_idx,
    rom,
    refl,
    record { kept = λ k c e. e; below = λ k h. refl; chain = empty_chain rom },
  )
  files_loop-AllAdded nb i off blk_idx (f ∷ files) rom fit fresh below free room count =
      let none_here : find off rom ≡ none = elim (free off (omega arith)) [
        | inl e ↦ e
        | inr h ↦ absurd (omega arith)
      ] in
      let (blk1, rom1, run, a) =
        write_file-Added nb i off blk_idx f rom fit.0 fresh (omega arith) none_here (omega arith) in
      let (blk', rom', run', r) =
        files_loop-AllAdded nb (suc i) (off + 1) blk1 files rom1 fit.1 a.fresh
          (omega (arith, a.later)) (later_free rom1 a.others) (omega (arith, a.room))
          (omega arith) in
      (
        blk',
        rom',
        rw run run',
        record {
          kept = λ k c e. r.kept k c (kept_by rom1 a.others none_here k c e);
          below =
              λ k h. r.below k (omega arith) ∙ a.others k (omega arith) (λ e. absurd (omega arith));
          chain =
              read_chain-cons rom' (length files) off (start (off + 1) files) f a.n
                (map entry files)
                (IsEntry-Kept rom1 rom' off _ f a.n r.kept (
                  subst (λ t. IsEntry rom1 off t f a.n)
                    (new_inode-link nb i off f files count (omega arith)) a.entry))
                r.chain;
        },
      )
    where
      later_free :
          (rom1 : Rom)
          → ((k : ℕ) → k < blk_idx → k ≢ off → find k rom1 ≡ find k rom)
          → (k : ℕ) → off + 1 ≤ k
          → (find k rom1 ≡ none) ⊎ (off + 1 + length files ≤ k)
      later_free rom1 others k h = elim (Bool-cases (ltb k (off + suc (length files)))) [
        | inl near ↦ elim (free k (omega arith)) [
          | inl e ↦ inl (others k (ground arith) (λ e. absurd (omega arith)) ∙ e)
          | inr far ↦ inr (omega arith)
        ]
        | inr far ↦ inr (ground arith)
      ]

      kept_by :
          (rom1 : Rom)
          → ((k : ℕ) → k < blk_idx → k ≢ off → find k rom1 ≡ find k rom)
          → find off rom ≡ none
          → Kept rom rom1
      kept_by rom1 others free k c e = elim (Bool-cases (ltb k blk_idx)) [
        | inl near ↦
            others k (ground arith)
              (λ same. absurd (none_some (sym (ap (λ t. find t rom) same ∙ free) ∙ e)))
            ∙ e
        | inr far ↦ absurd (none_some (sym (fresh k (ground arith)) ∙ e))
      ]
        where
          none_some : {c : Content} → none ≡ some c → ⊥
          none_some p = cc
