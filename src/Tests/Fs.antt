-- ===== src/Tests/Fs.antt =====
-- The theorem on balloc at a small disk, and that on namex at the path "/a//b" and its parent: the root is inode 1, which holds `a` as inode 2,
-- which holds `b` as inode 3.
use osp.Prelude.{
  ℕ, ◌+◌, ◌/◌, ◌≡◌, refl, true, false, ◌&&◌, ◌||◌, List, [], ◌∷◌, arith, ◌==◌, if◌then◌else◌,
}
use osp.Fs.Bitmap.{Superblock, Disk, balloc}
use osp.Fs.Bitmap.Effect.{KeepsBitmap, Allocates, balloc-Allocates}
use osp.Fs.Path.{
  Dirs, iget, ilock, iunlock, iput, namex, is_absolute, namex_loop, skipelem, skip_slashes,
  take_elem,
}
use osp.Fs.Path.Elements.{elements}
use osp.Fs.Path.Balance.{Resolves, namex-Resolves}

abbrev first_char : List ℕ → ℕ
first_char [] = 0
first_char (c ∷ name) = c

abbrev dirs : Dirs
dirs = record {
  is_dir = λ ip. ip == 1 || ip == 2;
  child = λ ip name.
      if ip == 1 && first_char name == b'a'
      then 2
      else if ip == 2 && first_char name == b'b'
      then 3
      else 0;
}

abbrev path : List ℕ
path = b'/' ∷ b'a' ∷ b'/' ∷ b'/' ∷ b'b' ∷ []

namex-Resolves_example :
    Resolves
      (if is_absolute path then 1 else 2)
      dirs
      false
      (elements path)
      (namex dirs 1 2 false path)
namex-Resolves_example = namex-Resolves dirs 1 2 false path (omega arith) (omega arith)

namex_parent :
    namex dirs 1 2 true path
    ≡ (iget 1 ∷ ilock 1 ∷ iget 2 ∷ iunlock 1 ∷ iput 1 ∷ ilock 2 ∷ iunlock 2 ∷ [], 2)
unfolding namex namex_loop skipelem skip_slashes take_elem
namex_parent = refl

-- A disk of 100 blocks with the bitmap in block 3; the first eight are in use.
abbrev small_disk : Superblock
small_disk = record {
  size = 100;
  nblocks = 92;
  ninodes = 8;
  nlog = 1;
  logstart = 1;
  inodestart = 2;
  bmapstart = 3;
}

abbrev eight_used : Disk
eight_used = record { blocks = λ b i. if b == 3 && i == 0 then 255 else 0; logged = [] }

eight_used-KeepsBitmap : KeepsBitmap small_disk eight_used
eight_used-KeepsBitmap m small = let e : m / 4096 + 3 ≡ 3 = omega arith in rw e refl

balloc-Allocates_example : Allocates small_disk eight_used (balloc small_disk eight_used)
balloc-Allocates_example =
    balloc-Allocates small_disk eight_used (omega arith) eight_used-KeepsBitmap
