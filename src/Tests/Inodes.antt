-- ===== src/Tests/Inodes.antt =====
-- The theorems on readi, writei and iget: a read over the border of two blocks, and an inode that is not cached.
use osp.Prelude.{
  ℕ, ◌+◌, ◌-◌, ◌*◌, ◌<◌, ◌≡◌, inl, false, true, some, [], arith, ltb, if◌then◌else◌, min,
}
use osp.Fs.Bitmap.{bsize, Superblock, Disk}
use osp.Fs.Inode.{Inode}
use osp.Fs.Inode.Content.{Devsw, bytes_from, readi, writei}
use osp.Fs.Inode.Read.{IsMapped, content, readi-content}
use osp.Fs.Inode.Write.{IsLaidOut, Writes, writei-Writes}

abbrev small_disk : Superblock
small_disk = record {
  size = 100;
  nblocks = 92;
  ninodes = 8;
  nlog = 1;
  logstart = 1;
  inodestart = 2;
  bmapstart = 3;
}

-- A file of 700 bytes in the blocks 20 and 21, whose bytes are their block numbers.
abbrev file : Inode
file = record {
  dev = 1;
  inum = 5;
  ref = 1;
  valid = true;
  type = 2;
  major = 0;
  minor = 0;
  nlink = 1;
  size = 700;
  addrs = λ k. 20 + k;
}

abbrev numbered : Disk
numbered = record { blocks = λ b i. b; logged = [] }

abbrev no_devices : Devsw
no_devices = record {
  has_read = λ m. false;
  has_write = λ m. false;
  read = λ m n. (0, []);
  write = λ m src n. 0;
}

file-IsMapped : (k : ℕ) → k * bsize < 700 → IsMapped file numbered k
file-IsMapped k l = (omega arith, λ z. absurd (ground arith), inl (omega arith))

readi-content_example :
    readi no_devices small_disk 510 400 file numbered
    ≡ some (
      min 400 (700 - 510),
      bytes_from (content file numbered) 510 (min 400 (700 - 510)),
      file,
      numbered,
    )
readi-content_example =
    readi-content no_devices small_disk 510 400 file numbered (omega arith) (omega arith)
      (omega arith) file-IsMapped

-- Two entries of the cache are in use; inode 7 is looked for.
abbrev cache : ℕ → Inode
cache i = record file { inum = i; ref = if ltb i 2 then 1 else 0 }

file-IsLaidOut : IsLaidOut file numbered
file-IsLaidOut = record {
  mapped = file-IsMapped;
  apart = λ j k lj lk e. ground arith;
  table = λ k l e. ground arith;
}

-- The bytes 1, 2, 3 and so on are written over the border of the blocks.
writei-Writes_example :
    (d' : Disk) × (writei no_devices small_disk (λ i. i + 1) 510 100 file numbered
      ≡ some (100, file, d'))
    × Writes file numbered (λ i. i + 1) 510 100 d'
writei-Writes_example =
    writei-Writes no_devices small_disk (λ i. i + 1) 510 100 file numbered (omega arith)
      (omega arith) (omega arith) file-IsLaidOut
