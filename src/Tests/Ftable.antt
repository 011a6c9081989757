-- ===== src/Tests/Ftable.antt =====
-- The theorems on file.c: a file duplicated and closed twice, and a write in two pieces to an inode
-- of fs.c.
use osp.Prelude.{
  ℕ, ◌+◌, ◌-◌, ◌<◌, ◌≡◌, refl, inl, true, false, some, [], ◌∷◌, List, ltb, leb, ◌&&◌, arith,
  if◌then◌else◌, update, subst,
}
use osp.Munmap.{Files}
use osp.Ftable.{
  fd_none, fd_inode, File, Lower, filewrite, filealloc, take_file, find_file, filedup, fileclose,
}
use osp.Ftable.Refs.{IsCounted}
use osp.Ftable.Calls.{Call, alloc, dup, close, State, calls, calls-IsCounted, AllAllowed}
use osp.Fs.Bitmap.{Superblock, Disk}
use osp.Fs.Inode.{Inode}
use osp.Fs.Inode.Content.{Devsw}
use osp.Fs.Inode.Read.{content}
use osp.Fs.Inode.Write.{IsLaidOut}
use osp.Ftable.Write.{filewrite-Stores}
use osp.Ftable.Inodes.{Inodes, inode_files, IsFile, writei-Stores}

-- The content of one inode, as a function of the offset.
abbrev Content : Type 0
Content = ℕ → ℕ

abbrev disk : Files Content
disk = record {
  file_ip = λ s f. 7;
  begin_op = λ s. s;
  end_op = λ s. s;
  ilock = λ ip s. s;
  iunlock = λ ip s. s;
  writei = λ ip buf off n s. (n, λ o. if leb off o && ltb o (off + n) then buf (o - off) else s o);
  readi = λ ip buf off n s. (n, λ i. s (off + i), s);
}

abbrev lower : Lower Content
lower = record {
  files = disk;
  iput = λ ip s. s;
  pipeclose = λ p w s. s;
  piperead = λ p buf n s. (0, buf, s);
  pipewrite = λ p buf n s. (n, s);
}

abbrev blank : File
blank = record {
  type = fd_none;
  ref = 0;
  readable = true;
  writable = true;
  pipe = 0;
  ip = 7;
  off = 0;
}

abbrev inode_file : File
inode_file = record blank { type = fd_inode; ref = 1; off = 100 }

-- A file of 4000 bytes in the blocks 20 to 27, for writei of fs.c; the write takes two pieces.
abbrev inode : Inode
inode = record {
  dev = 1;
  inum = 5;
  ref = 1;
  valid = true;
  type = 2;
  major = 0;
  minor = 0;
  nlink = 1;
  size = 4000;
  addrs = λ k. 20 + k;
}

abbrev numbered : Disk
numbered = record { blocks = λ b i. b; logged = [] }

inode-IsLaidOut : IsLaidOut inode numbered
inode-IsLaidOut = record {
  mapped = λ k l. (omega arith, λ z. absurd (ground arith), inl (omega arith));
  apart = λ j k lj lk e. ground arith;
  table = λ k l e. ground arith;
}

abbrev no_devices : Devsw
no_devices = record {
  has_read = λ m. false;
  has_write = λ m. false;
  read = λ m n. (0, []);
  write = λ m src n. 0;
}

abbrev superblock : Superblock
superblock = record {
  size = 100;
  nblocks = 92;
  ninodes = 8;
  nlog = 1;
  logstart = 1;
  inodestart = 2;
  bmapstart = 3;
}

abbrev fs_lower : Lower Inodes
fs_lower = record {
  files = inode_files no_devices superblock;
  iput = λ ip s. s;
  pipeclose = λ p w s. s;
  piperead = λ p buf n s. (0, buf, s);
  pipewrite = λ p buf n s. (n, s);
}

abbrev fs_file : File
fs_file = record blank { type = fd_inode; ref = 1; ip = 0; off = 100 }

filewrite-Stores_example :
    (s' : Inodes) × (filewrite fs_lower (λ i. i) 2000 fs_file (inode, numbered)
      ≡ some (2000, record fs_file { off = 100 + 2000 }, s'))
    × IsFile inode s'
    × ((o : ℕ)
        → o < 4000
        → content inode s'.1 o
          ≡ (if leb 100 o && ltb o (100 + 2000) then o - 100 else content inode numbered o))
filewrite-Stores_example =
    filewrite-Stores fs_lower 0 (IsFile inode) 4000 (λ s x. content inode s.1 x)
      (writei-Stores no_devices superblock inode (omega arith) (omega arith)) (omega arith) (λ i. i)
      2000 fs_file (inode, numbered) (omega arith) (omega arith) refl refl refl
      (refl, inode-IsLaidOut)

abbrev start : State Content
start = record { table = λ _. blank; held = []; below = λ _. 0 }

abbrev session : List Call
session = alloc ∷ dup 0 ∷ close 0 ∷ close 0 ∷ []

-- The states in between: the count of file 0 is 1, 2, and 1 again.
abbrev counted : ℕ → List ℕ → State Content → State Content
counted n held st = record st {
  table = update st.table 0 (record (st.table 0) { ref = n });
  held = held;
}

abbrev st1 : State Content
st1 = counted 1 (0 ∷ []) start

abbrev st2 : State Content
st2 = counted 2 (0 ∷ 0 ∷ []) st1

abbrev st3 : State Content
st3 = counted 1 (0 ∷ []) st2

next :
    (cs : List Call) (st st' : State Content)
    → some st ≡ some st'
    → AllAllowed lower cs st
    → AllAllowed lower cs st'
next cs st st' e a = let same : st ≡ st' = cc in subst (AllAllowed lower cs) same a

session-AllAllowed : AllAllowed lower session start
unfolding filealloc take_file find_file filedup fileclose
session-AllAllowed = (
  tt,
  λ a e. next (dup 0 ∷ close 0 ∷ close 0 ∷ []) st1 a e (
    (omega arith, omega arith, omega arith),
    λ b e1. next (close 0 ∷ close 0 ∷ []) st2 b e1 (
      (omega arith, omega arith),
      λ c e2. next (close 0 ∷ []) st3 c e2 ((omega arith, omega arith), λ d e3. tt),
    ),
  ),
)

calls-IsCounted_example :
    (st' : State Content) × (calls lower session start ≡ some st') × IsCounted st'.table st'.held
calls-IsCounted_example =
    calls-IsCounted lower session start (record { counts = λ i lt. refl; few = λ i. omega arith })
      session-AllAllowed
