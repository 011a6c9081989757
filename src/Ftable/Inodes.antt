-- ===== src/Ftable/Inodes.antt =====
-- The file calls over the inodes of xv6-public/fs.c: writei of an inode is what filewrite asks of the
-- layer below. A transaction and the lock of the inode change no byte.
use osp.Prelude.{ℕ, ◌*◌, ◌≤◌, ◌≡◌, ◌≢◌, refl, Option, none, some}
use osp.Mmap.{minus_one}
use osp.Munmap.{Files}
use osp.Fs.Bitmap.{bsize, Superblock, Disk}
use osp.Fs.Inode.{Inode}
use osp.Fs.Inode.Content.{Devsw, t_dev, maxfile, writei}
use osp.Fs.Inode.Read.{content}
use osp.Fs.Inode.Write.{IsLaidOut, writei-Writes}
use osp.Ftable.Write.{Stores}

-- The inode in memory, and the disk.
abbrev pub Inodes : Type 0
Inodes = Inode × Disk

abbrev pub answer : Inodes → Option (ℕ × Inode × Disk) → ℕ × Inodes
answer s none = (minus_one, s)
answer s (some (r, ip, d)) = (r, (ip, d))

-- The inode with the number 0; a panic answers as a failure.
abbrev pub inode_files : Devsw → Superblock → Files Inodes
inode_files devs sb = record {
  file_ip = λ s f. 0;
  begin_op = λ s. s;
  end_op = λ s. s;
  ilock = λ ip s. s;
  iunlock = λ ip s. s;
  writei = λ ip buf off n (i, d). answer (i, d) (writei devs sb buf off n i d);
  readi = λ ip buf off n s. (minus_one, buf, s);
}

-- The inode is the file `ip`, whose blocks are there.
abbrev pub IsFile : Inode → Inodes → Type 0
IsFile ip (i, d) = (i ≡ ip) × IsLaidOut ip d

module _ (devs : Devsw) (sb : Superblock) (ip : Inode) (file : ip.type ≢ t_dev)
    (fits : ip.size ≤ maxfile * bsize) where
  pub writei-Stores : Stores (inode_files devs sb) 0 (IsFile ip) ip.size (λ s x. content ip s.1 x)
  writei-Stores = record {
    all_bytes = λ buf off n (i, d) (same, v) le.
        let (d', run, w) = writei-Writes devs sb buf off n ip d file le fits v in
        rw same (rw run (refl, (refl, w.1)));
    places = λ buf off n (i, d) (same, v) le o lt.
        let (d', run, w) = writei-Writes devs sb buf off n ip d file le fits v in
        rw same (rw run (w.0 o lt));
    begins = λ s g. (g, λ o. refl);
    ends = λ s g. (g, λ o. refl);
    locks = λ s g. (g, λ o. refl);
    unlocks = λ s g. (g, λ o. refl);
  }
