-- ===== src/Fs/Inode.antt =====
-- xv6-public/fs.c: inodes on the disk and in memory, and the blocks of a file. The number in an array
-- of words or bytes is little-endian; `none` is a panic.
pub mod Content
pub mod Read
pub mod Write
use osp.Prelude.{
  ℕ, zero, suc, ◌+◌, ◌-◌, ◌*◌, ◌/◌, ◌%◌, ◌^◌, Bool, true, false, not, ◌&&◌, ◌||◌, Option, none,
  some, ltb, ◌==◌, if◌then◌else◌, update, ◌>>=◌,
}
use osp.Mmap.{slt}
use osp.Fs.Bitmap.{bsize, Superblock, Disk, modify, balloc, bfree}

abbrev pub ndirect : ℕ
ndirect = 12

-- Block numbers in a block.
abbrev pub nindirect : ℕ
nindirect = 128

-- Inodes per block.
abbrev pub ipb : ℕ
ipb = 8

abbrev pub iblock : ℕ → Superblock → ℕ
iblock i sb = i / ipb + sb.inodestart

-- `struct inode`, less its lock.
pub record Inode : Type 0 where
  pub dev : ℕ
  pub inum : ℕ
  pub ref : ℕ
  pub valid : Bool
  pub type : ℕ
  pub major : ℕ
  pub minor : ℕ
  pub nlink : ℕ
  pub size : ℕ
  pub addrs : ℕ → ℕ

abbrev pub get_short : (ℕ → ℕ) → ℕ → ℕ
get_short bytes o = bytes o + 2 ^ 8 * bytes (o + 1)

abbrev pub get_word : (ℕ → ℕ) → ℕ → ℕ
get_word bytes o = get_short bytes o + 2 ^ 16 * get_short bytes (o + 2)

abbrev pub put_short : ℕ → ℕ → (ℕ → ℕ) → ℕ → ℕ
put_short o v bytes = update (update bytes o (v % 2 ^ 8)) (o + 1) (v / 2 ^ 8 % 2 ^ 8)

abbrev pub put_word : ℕ → ℕ → (ℕ → ℕ) → ℕ → ℕ
put_word o v bytes = put_short (o + 2) (v / 2 ^ 16) (put_short o v bytes)

-- Where the `struct dinode` lies in its block.
abbrev pub dinode_at : ℕ → ℕ
dinode_at inum = inum % ipb * 64

unfoldable pub put_addrs : ℕ → ℕ → ℕ → (ℕ → ℕ) → (ℕ → ℕ) → ℕ → ℕ
put_addrs zero k o addrs bytes = bytes
put_addrs (suc m) k o addrs bytes =
    put_addrs m (k + 1) o addrs (put_word (o + 4 * k) (addrs k) bytes)

unfoldable pub iupdate : Superblock → Inode → Disk → Disk
iupdate sb ip d =
    let bp = iblock ip.inum sb in
    let o = dinode_at ip.inum in
    modify bp
      (put_addrs (ndirect + 1) 0 (o + 12) ip.addrs (
        put_word (o + 8) ip.size (
          put_short (o + 6) ip.nlink (
            put_short (o + 4) ip.minor
              (put_short (o + 2) ip.major (put_short o ip.type (d.blocks bp)))))))
      d

-- ilock when it has the sleep lock.
unfoldable pub ilock : Superblock → Inode → Disk → Option Inode
ilock sb ip d =
    let bytes = d.blocks (iblock ip.inum sb) in
    let o = dinode_at ip.inum in
    if slt ip.ref 1
    then none
    else if ip.valid
    then some ip
    else if get_short bytes o == 0
    then none
    else some (record ip {
      type = get_short bytes o;
      major = get_short bytes (o + 2);
      minor = get_short bytes (o + 4);
      nlink = get_short bytes (o + 6);
      size = get_word bytes (o + 8);
      addrs = λ k. get_word bytes (o + 12 + 4 * k);
      valid = true;
    })

-- bmap below NDIRECT.
abbrev pub bmap_direct : Superblock → Inode → ℕ → Disk → Option (ℕ × Inode × Disk)
bmap_direct sb ip bn d =
    if ip.addrs bn == 0
    then (balloc sb d >>= λ (addr, d1).
        some (addr, record ip { addrs = update ip.addrs bn addr }, d1))
    else some (ip.addrs bn, ip, d)

-- bmap behind the load of the indirect block `table`; `bn` is the index in it.
abbrev pub bmap_entry : Superblock → ℕ → ℕ → Inode × Disk → Option (ℕ × Inode × Disk)
bmap_entry sb table bn (ip, d) =
    let addr = get_word (d.blocks table) (4 * bn) in
    if addr == 0
    then (balloc sb d >>= λ (new, d1).
        some (new, ip, modify table (put_word (4 * bn) new (d1.blocks table)) d1))
    else some (addr, ip, d)

unfoldable pub bmap : Superblock → Inode → ℕ → Disk → Option (ℕ × Inode × Disk)
bmap sb ip bn d =
    if ltb bn ndirect
    then bmap_direct sb ip bn d
    else if ltb (bn - ndirect) nindirect
    then (bmap_direct sb ip ndirect d >>= λ (table, ip1, d1).
        bmap_entry sb table (bn - ndirect) (ip1, d1))
    else none

-- The loop of itrunc over the direct blocks: `m` from `i` on.
unfoldable pub free_direct : ℕ → ℕ → Superblock → Inode → Disk → Option (Inode × Disk)
free_direct zero i sb ip d = some (ip, d)
free_direct (suc m) i sb ip d =
    if ip.addrs i == 0
    then free_direct m (i + 1) sb ip d
    else (bfree sb (ip.addrs i) d >>= λ d1.
        free_direct m (i + 1) sb (record ip { addrs = update ip.addrs i 0 }) d1)

-- That over the entries of the indirect block.
unfoldable pub free_entries : ℕ → ℕ → ℕ → Superblock → Disk → Option Disk
free_entries zero j table sb d = some d
free_entries (suc m) j table sb d =
    let addr = get_word (d.blocks table) (4 * j) in
    if addr == 0
    then free_entries m (j + 1) table sb d
    else (bfree sb addr d >>= λ d1. free_entries m (j + 1) table sb d1)

abbrev pub free_table : Superblock → Inode → Disk → Option (Inode × Disk)
free_table sb ip d =
    let table = ip.addrs ndirect in
    if table == 0
    then some (ip, d)
    else (free_entries nindirect 0 table sb d >>= λ d1.
        bfree sb table d1 >>= λ d2. some (record ip { addrs = update ip.addrs ndirect 0 }, d2))

unfoldable pub itrunc : Superblock → Inode → Disk → Option (Inode × Disk)
itrunc sb ip d = free_direct ndirect 0 sb ip d >>= λ (ip1, d1).
    free_table sb ip1 d1 >>= λ (ip2, d2).
    let ip3 = record ip2 { size = 0 } in some (ip3, iupdate sb ip3 d2)

-- iput when it has the sleep lock.
unfoldable pub iput : Superblock → Inode → Disk → Option (Inode × Disk)
iput sb ip d =
    let less = λ (i : Inode). record i { ref = (i.ref + 2 ^ 32 - 1) % 2 ^ 32 } in
    if ip.valid && ip.nlink == 0 && ip.ref == 1
    then (itrunc sb ip d >>= λ (ip1, d1).
        let ip2 = record ip1 { type = 0 } in
        some (less (record ip2 { valid = false }), iupdate sb ip2 d1))
    else some (less ip, d)
