-- ===== src/Fs/Icache.antt =====
-- xv6-public/fs.c: the cache of inodes, `icache.inode`, as a table; an entry is its index. Each function
-- runs under the lock of the cache; `none` is a panic.
pub mod Unique
use osp.Prelude.{
  ℕ, zero, suc, ◌+◌, ◌-◌, ◌*◌, ◌%◌, ◌^◌, Bool, true, false, not, ◌&&◌, Option, none, some, ltb,
  ◌==◌, if◌then◌else◌, update, ◌>>=◌,
}
use osp.Mmap.{slt}
use osp.Fs.Bitmap.{Superblock, Disk, modify}
use osp.Fs.Inode.{Inode, iblock, dinode_at, get_short, put_short}

abbrev pub ninode : ℕ
ninode = 50

-- `ip->ref > 0 && ip->dev == dev && ip->inum == inum`.
abbrev pub is_cached : ℕ → ℕ → Inode → Bool
is_cached dev inum ip = slt 0 ip.ref && ip.dev == dev && ip.inum == inum

-- The loop of iget: the entry that has the inode, or else `empty`, the first free entry, if there is
-- one.
pub data Slot : Type 0 where
  cached empty : ℕ → Slot
  full : Slot

abbrev pub remember : Slot → ℕ → Inode → Slot
remember (cached j) i ip = cached j
remember (empty j) i ip = empty j
remember full i ip = if ip.ref == 0 then empty i else full

unfoldable pub find_inode : ℕ → ℕ → (ℕ → Inode) → ℕ → ℕ → Slot → Slot
find_inode zero i t dev inum seen = seen
find_inode (suc m) i t dev inum seen =
    let later = find_inode m (i + 1) t dev inum (remember seen i (t i)) in
    if is_cached dev inum (t i) then cached i else later

-- The entry, and the table.
abbrev pub take_slot : ℕ → ℕ → (ℕ → Inode) → Slot → Option (ℕ × (ℕ → Inode))
take_slot dev inum t (cached i) =
    some (i, update t i (record (t i) { ref = ((t i).ref + 1) % 2 ^ 32 }))
take_slot dev inum t (empty i) =
    some (i, update t i (record (t i) { dev = dev; inum = inum; ref = 1; valid = false }))
take_slot dev inum t full = none

unfoldable pub iget : ℕ → ℕ → (ℕ → Inode) → Option (ℕ × (ℕ → Inode))
iget dev inum t = take_slot dev inum t (find_inode ninode 0 t dev inum full)

unfoldable pub idup : ℕ → (ℕ → Inode) → ℕ → Inode
idup i t = update t i (record (t i) { ref = ((t i).ref + 1) % 2 ^ 32 })

-- `memset(dip, 0, sizeof(*dip))` and the type, for the inode at `o` of a block.
abbrev pub fresh_dinode : ℕ → ℕ → (ℕ → ℕ) → ℕ → ℕ
fresh_dinode o type bytes =
    put_short o type (λ i. if not (ltb i o) && ltb i (o + 64) then 0 else bytes i)

-- The loop of ialloc, with `m` inodes left from `inum` on.
unfoldable pub ialloc_loop :
    ℕ → ℕ → Superblock → ℕ → ℕ → (ℕ → Inode) → Disk → Option (ℕ × (ℕ → Inode) × Disk)
ialloc_loop zero inum sb dev type t d = none
ialloc_loop (suc m) inum sb dev type t d =
    let bp = iblock inum sb in
    let bytes = d.blocks bp in
    let o = dinode_at inum in
    let later = ialloc_loop m (inum + 1) sb dev type t d in
    if get_short bytes o == 0
    then (iget dev inum t >>= λ (i, t1). some (i, t1, modify bp (fresh_dinode o type bytes) d))
    else later

unfoldable pub ialloc : Superblock → ℕ → ℕ → (ℕ → Inode) → Disk → Option (ℕ × (ℕ → Inode) × Disk)
ialloc sb dev type t d = ialloc_loop (sb.ninodes - 1) 1 sb dev type t d
