-- ===== src/Fs/Dir.antt =====
-- xv6-public/fs.c: directories. A name is its bytes as a function of the index; `none` is a panic.
use osp.Prelude.{
  ℕ, zero, suc, ◌+◌, ◌-◌, ◌/◌, ◌%◌, ◌^◌, not, Option, none, some, List, [], ◌∷◌, ltb, ◌==◌,
  if◌then◌else◌, ◌>>=◌,
}
use osp.Mmap.{minus_one}
use osp.Cstring.{strncmp, strncpy}
use osp.Fs.Bitmap.{Superblock, Disk}
use osp.Fs.Inode.{Inode, get_short, put_short}
use osp.Fs.Inode.Content.{Devsw, readi, writei}
use osp.Fs.Path.{dirsiz}

abbrev pub t_dir : ℕ
t_dir = 1

-- `sizeof(struct dirent)`.
abbrev pub dirent_size : ℕ
dirent_size = 16

-- The two strings one behind the other in memory.
abbrev pub side_by_side : (ℕ → ℕ) → (ℕ → ℕ) → ℕ → ℕ
side_by_side s t a = if ltb a dirsiz then s a else t (a - dirsiz)

unfoldable pub namecmp : (ℕ → ℕ) → (ℕ → ℕ) → ℕ
namecmp s t = strncmp 0 dirsiz dirsiz (side_by_side s t)

-- The bytes of a buffer.
unfoldable pub byte_at : List ℕ → ℕ → ℕ
byte_at [] i = 0
byte_at (b ∷ bytes) zero = b
byte_at (b ∷ bytes) (suc i) = byte_at bytes i

-- `readi(dp, (char*)&de, off, sizeof(de))`, which panics where it is short: the bytes of the entry.
abbrev pub read_dirent : Devsw → Superblock → ℕ → Inode → Disk → Option ((ℕ → ℕ) × Inode × Disk)
read_dirent devs sb off dp d = readi devs sb off dirent_size dp d >>= λ (r, bytes, dp1, d1).
    if not (r == dirent_size) then none else some (byte_at bytes, dp1, d1)

-- The loop of dirlookup from `off` on: the offset and the inode number of the entry with the name.
unfoldable pub dirlookup_loop :
    ℕ → Devsw → Superblock → (ℕ → ℕ) → ℕ → Inode → Disk → Option (Option (ℕ × ℕ) × Inode × Disk)
dirlookup_loop zero devs sb name off dp d = none
dirlookup_loop (suc fuel) devs sb name off dp d =
    if not (ltb off dp.size)
    then some (none, dp, d)
    else (read_dirent devs sb off dp d >>= λ (de, dp1, d1).
        let inum = get_short de 0 in
        let later = dirlookup_loop fuel devs sb name ((off + dirent_size) % 2 ^ 32) dp1 d1 in
        if inum == 0
        then later
        else if namecmp name (λ i. de (i + 2)) == 0
        then some (some (off, inum), dp1, d1)
        else later)

-- dirlookup up to the call of iget. One round for each entry, and one for the end.
unfoldable pub dirlookup :
    Devsw → Superblock → (ℕ → ℕ) → Inode → Disk → Option (Option (ℕ × ℕ) × Inode × Disk)
dirlookup devs sb name dp d =
    if not (dp.type == t_dir)
    then none
    else dirlookup_loop (dp.size / dirent_size + 2) devs sb name 0 dp d

-- The loop of dirlink: the offset of an empty entry, or the end.
unfoldable pub find_empty : ℕ → Devsw → Superblock → ℕ → Inode → Disk → Option (ℕ × Inode × Disk)
find_empty zero devs sb off dp d = none
find_empty (suc fuel) devs sb off dp d =
    if not (ltb off dp.size)
    then some (off, dp, d)
    else (read_dirent devs sb off dp d >>= λ (de, dp1, d1).
        let later = find_empty fuel devs sb ((off + dirent_size) % 2 ^ 32) dp1 d1 in
        if get_short de 0 == 0 then some (off, dp1, d1) else later)

-- `strncpy(de.name, name, DIRSIZ)` and the number, over what `de` held; the name lies behind it.
abbrev pub new_dirent : (ℕ → ℕ) → ℕ → (ℕ → ℕ) → ℕ → ℕ
new_dirent name inum old = put_short 0 inum (
    strncpy 2 dirent_size dirsiz (λ a. if ltb a dirent_size then old a else name (a - dirent_size)))

-- dirlink for a name that is not there: the entry is written at `off`.
abbrev pub write_dirent :
    Devsw → Superblock → (ℕ → ℕ) → ℕ → ℕ × Inode × Disk → Option (ℕ × Inode × Disk)
write_dirent devs sb name inum (off, dp, d) =
    writei devs sb (new_dirent name inum (λ i. 0)) off dirent_size dp d >>= λ (r, dp1, d1).
    if not (r == dirent_size) then none else some (0, dp1, d1)

abbrev pub link_missing :
    Devsw → Superblock → (ℕ → ℕ) → ℕ → Option (ℕ × ℕ) × Inode × Disk → Option (ℕ × Inode × Disk)
link_missing devs sb name inum (some found, dp, d) = some (minus_one, dp, d)
link_missing devs sb name inum (none, dp, d) =
    find_empty (dp.size / dirent_size + 2) devs sb 0 dp d >>= λ (off, dp1, d1).
    write_dirent devs sb name inum (off, dp1, d1)

-- dirlink, less the iget and iput of the inode that has the name already.
unfoldable pub dirlink : Devsw → Superblock → (ℕ → ℕ) → ℕ → Inode → Disk → Option (ℕ × Inode × Disk)
dirlink devs sb name inum dp d = dirlookup devs sb name dp d >>= λ (found, dp1, d1).
    link_missing devs sb name inum (found, dp1, d1)
