-- ===== src/Fs/Inode/Content.antt =====
-- xv6-public/fs.c: reading and writing the data of an inode. The buffer of a call is the list of its
-- bytes, or a function of the index.
use osp.Prelude.{
  ℕ, zero, suc, ◌+◌, ◌-◌, ◌*◌, ◌/◌, ◌%◌, ◌^◌, Bool, not, ◌&&◌, ◌||◌, Option, none, some, List, [],
  ◌∷◌, ◌++◌, ltb, leb, ◌==◌, if◌then◌else◌, min, ◌>>=◌,
}
use osp.Mmap.{minus_one}
use osp.Fs.Bitmap.{bsize, Superblock, Disk, modify}
use osp.Fs.Inode.{ndirect, nindirect, Inode, bmap, iupdate}

abbrev pub maxfile : ℕ
maxfile = ndirect + nindirect

abbrev pub t_dev : ℕ
t_dev = 3

abbrev pub ndev : ℕ
ndev = 10

-- `devsw`: which devices can be read and written, and what their functions answer.
pub record Devsw : Type 0 where
  pub has_read : ℕ → Bool
  pub has_write : ℕ → Bool
  pub read : ℕ → ℕ → ℕ × List ℕ
  pub write : ℕ → (ℕ → ℕ) → ℕ → ℕ

-- The short `major` is negative or no device.
abbrev pub no_device : ℕ → Bool
no_device major = leb (2 ^ 15) major || leb ndev major

-- `m` bytes of a block from `o` on.
unfoldable pub bytes_from : (ℕ → ℕ) → ℕ → ℕ → List ℕ
bytes_from bytes o zero = []
bytes_from bytes o (suc m) = bytes o ∷ bytes_from bytes (o + 1) m

-- `n` is what is left to read.
unfoldable pub readi_loop : ℕ → Superblock → ℕ → ℕ → Inode → Disk → Option (List ℕ × Inode × Disk)
readi_loop zero sb off n ip d = none
readi_loop (suc fuel) sb off n ip d =
    let m = min n (bsize - off % bsize) in
    if n == 0
    then some ([], ip, d)
    else (bmap sb ip (off / bsize) d >>= λ (b, ip1, d1).
        readi_loop fuel sb (off + m) (n - m) ip1 d1 >>= λ (rest, ip2, d2).
        some (bytes_from (d1.blocks b) (off % bsize) m ++ rest, ip2, d2))

-- The result and the bytes in `dst`. One round for each block that is touched, and one more.
unfoldable pub readi :
    Devsw → Superblock → ℕ → ℕ → Inode → Disk → Option (ℕ × List ℕ × Inode × Disk)
readi devs sb off n ip d =
    if ip.type == t_dev
    then (if no_device ip.major || not (devs.has_read ip.major)
        then some (minus_one, [], ip, d)
        else (let (r, bytes) = devs.read ip.major n in some (r, bytes, ip, d)))
    else if ltb ip.size off || ltb ((off + n) % 2 ^ 32) off
    then some (minus_one, [], ip, d)
    else (let count = if ltb ip.size ((off + n) % 2 ^ 32) then ip.size - off else n in
        readi_loop (count / bsize + 3) sb off count ip d >>= λ (bytes, ip1, d1).
        some (count, bytes, ip1, d1))

-- `m` bytes of `src` in a block from `o` on.
abbrev pub with_bytes : (ℕ → ℕ) → ℕ → ℕ → (ℕ → ℕ) → ℕ → ℕ
with_bytes src o m bytes i = if leb o i && ltb i (o + m) then src (i - o) else bytes i

-- `n` is what is left to write, `src` the bytes left.
unfoldable pub writei_loop :
    ℕ → Superblock → (ℕ → ℕ) → ℕ → ℕ → Inode → Disk → Option (ℕ × Inode × Disk)
writei_loop zero sb src off n ip d = none
writei_loop (suc fuel) sb src off n ip d =
    let m = min n (bsize - off % bsize) in
    if n == 0
    then some (off, ip, d)
    else (bmap sb ip (off / bsize) d >>= λ (b, ip1, d1).
        writei_loop fuel sb (λ i. src (m + i)) (off + m) (n - m) ip1
          (modify b (with_bytes src (off % bsize) m (d1.blocks b)) d1))

-- The size after a write up to `off`.
abbrev pub grow_size : Superblock → ℕ → ℕ → Inode → Disk → Option (ℕ × Inode × Disk)
grow_size sb n off ip d =
    if not (n == 0) && ltb ip.size off
    then (let ip1 = record ip { size = off } in some (n, ip1, iupdate sb ip1 d))
    else some (n, ip, d)

unfoldable pub writei :
    Devsw → Superblock → (ℕ → ℕ) → ℕ → ℕ → Inode → Disk → Option (ℕ × Inode × Disk)
writei devs sb src off n ip d =
    if ip.type == t_dev
    then (if no_device ip.major || not (devs.has_write ip.major)
        then some (minus_one, ip, d)
        else some (devs.write ip.major src n, ip, d))
    else if ltb ip.size off || ltb ((off + n) % 2 ^ 32) off
    then some (minus_one, ip, d)
    else if ltb (maxfile * bsize) ((off + n) % 2 ^ 32)
    then some (minus_one, ip, d)
    else (writei_loop (n / bsize + 3) sb src off n ip d >>= λ (end, ip1, d1).
        grow_size sb n end ip1 d1)
