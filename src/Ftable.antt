-- ===== src/Ftable.antt =====
-- xv6-public/file.c: the table of open files. The functions that only touch the table run under
-- `ftable.lock`, hence are one step.
pub mod Refs
pub mod Calls
pub mod Write
pub mod Inodes
use osp.Prelude.{
  ℕ, zero, suc, ◌+◌, ◌-◌, ◌*◌, ◌/◌, ◌%◌, ◌^◌, Bool, true, false, not, Option, none, some, ltb, leb,
  ◌==◌, if◌then◌else◌, ◌>>=◌, update,
}
use osp.Mmap.{minus_one, slt}
use osp.Munmap.{Files}

pub data FileType : Type 0 where
  fd_none fd_pipe fd_inode : FileType

-- `struct file`; the `int` ref is its bit pattern.
pub record File : Type 0 where
  pub type : FileType
  pub ref : ℕ
  pub readable : Bool
  pub writable : Bool
  pub pipe : ℕ
  pub ip : ℕ
  pub off : ℕ

abbrev pub nfile : ℕ
nfile = 100

-- `ftable.file`.
abbrev pub Ftable : Type 0
Ftable = ℕ → File

-- What file.c calls of pipe.c, fs.c and log.c. A call for a pipe returns what the C function returns,
-- and a read the caller's buffer as well.
pub record Lower (S : Type 0) : Type 0 where
  pub files : Files S
  pub iput : ℕ → S → S
  pub pipeclose : ℕ → Bool → S → S
  pub piperead : ℕ → (ℕ → ℕ) → ℕ → S → ℕ × (ℕ → ℕ) × S
  pub pipewrite : ℕ → (ℕ → ℕ) → ℕ → S → ℕ × S

-- The loop of filealloc: `n` files from index `i` on.
unfoldable pub find_file : Ftable → ℕ → ℕ → Option ℕ
find_file t i zero = none
find_file t i (suc n) = if (t i).ref == 0 then some i else find_file t (i + 1) n

-- The file that the loop has found is taken.
unfoldable pub take_file : Option ℕ → Ftable → Option ℕ × Ftable
take_file none t = (none, t)
take_file (some i) t = (some i, update t i (record (t i) { ref = 1 }))

-- The index of the file, `none` for the pointer 0.
unfoldable pub filealloc : Ftable → Option ℕ × Ftable
filealloc t = take_file (find_file t 0 nfile) t

-- `none` is the panic.
unfoldable pub filedup : ℕ → Ftable → Option Ftable
filedup i t =
    if slt (t i).ref 1
    then none
    else some (update t i (record (t i) { ref = ((t i).ref + 1) % 2 ^ 32 }))

module _ {S : Type 0} (lo : Lower S) where
  -- What fileclose calls for the file that it has closed.
  unfoldable pub release_file : FileType → File → S → S
  release_file fd_none f s = s
  release_file fd_pipe f s = lo.pipeclose f.pipe f.writable s
  release_file fd_inode f s = lo.files.end_op (lo.iput f.ip (lo.files.begin_op s))

  unfoldable pub fileclose : ℕ → Ftable → S → Option (Ftable × S)
  unfolding release_file
  fileclose i t s =
      let less = ((t i).ref + 2 ^ 32 - 1) % 2 ^ 32 in
      if slt (t i).ref 1
      then none
      else if slt 0 less
      then some (update t i (record (t i) { ref = less }), s)
      else some
          (update t i (record (t i) { ref = 0; type = fd_none }), release_file (t i).type (t i) s)

  -- `((MAXOPBLOCKS-1-1-2) / 2) * 512`.
  abbrev pub max_write : ℕ
  max_write = (10 - 1 - 1 - 2) / 2 * 512

  abbrev pub chunk : ℕ → ℕ → ℕ
  chunk n i = if slt max_write (n - i) then max_write else n - i

  -- `f->off += r`, if `r` is positive.
  abbrev pub advance : ℕ → File → File
  advance r f = if slt 0 r then record f { off = (f.off + r) % 2 ^ 32 } else f

  -- The loop of filewrite from byte `i` on: the bytes written, the file, the state below. `none` is the
  -- panic, or fuel that ran out.
  unfoldable pub write_loop : ℕ → (ℕ → ℕ) → ℕ → ℕ → File → S → Option (ℕ × File × S)
  write_loop zero addr n i f s = none
  write_loop (suc fuel) addr n i f s =
      let n1 = chunk n i in
      let (r, s1) =
        lo.files.writei f.ip (λ j. addr (i + j)) f.off n1
          (lo.files.ilock f.ip (lo.files.begin_op s)) in
      let s2 = lo.files.end_op (lo.files.iunlock f.ip s1) in
      let rest = write_loop fuel addr n ((i + r) % 2 ^ 32) (advance r f) s2 in
      if not (slt i n)
      then some (i, f, s)
      else if slt r 0
      then some (i, advance r f, s2)
      else if not (r == n1)
      then none
      else rest

  -- filewrite on a file of a given type.
  unfoldable pub write_as : FileType → (ℕ → ℕ) → ℕ → File → S → Option (ℕ × File × S)
  write_as fd_none addr n f s = none
  write_as fd_pipe addr n f s = let (r, s1) = lo.pipewrite f.pipe addr n s in some (r, f, s1)
  write_as fd_inode addr n f s = do
    (i, f1, s1) ← write_loop (n / max_write + 2) addr n 0 f s
    some (if i == n then n else minus_one, f1, s1)

  unfoldable pub filewrite : (ℕ → ℕ) → ℕ → File → S → Option (ℕ × File × S)
  filewrite addr n f s = if f.writable then write_as f.type addr n f s else some (minus_one, f, s)

  unfoldable pub read_as : FileType → (ℕ → ℕ) → ℕ → File → S → Option (ℕ × (ℕ → ℕ) × File × S)
  read_as fd_none addr n f s = none
  read_as fd_pipe addr n f s =
      let (r, buf, s1) = lo.piperead f.pipe addr n s in some (r, buf, f, s1)
  read_as fd_inode addr n f s =
      let (r, buf, s1) = lo.files.readi f.ip addr f.off n (lo.files.ilock f.ip s) in
      some (r, buf, advance r f, lo.files.iunlock f.ip s1)

  unfoldable pub fileread : (ℕ → ℕ) → ℕ → File → S → Option (ℕ × (ℕ → ℕ) × File × S)
  fileread addr n f s =
      if f.readable then read_as f.type addr n f s else some (minus_one, addr, f, s)
