-- ===== src/Bio.antt =====
-- xv6-public/bio.c: the buffer cache, and iderw of xv6-public/memide.c.
-- A buffer is its place in bcache.buf, and `list_head` is that of bcache.head. Each function under
-- bcache.lock is one step; the sleep lock of a buffer is taken by acquiresleep in another step.
pub mod Ring
pub mod Moves
pub mod Search
pub mod Lru
pub mod Release
pub mod Calls
pub mod Disk
use osp.Prelude.{
  ℕ, zero, suc, ◌+◌, ◌-◌, ◌*◌, ◌%◌, ◌^◌, Bool, true, false, not, ◌&&◌, ◌||◌, Option, none, some,
  leb, ◌==◌, if◌then◌else◌, update, ◌>>=◌,
}
use osp.Mmu.{flag, set_bit, clear_bit}
use osp.Spinlock.{Sleeplock, initsleeplock, acquiresleep, releasesleep, holdingsleep}

abbrev pub nbuf : ℕ
nbuf = 30

abbrev pub list_head : ℕ
list_head = nbuf

abbrev pub b_valid : ℕ
b_valid = 0x2

abbrev pub b_dirty : ℕ
b_dirty = 0x4

-- `struct buf`, less its links.
pub record Buf : Type 0 where
  pub flags : ℕ
  pub dev : ℕ
  pub blockno : ℕ
  pub lock : Sleeplock
  pub refcnt : ℕ
  pub bytes : ℕ → ℕ

-- `bcache`; `next` and `prev` are the links of the buffers and of `list_head`.
pub record Bcache : Type 0 where
  pub buf : ℕ → Buf
  pub next : ℕ → ℕ
  pub prev : ℕ → ℕ

-- The four writes that enter `b` behind `list_head`, and the two that take it out.
unfoldable pub link_first : ℕ → Bcache → Bcache
link_first b c = record c {
  next = update (update c.next b (c.next list_head)) list_head b;
  prev = update (update c.prev b list_head) (c.next list_head) b;
}

unfoldable pub unlink : ℕ → Bcache → Bcache
unlink b c = record c {
  prev = update c.prev (c.next b) (c.prev b);
  next = update c.next (update c.prev (c.next b) (c.prev b) b) (c.next b);
}

abbrev pub no_buf : Buf
no_buf = record {
  flags = 0;
  dev = 0;
  blockno = 0;
  lock = initsleeplock;
  refcnt = 0;
  bytes = λ i. 0;
}

-- The loop of binit: `n` buffers from `b` on.
unfoldable pub binit_loop : ℕ → ℕ → Bcache → Bcache
binit_loop zero b c = c
binit_loop (suc n) b c = binit_loop n (b + 1) (link_first b c)

unfoldable pub binit : Bcache
binit =
    binit_loop nbuf 0 (record { buf = λ b. no_buf; next = λ b. list_head; prev = λ b. list_head })

-- The two loops of bget: the first buffer that passes a test, along `next` or `prev`, or `list_head`.
unfoldable pub find_buf : ℕ → (ℕ → ℕ) → (ℕ → Bool) → ℕ → Option ℕ
find_buf zero step test b = none
find_buf (suc fuel) step test b =
    let rest = find_buf fuel step test (step b) in
    if b == list_head then some list_head else if test b then some b else rest

abbrev pub holds_block : Bcache → ℕ → ℕ → ℕ → Bool
holds_block c dev blockno b = (c.buf b).dev == dev && (c.buf b).blockno == blockno

abbrev pub is_recyclable : Bcache → ℕ → Bool
is_recyclable c b = (c.buf b).refcnt == 0 && not (flag (c.buf b).flags b_dirty)

abbrev pub set_buf : ℕ → Buf → Bcache → Bcache
set_buf b v c = record c { buf = update c.buf b v }

abbrev pub count_ref : ℕ → Bcache → Bcache
count_ref b c = set_buf b (record (c.buf b) { refcnt = ((c.buf b).refcnt + 1) % 2 ^ 32 }) c

abbrev pub recycle : ℕ → ℕ → ℕ → Bcache → Bcache
recycle dev blockno b c =
    set_buf b (record (c.buf b) { dev = dev; blockno = blockno; flags = 0; refcnt = 1 }) c

-- bget, up to its acquiresleep. `none` is the panic.
unfoldable pub bget : ℕ → ℕ → Bcache → Option (ℕ × Bcache)
bget dev blockno c =
    find_buf (nbuf + 1) c.next (holds_block c dev blockno) (c.next list_head) >>= λ b.
    if not (b == list_head)
    then some (b, count_ref b c)
    else (find_buf (nbuf + 1) c.prev (is_recyclable c) (c.prev list_head) >>= λ u.
        if u == list_head then none else some (u, recycle dev blockno u c))

-- The acquiresleep of bget by the process `pid`: `none` where it sleeps.
abbrev pub lock_buf : ℕ → ℕ → Bcache → Option Bcache
lock_buf pid b c =
    acquiresleep pid (c.buf b).lock >>= λ lk. some (set_buf b (record (c.buf b) { lock = lk }) c)

-- iderw of memide.c, by the process `pid`; the disk has `disksize` blocks.
unfoldable pub iderw : ℕ → ℕ → Buf → (ℕ → ℕ → ℕ) → Option (Buf × (ℕ → ℕ → ℕ))
iderw pid disksize b disk =
    if not (holdingsleep pid b.lock)
      || (flag b.flags b_valid && not (flag b.flags b_dirty))
      || not (b.dev == 1)
      || leb disksize b.blockno
    then none
    else if flag b.flags b_dirty
    then some (
      record b { flags = set_bit (clear_bit b.flags b_dirty) b_valid },
      update disk b.blockno b.bytes,
    )
    else some (record b { flags = set_bit b.flags b_valid; bytes = disk b.blockno }, disk)

-- bread, from where bget has the lock of the buffer.
unfoldable pub bread : ℕ → ℕ → Buf → (ℕ → ℕ → ℕ) → Option (Buf × (ℕ → ℕ → ℕ))
bread pid disksize b disk =
    if flag b.flags b_valid then some (b, disk) else iderw pid disksize b disk

unfoldable pub bwrite : ℕ → ℕ → Buf → (ℕ → ℕ → ℕ) → Option (Buf × (ℕ → ℕ → ℕ))
bwrite pid disksize b disk =
    if not (holdingsleep pid b.lock)
    then none
    else iderw pid disksize (record b { flags = set_bit b.flags b_dirty }) disk

-- The part of brelse under bcache.lock.
unfoldable pub put_ref : ℕ → Bcache → Bcache
put_ref b c =
    let c' = set_buf b (record (c.buf b) { refcnt = ((c.buf b).refcnt + 2 ^ 32 - 1) % 2 ^ 32 }) c in
    if (c'.buf b).refcnt == 0 then link_first b (unlink b c') else c'

unfoldable pub brelse : ℕ → ℕ → Bcache → Option Bcache
brelse pid b c =
    if not (holdingsleep pid (c.buf b).lock)
    then none
    else some (put_ref b (set_buf b (record (c.buf b) { lock = releasesleep (c.buf b).lock }) c))
