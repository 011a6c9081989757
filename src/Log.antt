-- ===== src/Log.antt =====
-- xv6-public/log.c: the redo log.
-- A block is its words. `disk` is what a crash leaves, `view` what bread returns: a modified block is
-- pinned in the cache until it is installed. The writes to the disk are synchronous, and `left` is how
-- many of them still reach it before the power fails.
pub mod Runs
pub mod Space
pub mod Loops
pub mod Recover
pub mod Reboot
pub mod Commit
use osp.Prelude.{
  ℕ, zero, suc, ◌+◌, ◌-◌, ◌*◌, ◌%◌, ◌^◌, Bool, true, false, ◌||◌, Option, none, some, ltb, leb,
  ◌==◌, if◌then◌else◌, update,
}
use osp.Mmap.{slt}

abbrev pub Block : Type 0
Block = ℕ → ℕ

pub record Store : Type 0 where
  pub disk : ℕ → Block
  pub view : ℕ → Block
  pub left : ℕ

-- bread, a change of the data, and bwrite.
abbrev pub write_block : ℕ → Block → Store → Store
write_block b v s = record {
  disk = if s.left == 0 then s.disk else update s.disk b v;
  view = update s.view b v;
  left = s.left - 1;
}

abbrev pub maxopblocks : ℕ
maxopblocks = 10

abbrev pub logsize : ℕ
logsize = 30

pub record LogHeader : Type 0 where
  pub n : ℕ
  pub block : ℕ → ℕ

-- `struct log`, less its lock; `start` is that of the log on the disk.
pub record Log : Type 0 where
  pub start : ℕ
  pub size : ℕ
  pub outstanding : ℕ
  pub committing : Bool
  pub lh : LogHeader

-- The number of rounds of `for(i = 0; i < n; i++)`.
abbrev pub rounds : ℕ → ℕ
rounds n = if slt n 0 then 0 else n

-- The loop of install_trans: `m` blocks from `tail` on.
unfoldable pub install_loop : ℕ → (ℕ → ℕ) → ℕ → ℕ → Store → Store
install_loop start block tail zero s = s
install_loop start block tail (suc m) s =
    install_loop start block (tail + 1) m (write_block (block tail) (s.view (start + tail + 1)) s)

unfoldable pub install_trans : Log → Store → Store
install_trans l s = install_loop l.start l.lh.block 0 (rounds l.lh.n) s

-- The loop of read_head; `hb` is the header block.
unfoldable pub read_blocks : Block → ℕ → ℕ → (ℕ → ℕ) → ℕ → ℕ
read_blocks hb i zero block = block
read_blocks hb i (suc m) block = read_blocks hb (i + 1) m (update block i (hb (i + 1)))

unfoldable pub read_head : Log → Store → Log
read_head l s =
    let hb = s.view l.start in
    record l { lh = record { n = hb 0; block = read_blocks hb 0 (rounds (hb 0)) l.lh.block } }

-- The loop of write_head.
unfoldable pub write_blocks : (ℕ → ℕ) → ℕ → ℕ → Block → Block
write_blocks block i zero hb = hb
write_blocks block i (suc m) hb = write_blocks block (i + 1) m (update hb (i + 1) (block i))

unfoldable pub write_head : Log → Store → Store
write_head l s =
    write_block l.start
      (write_blocks l.lh.block 0 (rounds l.lh.n) (update (s.view l.start) 0 l.lh.n)) s

-- The transaction of the header is over.
abbrev pub emptied : Log → Log
emptied l = record l { lh = record { n = 0; block = l.lh.block } }

unfoldable pub recover_from_log : Log → Store → Log × Store
recover_from_log l s =
    let l1 = read_head l s in (emptied l1, write_head (emptied l1) (install_trans l1 s))

-- The loop of write_log.
unfoldable pub write_log_loop : ℕ → (ℕ → ℕ) → ℕ → ℕ → Store → Store
write_log_loop start block tail zero s = s
write_log_loop start block tail (suc m) s =
    write_log_loop start block (tail + 1) m (write_block (start + tail + 1) (s.view (block tail)) s)

unfoldable pub write_log : Log → Store → Store
write_log l s = write_log_loop l.start l.lh.block 0 (rounds l.lh.n) s

unfoldable pub commit : Log → Store → Log × Store
commit l s =
    if slt 0 l.lh.n
    then (emptied l, write_head (emptied l) (install_trans l (write_head l (write_log l s))))
    else (l, s)

-- One round of the loop of begin_op: `none` where it sleeps.
unfoldable pub begin_op : Log → Option Log
begin_op l =
    if l.committing || ltb logsize (l.lh.n + (l.outstanding + 1) * maxopblocks)
    then none
    else some (record l { outstanding = (l.outstanding + 1) % 2 ^ 32 })

-- end_op up to the commit: whether it is to commit. `none` is the panic.
unfoldable pub end_op : Log → Option (Bool × Log)
end_op l =
    let l1 = record l { outstanding = (l.outstanding + 2 ^ 32 - 1) % 2 ^ 32 } in
    if l.committing
    then none
    else if l1.outstanding == 0
    then some (true, record l1 { committing = true })
    else some (false, l1)

-- end_op from the commit on.
unfoldable pub end_commit : Log → Store → Log × Store
end_commit l s = let (l1, s1) = commit l s in (record l1 { committing = false }, s1)

-- The index of the block in the header, the length if it is not there: `m` entries from `i` on.
unfoldable pub find_logged : (ℕ → ℕ) → ℕ → ℕ → ℕ → ℕ
find_logged block b i zero = i
find_logged block b i (suc m) = if block i == b then i else find_logged block b (i + 1) m

-- log_write of a block that the caller has modified in the cache.
unfoldable pub log_write : ℕ → Log → Option Log
log_write b l =
    let i = find_logged l.lh.block b 0 (rounds l.lh.n) in
    if leb logsize l.lh.n || leb (l.size - 1) l.lh.n
    then none
    else if slt l.outstanding 1
    then none
    else some (record l {
      lh = record { n = if i == l.lh.n then l.lh.n + 1 else l.lh.n; block = update l.lh.block i b };
    })
