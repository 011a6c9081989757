-- ===== src/Pipe.antt =====
-- xv6-public/pipe.c: pipewrite, piperead and pipeclose.
-- A call that sleeps stops with what it has still to do, and calls the same function again when it is
-- woken: both loops test their condition anew under the lock. A call between two sleeps runs under
-- `p->lock`, hence is one step. Each call also returns the wakeups that it makes.
pub mod Window
pub mod Refine
pub mod Stream
use osp.Prelude.{
  ℕ, zero, suc, ◌+◌, ◌-◌, ◌%◌, ◌^◌, Bool, true, false, not, ◌&&◌, ◌||◌, List, [], ◌∷◌, ◌==◌,
  if◌then◌else◌, update, length,
}

abbrev pub pipesize : ℕ
pipesize = 512

-- `struct pipe`, less its lock. `bytes` is the array `data`; the counters are `uint`.
pub record Pipe : Type 0 where
  pub bytes : ℕ → ℕ
  pub nread : ℕ
  pub nwrite : ℕ
  pub readopen : Bool
  pub writeopen : Bool

-- The channels `&p->nread` and `&p->nwrite`.
pub data Chan : Type 0 where
  nread_chan nwrite_chan : Chan

-- How a write stops: all bytes written, -1, or asleep on `&p->nwrite` with the bytes that are left.
pub data Wrote : Type 0 where
  done : Wrote
  failed : Wrote
  asleep : List ℕ → Wrote

-- `p->data[p->nwrite++ % PIPESIZE] = b`.
unfoldable pub put : ℕ → Pipe → Pipe
put b p = record p {
  bytes = update p.bytes (p.nwrite % pipesize) b;
  nwrite = (p.nwrite + 1) % 2 ^ 32;
}

abbrev pub is_full : Pipe → Bool
is_full p = p.nwrite == (p.nread + pipesize) % 2 ^ 32

-- The loop of pipewrite over the bytes that are left; `killed` is that of the caller.
unfoldable pub pipewrite : Bool → List ℕ → Pipe → Wrote × Pipe × List Chan
unfolding put
pipewrite killed [] p = (done, p, nread_chan ∷ [])
pipewrite killed (b ∷ bs) p =
    let more = pipewrite killed bs (put b p) in
    if is_full p
    then (if not p.readopen || killed
        then (failed, p, [])
        else (asleep (b ∷ bs), p, nread_chan ∷ []))
    else more

-- How a read stops: with the bytes copied, -1, or asleep on `&p->nread`.
pub data Read : Type 0 where
  got : List ℕ → Read
  failed : Read
  asleep : Read

-- The copy loop: at most `n` bytes.
unfoldable pub copy_out : ℕ → Pipe → List ℕ × Pipe
copy_out zero p = ([], p)
copy_out (suc n) p =
    let (rest, p') = copy_out n (record p { nread = (p.nread + 1) % 2 ^ 32 }) in
    if p.nread == p.nwrite then ([], p) else (p.bytes (p.nread % pipesize) ∷ rest, p')

unfoldable pub piperead : Bool → ℕ → Pipe → Read × Pipe × List Chan
piperead killed n p =
    let (bs, p') = copy_out n p in
    if p.nread == p.nwrite && p.writeopen
    then (if killed then (failed, p, []) else (asleep, p, []))
    else (got bs, p', nwrite_chan ∷ [])

-- The pipe, the wakeup, and whether its page is freed.
unfoldable pub pipeclose : Bool → Pipe → Pipe × Chan × Bool
pipeclose writable p =
    let p' = if writable then record p { writeopen = false } else record p { readopen = false } in
    (p', if writable then nread_chan else nwrite_chan, not p'.readopen && not p'.writeopen)
