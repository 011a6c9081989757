-- ===== src/Spinlock.antt =====
-- xv6-public/spinlock.c and sleeplock.c: locks of several processors. A step has at most one write to
-- the lock's memory, with the reads before it; the debugging data (name, pcs) are left out.
pub mod State
pub mod Exclusion
use osp.Prelude.{
  ℕ, zero, suc, ◌+◌, ◌-◌, ◌%◌, ◌^◌, Bool, true, false, not, ◌&&◌, Option, none, some, List, [], ◌∷◌,
  ◌==◌, if◌then◌else◌, update, ◌>>=◌,
}
use osp.Mmap.{slt}

-- Where a processor is: out of the lock, in the loop of acquire, behind it, in the critical section, or
-- in release where the lock is still taken.
pub data Pc : Type 0 where
  outside spinning taken inside leaving : Pc

-- The fields of `struct cpu` that the locks use, and the processor's interrupt flag.
pub record Cpu : Type 0 where
  pub pc : Pc
  pub ncli : ℕ
  pub intena : Bool
  pub interrupts : Bool

-- `struct spinlock`, and the processors. `owner` is the field `cpu`: processor `i` is `i + 1`.
pub record System : Type 0 where
  pub locked : ℕ
  pub owner : ℕ
  pub cpus : ℕ → Cpu

abbrev pub pushcli : Cpu → Cpu
pushcli c = record c {
  intena = if c.ncli == 0 then c.interrupts else c.intena;
  ncli = (c.ncli + 1) % 2 ^ 32;
  interrupts = false;
}

-- `none` is the panic.
abbrev pub popcli : Cpu → Option Cpu
popcli c =
    let n = (c.ncli + 2 ^ 32 - 1) % 2 ^ 32 in
    if c.interrupts
    then none
    else if slt n 0
    then none
    else some (record c { ncli = n; interrupts = n == 0 && c.intena })

-- The test of `holding`, and its processor afterwards.
abbrev pub holding : ℕ → Cpu → System → Option (Bool × Cpu)
holding i c s = popcli (pushcli c) >>= λ c'. some (not (s.locked == 0) && s.owner == suc i, c')

-- `lk->locked = 0` and `lk->cpu = 0`.
abbrev pub initlock : System → System
initlock s = record s { locked = 0; owner = 0 }

-- acquire up to the loop.
unfoldable pub begin_acquire : ℕ → System → Option System
begin_acquire i s = holding i (pushcli (s.cpus i)) s >>= λ (r, c).
    if r then none else some (record s { cpus = update s.cpus i (record c { pc = spinning }) })

-- One `xchg`.
unfoldable pub try_lock : ℕ → System → System
try_lock i s = record s {
  locked = 1;
  cpus = update s.cpus i (record (s.cpus i) { pc = if s.locked == 0 then taken else spinning });
}

-- acquire from the loop on.
unfoldable pub end_acquire : ℕ → System → System
end_acquire i s = record s {
  owner = suc i;
  cpus = update s.cpus i (record (s.cpus i) { pc = inside });
}

-- release up to the second fence.
unfoldable pub begin_release : ℕ → System → Option System
begin_release i s = holding i (s.cpus i) s >>= λ (r, c).
    if not r
    then none
    else some (record s { owner = 0; cpus = update s.cpus i (record c { pc = leaving }) })

-- release from there on.
unfoldable pub end_release : ℕ → System → Option System
end_release i s = popcli (s.cpus i) >>= λ c.
    some (record s { locked = 0; cpus = update s.cpus i (record c { pc = outside }) })

-- The next step of a processor that takes and leaves the lock again and again.
unfoldable pub step_from : Pc → ℕ → System → Option System
step_from outside i s = begin_acquire i s
step_from spinning i s = some (try_lock i s)
step_from taken i s = some (end_acquire i s)
step_from inside i s = begin_release i s
step_from leaving i s = end_release i s

-- The processors take steps in the order of the list.
unfoldable pub run : List ℕ → System → Option System
run [] s = some s
run (i ∷ is) s = step_from (s.cpus i).pc i s >>= λ s'. run is s'

-- `struct sleeplock`, less its spin lock, under which each function is one step.
pub record Sleeplock : Type 0 where
  pub is_locked : Bool
  pub pid : ℕ

abbrev pub initsleeplock : Sleeplock
initsleeplock = record { is_locked = false; pid = 0 }

-- One round of the loop of acquiresleep by the process `pid`: `none` where it sleeps.
unfoldable pub acquiresleep : ℕ → Sleeplock → Option Sleeplock
acquiresleep pid lk = if lk.is_locked then none else some (record { is_locked = true; pid = pid })

unfoldable pub releasesleep : Sleeplock → Sleeplock
releasesleep lk = record { is_locked = false; pid = 0 }

unfoldable pub holdingsleep : ℕ → Sleeplock → Bool
holdingsleep pid lk = lk.is_locked && lk.pid == pid
