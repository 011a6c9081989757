-- ===== src/Ptable/Wait.antt =====
-- xv6-public/proc.c: wait and the part of sleep that it uses.
pub mod Outcome
pub mod AfterExit
use osp.Prelude.{
  ℕ, zero, suc, ◌+◌, Bool, true, false, not, ◌&&◌, ◌||◌, Option, none, some, ◌==◌, if◌then◌else◌,
  ◌>>=◌, List, [], ◌∷◌, update,
}
use osp.Kalloc.{kfree}
use osp.Vm.Free.{freevm}
use osp.Mmap.{minus_one}
use osp.Proc.{Proc, sleeping, unused, nproc}
use osp.Ptable.{Procs, Kernel, proc_ptr, is_zombie}

-- The loop of wait over `n` slots from index `i` on: the first child that is a zombie, and havekids.
unfoldable pub scan : ℕ → Procs → ℕ → ℕ → Bool → Option ℕ × Bool
scan curproc procs i zero havekids = (none, havekids)
scan curproc procs i (suc n) havekids =
    let child = (procs i).parent == curproc in
    let rest = scan curproc procs (i + 1) n (havekids || child) in
    if child && is_zombie (procs i).state then (some i, true) else rest

-- What the name is when its first character is NUL.
abbrev pub cut_name : List ℕ → List ℕ
cut_name [] = []
cut_name (c ∷ name) = 0 ∷ name

abbrev pub reaped : Proc → Proc
reaped p = record p {
  kstack = 0;
  pid = 0;
  parent = 0;
  name = cut_name p.name;
  killed = 0;
  state = unused;
}

-- sleep under ptable.lock, up to sched.
abbrev pub sleep_on : ℕ → Proc → Proc
sleep_on chan p = record p { chan = chan; state = sleeping }

-- What sleep does when sched has returned.
abbrev pub resumed : Proc → Proc
resumed p = record p { chan = 0 }

-- What one round of wait does: it returns a value, or it sleeps and goes on by another round.
pub data Waited : Type 0 where
  returns : ℕ → Waited
  sleeps : Waited

module _ (kernel_end : ℕ) where
  abbrev pub reap : ℕ → Kernel → Option (Waited × Kernel)
  reap i k = kfree kernel_end (k.procs i).kstack k.kmem >>= λ k1.
      freevm kernel_end (k.procs i).pgdir k1 >>= λ k2. some (
        returns (k.procs i).pid,
        record k { kmem = k2; procs = update k.procs i (reaped (k.procs i)) },
      )

  -- A round of wait by the process in slot `c`; `none` is a panic of kfree or freevm.
  unfoldable pub wait : ℕ → Kernel → Option (Waited × Kernel)
  wait c k =
      let (dead, havekids) = scan (proc_ptr c) k.procs 0 nproc false in
      elim dead [
        | some i ↦ reap i k
        | none ↦
            if not havekids || not ((k.procs c).killed == 0)
            then some (returns minus_one, k)
            else some
                (sleeps, record k { procs = update k.procs c (sleep_on (proc_ptr c) (k.procs c)) })
      ]

  -- The next round, for a process that has slept.
  abbrev pub wait_again : ℕ → Kernel → Option (Waited × Kernel)
  wait_again c k = wait c (record k { procs = update k.procs c (resumed (k.procs c)) })
