-- ===== src/Ptable/Wait/AfterExit.antt =====
-- wait after the exit of a child.
use osp.Prelude.{
  ℕ, ◌<◌, ◌≡◌, ◌≢◌, sym, ◌∙◌, true, false, inl, inr, true≢false, Option, none, some, ◌==◌, arith,
  update, update-ne,
}
use osp.Proc.{runnable, nproc}
use osp.Ptable.{Kernel, proc_ptr, exit_table, waits_on}
use osp.Ptable.Wakeup.{IsFirst}
use osp.Ptable.Exit.{Exited, exit_table-Exited}
use osp.Ptable.Wait.Outcome.{is_dead_child, Reaps, IsStuck, Waits, wait-Waits}
use osp.Ptable.Wait.{Waited, resumed, wait_again}

-- A round of wait that reaps a child, or panics where it frees the pages of one.
abbrev pub ReapsOne : ℕ → ℕ → Kernel → Option (Waited × Kernel) → Type 0
ReapsOne kernel_end c k none =
    (i : ℕ) × IsFirst (is_dead_child (proc_ptr c)) k.procs 0 nproc i × IsStuck kernel_end i k
ReapsOne kernel_end c k (some out) = (i : ℕ) × Reaps kernel_end c i k out

-- The kernel after the exit of the process in slot `i`.
abbrev pub after_exit : ℕ → ℕ → Kernel → Kernel
after_exit i initproc k = record k { procs = exit_table i initproc k.procs }

-- The kernel when sched has returned in the sleep of the process in slot `c`.
abbrev pub woken : ℕ → Kernel → Kernel
woken c k = record k { procs = update k.procs c (resumed (k.procs c)) }

-- When a process in the table exits whose parent is another one: the parent, where it sleeps in wait,
-- is RUNNABLE again, and its next round of wait neither sleeps nor returns -1, but reaps a child, or panics because
-- the pages of the first child that has exited cannot be freed.
pub wait-exit_table :
    (kernel_end c i initproc : ℕ) (k : Kernel)
    → i < nproc
    → c < nproc
    → i ≢ c
    → (k.procs i).parent ≡ proc_ptr c
    → (waits_on (proc_ptr c) (k.procs c) ≡ true
        → ((after_exit i initproc k).procs c).state ≡ runnable)
      × ReapsOne kernel_end c
          (woken c (after_exit i initproc k))
          (wait_again kernel_end c (after_exit i initproc k))
wait-exit_table kernel_end c i initproc k li lc ne par = (
  λ w. e.wakes c (λ q. ne (sym q)) lc (rw par w),
  reaps (wait_again kernel_end c (after_exit i initproc k))
      (wait-Waits kernel_end c (woken c (after_exit i initproc k))),
)
  where
    e : Exited i initproc k.procs (exit_table i initproc k.procs)
    e = exit_table-Exited i initproc k.procs

    other : ((k.procs i).parent == proc_ptr i) ≡ false
    other = rw par (ground arith)

    still : (woken c (after_exit i initproc k)).procs i ≡ exit_table i initproc k.procs i
    still =
        update-ne (exit_table i initproc k.procs) c (resumed (exit_table i initproc k.procs c)) i
          (λ q. ne (sym q))

    dead : is_dead_child (proc_ptr c) ((woken c (after_exit i initproc k)).procs i) ≡ true
    dead =
        let parent : (exit_table i initproc k.procs i).parent ≡ proc_ptr c =
          e.parents i li ∙ rw other par in
        rw still (rw parent (rw e.dead (ground arith)))

    reaps :
        (r : Option (Waited × Kernel))
        → Waits kernel_end c (woken c (after_exit i initproc k)) r
        → ReapsOne kernel_end c (woken c (after_exit i initproc k)) r
    reaps none d = d
    reaps (some out) (inl r) = r
    reaps (some out) (inr (d, _)) = absurd (true≢false (sym dead ∙ d i (omega arith) li))
