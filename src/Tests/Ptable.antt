-- ===== src/Tests/Ptable.antt =====
-- The theorems on the process table at a table with one process, in slot 0.
use osp.Prelude.{ℕ, ◌≡◌, refl, true, some, ◌>>=◌, [], ◌∷◌, arith, ◌==◌, if◌then◌else◌}
use osp.Kalloc.FreeList.{Free}
use osp.Proc.{unused, sleeping, runnable, running, zombie, Proc}
use osp.Ptable.{
  Procs, Kernel, proc_ptr, blank_mapping, kill, allocproc, exit_table, waits_on, reparent, wakeup1,
  each_proc,
}
use osp.Ptable.Exit.{Exited, exit_table-Exited}
use osp.Ptable.Wakeup.{IsFirst}
use osp.Ptable.Alloc.{free_slot, Ends, allocproc-Ends}
use osp.Ptable.Wait.{returns, scan, wait, wait_again}
use osp.Ptable.Wait.Outcome.{Waits, wait-Waits}
use osp.Ptable.Wait.AfterExit.{ReapsOne, after_exit, woken, wait-exit_table}
use osp.Vm.{find_pte}
use osp.Vm.Free.{freevm, deallocuvm, dealloc_loop, free_tables}
use osp.Kalloc.{kfree}
use osp.Ptable.Pids.{after_kill, kill_unused}

abbrev empty_slot : Proc
empty_slot = record {
  sz = 0;
  pgdir = 0;
  kstack = 0;
  state = unused;
  pid = 0;
  parent = 0;
  tf = 0;
  context = 0;
  chan = 0;
  killed = 0;
  ofile = λ _. 0;
  cwd = 0;
  name = [];
  memory_mappings = λ _. blank_mapping;
  num_mappings = 0;
}

abbrev sleeper : Proc
sleeper = record empty_slot { state = sleeping; pid = 1; chan = 700 }

abbrev procs : Procs
procs i = if i == 0 then sleeper else empty_slot

abbrev page : ℕ
page = 0x8010_1000

abbrev kernel : Kernel
kernel = record {
  kmem = record { mem = λ _. 0; freelist = page; use_lock = true };
  procs = procs;
  nextpid = 2;
}

abbrev kend : ℕ
kend = 0x8010_0000

kernel-Free : Free kend kernel.kmem (page ∷ [])
kernel-Free = (refl, omega arith, tt, refl)

allocproc-Ends_example : Ends 11 22 kend (page ∷ []) kernel
allocproc-Ends_example = allocproc-Ends 11 22 kend (page ∷ []) kernel (omega arith) kernel-Free

one-IsFirst : IsFirst free_slot procs 0 64 1
one-IsFirst = record {
  above = omega arith;
  below = omega arith;
  passes = refl;
  first = λ j a b. let z : j ≡ 0 = omega arith in rw z;
}

kill_unused_example :
    (k' : Kernel) × ((kill 0 procs).0 ≡ 0)
    × (allocproc 11 22 (after_kill kernel) ≡ (proc_ptr 1, k'))
    × ((k'.procs 1).killed ≡ 1)
kill_unused_example =
    kill_unused 11 22 kend page [] 1 kernel (omega arith) kernel-Free one-IsFirst refl
      (λ j lt e. let z : j ≡ 0 = omega arith in by_pid (rw z at e))
  where
    by_pid : (procs 0).pid ≡ 0 → ⊥
    by_pid e = omega arith

-- The process in slot 1 exits; its parent, in slot 0, sleeps in `wait`.
abbrev family : Procs
family i =
    if i == 0
    then record sleeper { chan = 1 }
    else if i == 1
    then record empty_slot { state = zombie; pid = 2; parent = 1 }
    else empty_slot

exit_table-Exited_example : Exited 1 1 family (exit_table 1 1 family)
exit_table-Exited_example = exit_table-Exited 1 1 family

-- A kernel where the process in slot 0 waits for its child in slot 1, which has a stack and an empty
-- page directory.
abbrev waiting : Kernel
waiting = record {
  kmem = record { mem = λ _. 0; freelist = 0; use_lock = true };
  procs = λ i.
      if i == 0
      then record sleeper { chan = proc_ptr 0 }
      else if i == 1
      then record empty_slot {
        state = running;
        pid = 2;
        parent = proc_ptr 0;
        kstack = page;
        pgdir = 0x8010_2000;
      }
      else empty_slot;
  nextpid = 3;
}

abbrev child_dead : Kernel
child_dead = after_exit 1 7 waiting

wait-Waits_example : Waits kend 0 child_dead (wait kend 0 child_dead)
wait-Waits_example = wait-Waits kend 0 child_dead

wait-exit_table_example :
    (waits_on (proc_ptr 0) (waiting.procs 0) ≡ true → (child_dead.procs 0).state ≡ runnable)
    × ReapsOne kend 0 (woken 0 child_dead) (wait_again kend 0 child_dead)
wait-exit_table_example =
    wait-exit_table kend 0 1 7 waiting (omega arith) (omega arith) (λ e. absurd (omega arith)) refl

-- The round runs, and returns the pid of the child.
wait_run : (wait kend 0 child_dead >>= λ r. some r.0) ≡ some (returns 2)
unfolding wait scan freevm deallocuvm dealloc_loop free_tables kfree find_pte exit_table reparent
    wakeup1 each_proc
wait_run = refl
