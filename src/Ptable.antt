-- ===== src/Ptable.antt =====
-- xv6-public/proc.c: the process table. Each function runs under `ptable.lock`, hence is one step, up
-- to its call of `sched`, which gives up the processor.
pub mod Wakeup
pub mod Alloc
pub mod Pids
pub mod Kill
pub mod Exit
pub mod Wait
use osp.Prelude.{
  ℕ, zero, suc, ◌+◌, ◌-◌, ◌*◌, ◌%◌, ◌^◌, Bool, true, false, not, ◌&&◌, ◌||◌, Option, none, some,
  List, [], ◌∷◌, ltb, leb, ◌==◌, if◌then◌else◌, update,
}
use osp.Mmu.{pgsize}
use osp.Kalloc.{Kmem, kalloc}
use osp.Mmap.{minus_one}
use osp.Proc.{
  MemMapping, Procstate, unused, embryo, sleeping, runnable, running, zombie, Proc, nproc, nofile,
}

-- `==` on `enum procstate`.
abbrev pub is_unused : Procstate → Bool
is_unused unused = true
is_unused _ = false

abbrev pub is_sleeping : Procstate → Bool
is_sleeping sleeping = true
is_sleeping _ = false

abbrev pub is_runnable : Procstate → Bool
is_runnable runnable = true
is_runnable _ = false

abbrev pub is_running : Procstate → Bool
is_running running = true
is_running _ = false

abbrev pub is_zombie : Procstate → Bool
is_zombie zombie = true
is_zombie _ = false

abbrev pub Procs : Type 0
Procs = ℕ → Proc

-- `&ptable.proc[i]`.
abbrev pub proc_ptr : ℕ → ℕ
proc_ptr i = i + 1

-- `for(p = ptable.proc; ...)` up to the first process that passes: `n` slots from index `i` on.
unfoldable pub find_proc : (Proc → Bool) → Procs → ℕ → ℕ → Option ℕ
find_proc test procs i zero = none
find_proc test procs i (suc n) = if test (procs i) then some i else find_proc test procs (i + 1) n

-- The same loop where each slot that passes is changed.
unfoldable pub each_proc : (Proc → Bool) → (Proc → Proc) → Procs → ℕ → ℕ → Procs
each_proc test change procs i zero = procs
each_proc test change procs i (suc n) =
    each_proc test change (if test (procs i) then update procs i (change (procs i)) else procs)
      (i + 1) n

abbrev pub waits_on : ℕ → Proc → Bool
waits_on chan p = is_sleeping p.state && p.chan == chan

abbrev pub make_runnable : Proc → Proc
make_runnable p = record p { state = runnable }

unfoldable pub wakeup1 : ℕ → Procs → Procs
unfolding each_proc
wakeup1 chan procs = each_proc (waits_on chan) make_runnable procs 0 nproc

-- What `kill` does to the process that it finds.
abbrev pub mark_killed : Proc → Proc
mark_killed p = record p { killed = 1; state = if is_sleeping p.state then runnable else p.state }

unfoldable pub kill : ℕ → Procs → ℕ × Procs
unfolding find_proc
kill pid procs = elim (find_proc (λ p. p.pid == pid) procs 0 nproc) [
  | none ↦ (minus_one, procs)
  | some i ↦ (0, update procs i (mark_killed (procs i)))
]

-- The loop of count_children; the counter is an `int`.
unfoldable pub count_loop : ℕ → Procs → ℕ → ℕ → ℕ → ℕ
count_loop parent procs i zero count = count
count_loop parent procs i (suc n) count =
    count_loop parent procs (i + 1) n (if (procs i).parent == parent then count + 1 else count)

unfoldable pub count_children : ℕ → Procs → ℕ
unfolding count_loop
count_children parent procs = count_loop parent procs 0 nproc 0

-- The state that allocproc works on. `trapret` and `forkret` are the addresses of those routines.
pub record Kernel : Type 0 where
  pub kmem : Kmem
  pub procs : Procs
  pub nextpid : ℕ

abbrev pub kstacksize : ℕ
kstacksize = 4096

-- `sizeof(struct trapframe)`, and the five words of `struct context`.
abbrev pub trapframe_size : ℕ
trapframe_size = 76

abbrev pub context_size : ℕ
context_size = 20

-- `memset(context, 0, sizeof *context)`, then `context->eip = forkret`.
abbrev pub fresh_context : ℕ → ℕ → (ℕ → ℕ) → ℕ → ℕ
fresh_context forkret context mem a =
    if leb context a && ltb a (context + context_size)
    then (if a == context + 16 then forkret else 0)
    else mem a

-- The slot is given back when there is no page for a stack: `p->kstack` is 0.
unfoldable pub give_back : ℕ → Kmem → Kernel → Kernel
give_back i kmem k = record {
  kmem = kmem;
  procs = update k.procs i (record (k.procs i) { state = unused; pid = k.nextpid; kstack = 0 });
  nextpid = (k.nextpid + 1) % 2 ^ 32;
}

module _ (trapret forkret : ℕ) where
  -- The process with its stack laid out.
  unfoldable pub with_stack : ℕ → ℕ → Kmem → Kernel → Kernel
  with_stack i stack kmem k =
      let tf = stack + kstacksize - trapframe_size in
      let context = tf - 4 - context_size in
      record {
        kmem = record kmem {
          mem = fresh_context forkret context (update kmem.mem (tf - 4) trapret);
        };
        procs = update k.procs i (record (k.procs i) {
          state = embryo;
          pid = k.nextpid;
          kstack = stack;
          tf = tf;
          context = context;
        });
        nextpid = (k.nextpid + 1) % 2 ^ 32;
      }

  -- allocproc behind its loop, with the slot `i` that it found.
  unfoldable pub init_proc : ℕ → Kernel → ℕ × Kernel
  init_proc i k =
      let (stack, kmem) = kalloc k.kmem in
      if stack == 0 then (0, give_back i kmem k) else (proc_ptr i, with_stack i stack kmem k)

  -- The pointer to the process, 0 if there is no slot or no page for its stack.
  unfoldable pub allocproc : Kernel → ℕ × Kernel
  unfolding find_proc
  allocproc k = elim (find_proc (λ p. is_unused p.state) k.procs 0 nproc) [
    | none ↦ (0, k)
    | some i ↦ init_proc i k
  ]

-- What `exit` does to a child of the process that exits.
abbrev pub adopt : ℕ → Proc → Proc
adopt initproc p = record p { parent = initproc }

-- The loop of `exit` over the table: children go to init, which is woken for each dead one.
unfoldable pub reparent : ℕ → ℕ → Procs → ℕ → ℕ → Procs
unfolding wakeup1
reparent curproc initproc procs i zero = procs
reparent curproc initproc procs i (suc n) =
    let moved = update procs i (adopt initproc (procs i)) in
    let woken = if is_zombie (procs i).state then wakeup1 initproc moved else moved in
    reparent curproc initproc (if (procs i).parent == curproc then woken else procs) (i + 1) n

abbrev pub blank_mapping : MemMapping
blank_mapping = record {
  addr = 0;
  length = 0;
  flags = 0;
  fd = 0;
  original_length = 0;
  allocated = 0;
}

-- `exit` from where it takes `ptable.lock`, up to `sched`, for the process in slot `i`.
unfoldable pub exit_table : ℕ → ℕ → Procs → Procs
exit_table i initproc procs =
    let woken = wakeup1 (procs i).parent procs in
    let moved = reparent (proc_ptr i) initproc woken 0 nproc in
    update moved i
      (record (moved i) { memory_mappings = λ _. blank_mapping; num_mappings = 0; state = zombie })
