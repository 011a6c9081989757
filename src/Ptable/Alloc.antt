-- ===== src/Ptable/Alloc.antt =====
-- What allocproc returns: a process in the lowest free slot, with a new pid and a stack of its own.
use osp.Prelude.{
  ℕ, ◌+◌, ◌-◌, ◌%◌, ◌^◌, ◌≤◌, ◌≡◌, ◌≢◌, refl, ◌⊎◌, inl, inr, Bool, false, Option, none, some, List,
  [], ◌∷◌, arith, ◌==◌, update, update_self, update-ne, ◌∙◌, ap,
}
use osp.Mmu.{kernbase}
use osp.Kalloc.{Kmem, kalloc}
use osp.Kalloc.FreeList.{IsPage, NotIn, Free, kalloc-pop, kalloc-empty, Chain-agree}
use osp.Proc.{unused, embryo, Proc, nproc}
use osp.Ptable.{
  Kernel, proc_ptr, find_proc, is_unused, kstacksize, trapframe_size, context_size, give_back,
  with_stack, init_proc, allocproc,
}
use osp.Ptable.Wakeup.{IsFirst, NonePasses, Finds, find_proc-Finds}

abbrev pub free_slot : Proc → Bool
free_slot p = is_unused p.state

module _ (trapret forkret kernel_end : ℕ) where
  -- The process in slot `i` is new: its stack is the page `x`, at the top of which lie the trap frame,
  -- the return address `trapret` and, right below it, a context that starts at `forkret`.
  pub record IsNew (i x : ℕ) (xs : List ℕ) (k k' : Kernel) : Type 0 where
    pub state : (k'.procs i).state ≡ embryo
    pub pid : (k'.procs i).pid ≡ k.nextpid
    pub stack : (k'.procs i).kstack ≡ x
    pub trap_frame : (k'.procs i).tf ≡ x + 4096 - 76
    pub context_at : (k'.procs i).context ≡ x + 4096 - 76 - 4 - 20
    pub returns_to : k'.kmem.mem ((k'.procs i).tf - 4) ≡ trapret
    pub starts_at : k'.kmem.mem ((k'.procs i).context + 16) ≡ forkret
    pub killed : (k'.procs i).killed ≡ (k.procs i).killed
    pub next : k'.nextpid ≡ (k.nextpid + 1) % 2 ^ 32
    pub pages : Free kernel_end k'.kmem xs
    pub others : (j : ℕ) → i ≢ j → k'.procs j ≡ k.procs j

  with_stack-IsNew :
      (i x : ℕ) (xs : List ℕ) (kmem : Kmem) (k : Kernel)
      → kernbase ≤ kernel_end
      → IsPage kernel_end x
      → NotIn x xs
      → Free kernel_end kmem xs
      → IsNew i x xs k (with_stack trapret forkret i x kmem k)
  unfolding with_stack
  with_stack-IsNew i x xs kmem k high pg out f = record {
    state = ap (λ p. p.state) here;
    pid = ap (λ p. p.pid) here;
    stack = ap (λ p. p.kstack) here;
    trap_frame = ap (λ p. p.tf) here;
    context_at = ap (λ p. p.context) here;
    returns_to = ap (λ p. mem (p.tf - 4)) here ∙ ground (arith, pg.above);
    starts_at = ap (λ p. mem (p.context + 16)) here ∙ ground (arith, pg.above);
    killed = ap (λ p. p.killed) here;
    next = refl;
    pages =
        Chain-agree kernel_end kmem.mem mem kmem.freelist x xs
          (λ y py ne. ground (arith, pg.aligned, pg.above, py.aligned)) out f;
    others = λ j ne. update-ne k.procs i new j ne;
  }
    where
      new : Proc
      new = record (k.procs i) {
        state = embryo;
        pid = k.nextpid;
        kstack = x;
        tf = x + kstacksize - trapframe_size;
        context = x + kstacksize - trapframe_size - 4 - context_size;
      }

      here : update k.procs i new i ≡ new
      here = update_self k.procs i new

      mem : ℕ → ℕ
      mem = (with_stack trapret forkret i x kmem k).kmem.mem

  init_proc-made :
      (i x : ℕ) (xs : List ℕ) (k : Kernel)
      → kernbase ≤ kernel_end
      → Free kernel_end k.kmem (x ∷ xs)
      → (k' : Kernel) × (init_proc trapret forkret i k ≡ (proc_ptr i, k')) × IsNew i x xs k k'
  unfolding init_proc
  init_proc-made i x xs k high f =
      let (got, rest, _) = kalloc-pop kernel_end k.kmem x xs (omega arith) f in
      let live : (x == 0) ≡ false = ground (arith, f.1.above) in
      (
        with_stack trapret forkret i x (kalloc k.kmem).1 k,
        rw (got, live),
        with_stack-IsNew i x xs (kalloc k.kmem).1 k high f.1 f.2 rest,
      )

  -- Slot `i` is free again, though it keeps the pid.
  pub record IsBack (i : ℕ) (k k' : Kernel) : Type 0 where
    pub state : (k'.procs i).state ≡ unused
    pub pid : (k'.procs i).pid ≡ k.nextpid
    pub stack : (k'.procs i).kstack ≡ 0
    pub next : k'.nextpid ≡ (k.nextpid + 1) % 2 ^ 32
    pub pages : k'.kmem ≡ k.kmem
    pub others : (j : ℕ) → i ≢ j → k'.procs j ≡ k.procs j

  give_back-IsBack : (i : ℕ) (k : Kernel) → IsBack i k (give_back i k.kmem k)
  unfolding give_back
  give_back-IsBack i k = record {
    state = ap (λ p. p.state) (update_self k.procs i back);
    pid = ap (λ p. p.pid) (update_self k.procs i back);
    stack = ap (λ p. p.kstack) (update_self k.procs i back);
    next = refl;
    pages = refl;
    others = update-ne k.procs i back;
  }
    where
      back : Proc
      back = record (k.procs i) { state = unused; pid = k.nextpid; kstack = 0 }

  init_proc_no_page :
      (i : ℕ) (k : Kernel)
      → Free kernel_end k.kmem []
      → (k' : Kernel) × (init_proc trapret forkret i k ≡ (0, k')) × IsBack i k k'
  unfolding init_proc
  init_proc_no_page i k f =
      (give_back i k.kmem k, rw (kalloc-empty kernel_end k.kmem f), give_back-IsBack i k)

  -- The ways in which allocproc ends when the pages `xs` are free.
  abbrev pub Ends : List ℕ → Kernel → Type 0
  Ends [] k =
      NonePasses free_slot k.procs 0 nproc × (allocproc trapret forkret k ≡ (0, k))
      ⊎ (i : ℕ) × (k' : Kernel) × IsFirst free_slot k.procs 0 nproc i
        × (allocproc trapret forkret k ≡ (0, k'))
        × IsBack i k k'
  Ends (x ∷ xs) k =
      NonePasses free_slot k.procs 0 nproc × (allocproc trapret forkret k ≡ (0, k))
      ⊎ (i : ℕ) × (k' : Kernel) × IsFirst free_slot k.procs 0 nproc i
        × (allocproc trapret forkret k ≡ (proc_ptr i, k'))
        × IsNew i x xs k k'

  -- With no free slot allocproc returns 0 and changes nothing. With a slot but no free page it returns
  -- 0 and leaves the lowest free slot UNUSED, though with the next pid, and every other slot as it was.
  -- Otherwise it returns the lowest free slot, set up as a new
  -- process on the first free page, and leaves every other slot as it was.
  pub allocproc-Ends :
      (xs : List ℕ) (k : Kernel) → kernbase ≤ kernel_end → Free kernel_end k.kmem xs → Ends xs k
  unfolding allocproc
  allocproc-Ends xs k high f =
      by_case xs f (find_proc free_slot k.procs 0 nproc) refl
        (find_proc-Finds free_slot k.procs 0 nproc nproc (omega arith))
    where
      by_case :
          (ys : List ℕ)
          → Free kernel_end k.kmem ys
          → (o : Option ℕ) → find_proc free_slot k.procs 0 nproc ≡ o
          → Finds free_slot k.procs 0 nproc o
          → Ends ys k
      by_case [] g none e found = inl (found, rw (e, allocproc))
      by_case [] g (some i) e found =
          let (k', made, back) = init_proc_no_page i k g in
          inr (i, k', found, rw (e, allocproc) made, back)
      by_case (y ∷ ys) g none e found = inl (found, rw (e, allocproc))
      by_case (y ∷ ys) g (some i) e found =
          let (k', made, new) = init_proc-made i y ys k high g in
          inr (i, k', found, rw (e, allocproc) made, new)
