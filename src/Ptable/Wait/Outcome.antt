-- ===== src/Ptable/Wait/Outcome.antt =====
-- What wait does on each branch.
use osp.Prelude.{
  ℕ, zero, suc, ◌+◌, ◌<◌, ◌≡◌, ◌≢◌, refl, sym, Bool, true, false, not, ◌&&◌, ◌||◌, ◌⊎◌, inl, inr,
  true≢false, List, [], ◌∷◌, get_or, Option, none, some, ◌==◌, if◌then◌else◌, arith, update,
  update_self, update-ne, subst, Bool-cases, Option-cases, ==_iff, ne_of_==,
}
use native.Mathlib.Decide.{ℕ_discrete}
use osp.Kalloc.{Kmem, kfree}
use osp.Vm.Free.{freevm}
use osp.Mmap.{minus_one}
use osp.Proc.{Proc, unused, sleeping, nproc}
use osp.Ptable.{Procs, Kernel, proc_ptr, is_zombie, find_proc}
use osp.Ptable.Wakeup.{IsFirst, NonePasses, Finds, find_proc-Finds}
use osp.Ptable.Wait.{scan, cut_name, reaped, sleep_on, Waited, returns, sleeps, reap, wait}

abbrev pub is_child : ℕ → Proc → Bool
is_child curproc p = p.parent == curproc

abbrev pub is_dead_child : ℕ → Proc → Bool
is_dead_child curproc p = p.parent == curproc && is_zombie p.state

scan-found :
    (curproc : ℕ) (procs : Procs) (n i : ℕ) (havekids : Bool)
    → (scan curproc procs i n havekids).0 ≡ find_proc (is_dead_child curproc) procs i n
unfolding scan find_proc
scan-found curproc procs zero i havekids = refl
scan-found curproc procs (suc n) i havekids = elim (Bool-cases (is_dead_child curproc (procs i))) [
  | inl y ↦ rw y refl
  | inr m ↦ rw m (scan-found curproc procs n (i + 1) (havekids || is_child curproc (procs i)))
]

-- Where no child is a zombie, havekids says whether there is a child.
abbrev Kids : ℕ → Procs → ℕ → ℕ → Bool → Bool → Type 0
Kids curproc procs lo hi before true =
    (before ≡ true) ⊎ ((j : ℕ) × (j < hi) × (is_child curproc (procs j) ≡ true))
Kids curproc procs lo hi before false = (before ≡ false) × NonePasses (is_child curproc) procs lo hi

scan-Kids :
    (curproc : ℕ) (procs : Procs) (n i hi : ℕ) (havekids : Bool)
    → i + n ≡ hi
    → NonePasses (is_dead_child curproc) procs i hi
    → Kids curproc procs i hi havekids (scan curproc procs i n havekids).1
unfolding scan
scan-Kids curproc procs zero i hi true e d = inl refl
scan-Kids curproc procs zero i hi false e d = (refl, λ j a b. absurd (omega arith))
scan-Kids curproc procs (suc n) i hi havekids e d = rw (d i (omega arith) (omega arith)) (
    step (scan curproc procs (i + 1) n (havekids || is_child curproc (procs i))).1 (
      scan-Kids curproc procs n (i + 1) hi (havekids || is_child curproc (procs i)) (omega arith)
        (λ j a b. d j (omega arith) b)))
  where
    step :
        (r : Bool)
        → Kids curproc procs (i + 1) hi (havekids || is_child curproc (procs i)) r
        → Kids curproc procs i hi havekids r
    step true (inl h) = elim (Bool-cases havekids) [
      | inl y ↦ inl y
      | inr m ↦ inr (i, omega arith, rw m at h)
    ]
    step true (inr c) = inr c
    step false (h, f) = elim (Bool-cases havekids) [
      | inl y ↦ absurd (true≢false (rw y at h))
      | inr m ↦
          let here : is_child curproc (procs i) ≡ false = rw m at h in
          (
            m,
            λ j a b. elim (ℕ_discrete i j) [
              | yes q ↦ subst (λ x. is_child curproc (procs x) ≡ false) q here
              | no ne ↦ f j (omega arith) b
            ],
          )
    ]

-- The slot of a process that is gone.
pub record IsGone (new : Proc) : Type 0 where
  pub state : new.state ≡ unused
  pub pid : new.pid ≡ 0
  pub parent : new.parent ≡ 0
  pub stack : new.kstack ≡ 0
  pub killed : new.killed ≡ 0
  pub name : get_or new.name 0 0 ≡ 0

-- A process that has gone to sleep on `chan`.
pub record IsAsleep (chan : ℕ) (old new : Proc) : Type 0 where
  pub state : new.state ≡ sleeping
  pub waits : new.chan ≡ chan
  pub pid : new.pid ≡ old.pid
  pub parent : new.parent ≡ old.parent
  pub killed : new.killed ≡ old.killed

-- The child in slot `i` is gone, and its pid is the answer; every other slot is as before.
pub record Reaps (kernel_end c i : ℕ) (k : Kernel) (out : Waited × Kernel) : Type 0 where
  pub first : IsFirst (is_dead_child (proc_ptr c)) k.procs 0 nproc i
  pub answer : out.0 ≡ returns (k.procs i).pid
  pub slot : IsGone (out.1.procs i)
  pub kept : (j : ℕ) → i ≢ j → out.1.procs j ≡ k.procs j
  pub freed :
      (k1 : Kmem) × (kfree kernel_end (k.procs i).kstack k.kmem ≡ some k1)
      × (freevm kernel_end (k.procs i).pgdir k1 ≡ some out.1.kmem)

-- No child has exited: the process has none or is killed, or it sleeps on itself.
abbrev pub Waiting : ℕ → Kernel → Waited × Kernel → Type 0
Waiting c k (returns v, k') =
    (v ≡ minus_one)
    × (k' ≡ k)
    × (NonePasses (is_child (proc_ptr c)) k.procs 0 nproc ⊎ ((k.procs c).killed ≢ 0))
Waiting c k (sleeps, k') =
    ((j : ℕ) × (j < nproc) × (is_child (proc_ptr c) (k.procs j) ≡ true))
    × ((k.procs c).killed ≡ 0)
    × (k'.kmem ≡ k.kmem)
    × IsAsleep (proc_ptr c) (k.procs c) (k'.procs c)
    × ((j : ℕ) → c ≢ j → k'.procs j ≡ k.procs j)

-- The stack or the address space of the child in slot `i` cannot be freed.
abbrev pub IsStuck : ℕ → ℕ → Kernel → Type 0
IsStuck kernel_end i k =
    (kfree kernel_end (k.procs i).kstack k.kmem ≡ none)
    ⊎ ((k1 : Kmem) × (kfree kernel_end (k.procs i).kstack k.kmem ≡ some k1)
        × (freevm kernel_end (k.procs i).pgdir k1 ≡ none))

reaped-IsGone : (p : Proc) → IsGone (reaped p)
reaped-IsGone p = record {
  state = refl;
  pid = refl;
  parent = refl;
  stack = refl;
  killed = refl;
  name = nul p.name;
}
  where
    nul : (l : List ℕ) → get_or (cut_name l) 0 0 ≡ 0
    nul [] = refl
    nul (c ∷ l) = refl

module _ (kernel_end c : ℕ) where
  abbrev pub Waits : Kernel → Option (Waited × Kernel) → Type 0
  Waits k none =
      (i : ℕ) × IsFirst (is_dead_child (proc_ptr c)) k.procs 0 nproc i × IsStuck kernel_end i k
  Waits k (some out) =
      ((i : ℕ) × Reaps kernel_end c i k out)
      ⊎ (NonePasses (is_dead_child (proc_ptr c)) k.procs 0 nproc × Waiting c k out)

  reap-Waits :
      (i : ℕ) (k : Kernel)
      → IsFirst (is_dead_child (proc_ptr c)) k.procs 0 nproc i
      → Waits k (reap kernel_end i k)
  reap-Waits i k f = elim (Option-cases (kfree kernel_end (k.procs i).kstack k.kmem)) [
    | inl e ↦ rw e (i, f, inl e)
    | inr (k1, e) ↦ elim (Option-cases (freevm kernel_end (k.procs i).pgdir k1)) [
      | inl e' ↦ rw e (rw e' (i, f, inr (k1, e, e')))
      | inr (k2, e') ↦ rw e (
          rw e' (
            inl (
              i,
              record {
                first = f;
                answer = refl;
                slot =
                    subst IsGone (sym (update_self k.procs i (reaped (k.procs i))))
                      (reaped-IsGone (k.procs i));
                kept = λ j ne. update-ne k.procs i (reaped (k.procs i)) j ne;
                freed = (k1, e, e');
              },
            )))
    ]
  ]

  -- What wait does where no child is a zombie.
  abbrev stay : Bool → Kernel → Option (Waited × Kernel)
  stay havekids k =
      if not havekids || not ((k.procs c).killed == 0)
      then some (returns minus_one, k)
      else some (sleeps, record k { procs = update k.procs c (sleep_on (proc_ptr c) (k.procs c)) })

  stay-Waits :
      (havekids : Bool) (k : Kernel)
      → NonePasses (is_dead_child (proc_ptr c)) k.procs 0 nproc
      → Kids (proc_ptr c) k.procs 0 nproc false havekids
      → Waits k (stay havekids k)
  stay-Waits false k d (_, f) = inr (d, (refl, refl, inl f))
  stay-Waits true k d (inl e) = absurd (true≢false (sym e))
  stay-Waits true k d (inr child) = elim (Bool-cases ((k.procs c).killed == 0)) [
    | inl y ↦ rw y (
        inr (
          d,
          (
            child,
            (==_iff (k.procs c).killed 0).0 y,
            refl,
            subst (IsAsleep (proc_ptr c) (k.procs c))
                (sym (update_self k.procs c (sleep_on (proc_ptr c) (k.procs c))))
                (record { state = refl; waits = refl; pid = refl; parent = refl; killed = refl }),
            λ j ne. update-ne k.procs c (sleep_on (proc_ptr c) (k.procs c)) j ne,
          ),
        ))
    | inr n ↦ rw n (inr (d, (refl, refl, inr (ne_of_== (k.procs c).killed 0 n))))
  ]

  -- wait reaps the first child that is a zombie: it returns the child's pid, the slot is UNUSED without
  -- pid, parent and stack, and every other slot is as before; it panics only where kfree of the
  -- stack or freevm of its page directory panics. Where
  -- no child is a zombie it returns -1 and changes nothing if the process has no child or is killed,
  -- and otherwise the process sleeps on itself.
  pub wait-Waits : (k : Kernel) → Waits k (wait kernel_end c k)
  unfolding wait
  wait-Waits k =
      subst (λ o. Waits k (answer o)) (sym (scan-found (proc_ptr c) k.procs nproc 0 false))
        (by_case (find_proc (is_dead_child (proc_ptr c)) k.procs 0 nproc)
          (find_proc-Finds (is_dead_child (proc_ptr c)) k.procs 0 nproc nproc (omega arith)))
    where
      answer : Option ℕ → Option (Waited × Kernel)
      answer o = elim o [
        | some i ↦ reap kernel_end i k
        | none ↦ stay (scan (proc_ptr c) k.procs 0 nproc false).1 k
      ]

      by_case :
          (o : Option ℕ) → Finds (is_dead_child (proc_ptr c)) k.procs 0 nproc o → Waits k (answer o)
      by_case (some i) f = reap-Waits i k f
      by_case none d =
          stay-Waits (scan (proc_ptr c) k.procs 0 nproc false).1 k d
            (scan-Kids (proc_ptr c) k.procs nproc 0 nproc false (omega arith) d)
