-- ===== src/Ptable/Pids.antt =====
-- Process ids: no two processes share one; and what a kill of pid 0 leaves behind.
use osp.Prelude.{
  ℕ, ◌+◌, ◌^◌, ◌≤◌, ◌<◌, ◌≡◌, ◌≢◌, refl, ◌⊎◌, inl, inr, true, false, List, [], ◌∷◌, arith,
  if◌then◌else◌, ◌∙◌, ap, sym, true≢false,
}
use native.Mathlib.Decide.{ℕ_discrete, dec_lt}
use osp.Mmu.{kernbase}
use osp.Kalloc.FreeList.{Free}
use osp.Proc.{Procstate, unused, embryo, sleeping, runnable, running, zombie, nproc}
use osp.Ptable.{Procs, Kernel, proc_ptr, is_unused, is_sleeping, allocproc, kill}
use osp.Ptable.Wakeup.{IsFirst, first_unique}
use osp.Ptable.Alloc.{free_slot, IsNew, IsBack, Ends, allocproc-Ends}
use osp.Ptable.Kill.{Misses, Hits, kill_lem}

abbrev pub InUse : Procs → ℕ → Type 0
InUse procs i = (i < nproc) × (is_unused (procs i).state ≡ false)

-- Every process has a pid below the next one, and no two have the same.
pub record IsNumbered (k : Kernel) : Type 0 where
  pub old : (i : ℕ) → InUse k.procs i → (k.procs i).pid < k.nextpid
  pub distinct :
      (i j : ℕ) → InUse k.procs i → InUse k.procs j → (k.procs i).pid ≡ (k.procs j).pid → i ≡ j

module _ (trapret forkret kernel_end : ℕ) where
  -- A new process with the next pid in one slot, the others unchanged.
  IsNew-IsNumbered :
      (i x : ℕ) (xs : List ℕ) (k k' : Kernel)
      → k.nextpid + 1 < 2 ^ 32
      → IsNew trapret forkret kernel_end i x xs k k'
      → IsNumbered k
      → IsNumbered k'
  IsNew-IsNumbered i x xs k k' small new v = record {
    old = λ j u. elim (ℕ_discrete i j) [
      | yes e ↦ rw (← e) (rw (new.pid, new.next) (omega arith))
      | no ne ↦ below j ne u
    ];
    distinct = λ j l uj ul q. elim (ℕ_discrete i j) [
      | yes e ↦ elim (ℕ_discrete i l) [
        | yes e' ↦ sym e ∙ e'
        | no ne' ↦ absurd (clash l ne' ul (sym (rw (← e) at q)))
      ]
      | no ne ↦ elim (ℕ_discrete i l) [
        | yes e' ↦ absurd (clash j ne uj (rw (← e') at q))
        | no ne' ↦
            v.distinct j l (kept j ne uj) (kept l ne' ul)
              (sym (ap (λ p. p.pid) (new.others j ne)) ∙ q ∙ ap (λ p. p.pid) (new.others l ne'))
      ]
    ];
  }
    where
      kept : (j : ℕ) → i ≢ j → InUse k'.procs j → InUse k.procs j
      kept j ne u = (u.0, sym (ap (λ p. is_unused p.state) (new.others j ne)) ∙ u.1)

      below : (j : ℕ) → i ≢ j → InUse k'.procs j → (k'.procs j).pid < k'.nextpid
      below j ne u = rw (new.others j ne, new.next) (omega (arith, v.old j (kept j ne u)))

      clash : (j : ℕ) → i ≢ j → InUse k'.procs j → (k'.procs j).pid ≢ (k'.procs i).pid
      clash j ne u q =
          omega
            (arith, v.old j (kept j ne u), sym (ap (λ p. p.pid) (new.others j ne)) ∙ q ∙ new.pid)

  -- The slot that is given back is not in use.
  IsBack-IsNumbered :
      (i : ℕ) (k k' : Kernel)
      → k.nextpid + 1 < 2 ^ 32
      → IsBack trapret forkret kernel_end i k k'
      → IsNumbered k
      → IsNumbered k'
  IsBack-IsNumbered i k k' small back v = record {
    old = λ j u. rw (same j u, back.next) (omega (arith, v.old j (kept j u)));
    distinct = λ j l uj ul q.
        v.distinct j l (kept j uj) (kept l ul)
          (sym (ap (λ p. p.pid) (same j uj)) ∙ q ∙ ap (λ p. p.pid) (same l ul));
  }
    where
      elsewhere : (j : ℕ) → InUse k'.procs j → i ≢ j
      elsewhere j u e = true≢false (sym (ap is_unused back.state) ∙ (rw (← e) at u.1))

      same : (j : ℕ) → InUse k'.procs j → k'.procs j ≡ k.procs j
      same j u = back.others j (elsewhere j u)

      kept : (j : ℕ) → InUse k'.procs j → InUse k.procs j
      kept j u = (u.0, sym (ap (λ p. is_unused p.state) (same j u)) ∙ u.1)

-- allocproc keeps the pids of all processes below `nextpid` and different, until `nextpid` wraps.
pub allocproc-IsNumbered :
    (trapret forkret kernel_end : ℕ) (xs : List ℕ) (k : Kernel)
    → kernbase ≤ kernel_end
    → k.nextpid + 1 < 2 ^ 32
    → Free kernel_end k.kmem xs
    → IsNumbered k
    → IsNumbered (allocproc trapret forkret k).1
allocproc-IsNumbered trapret forkret kernel_end xs k high small f v =
    by_case xs (allocproc-Ends trapret forkret kernel_end xs k high f)
  where
    by_case :
        (ys : List ℕ)
        → Ends trapret forkret kernel_end ys k
        → IsNumbered (allocproc trapret forkret k).1
    by_case [] (inl (_, e)) = rw e v
    by_case [] (inr (i, k', _, e, back)) =
        rw e (IsBack-IsNumbered trapret forkret kernel_end i k k' small back v)
    by_case (y ∷ ys) (inl (_, e)) = rw e v
    by_case (y ∷ ys) (inr (i, k', _, e, new)) =
        rw e (IsNew-IsNumbered trapret forkret kernel_end i y ys k k' small new v)

unused_state :
    (s : Procstate) → is_unused s ≡ true → is_unused (if is_sleeping s then runnable else s) ≡ true
unused_state unused h = refl
unused_state embryo h = cc
unused_state sleeping h = cc
unused_state runnable h = cc
unused_state running h = cc
unused_state zombie h = cc

-- The lowest free slot is still that after the kill.
after_kill-IsFirst :
    (procs procs' : Procs) (i : ℕ)
    → IsFirst free_slot procs 0 nproc i
    → (procs' i).state ≡ (if is_sleeping (procs i).state then runnable else (procs i).state)
    → ((j : ℕ) → i ≢ j → procs' j ≡ procs j)
    → IsFirst free_slot procs' 0 nproc i
after_kill-IsFirst procs procs' i first state others = record {
  above = first.above;
  below = first.below;
  passes = rw state (unused_state (procs i).state first.passes);
  first = λ j a b. rw (others j (λ e. omega arith)) (first.first j a b);
}

-- The kernel after `kill(0)`.
abbrev pub after_kill : Kernel → Kernel
after_kill k = record k { procs = (kill 0 k.procs).1 }

-- Where the lowest slot with pid 0 is also the lowest that no process uses, `kill(0)` reports success
-- and marks that slot, and the next process that allocproc makes starts its life killed.
pub kill_unused :
    (trapret forkret kernel_end : ℕ) (x : ℕ) (xs : List ℕ) (i : ℕ) (k : Kernel)
    → kernbase ≤ kernel_end
    → Free kernel_end k.kmem (x ∷ xs)
    → IsFirst free_slot k.procs 0 nproc i
    → (k.procs i).pid ≡ 0
    → ((j : ℕ) → j < i → (k.procs j).pid ≢ 0)
    → (k' : Kernel) × ((kill 0 k.procs).0 ≡ 0)
      × (allocproc trapret forkret (after_kill k) ≡ (proc_ptr i, k'))
      × ((k'.procs i).killed ≡ 1)
kill_unused trapret forkret kernel_end x xs i k high f first zero_pid lower =
    by_kill (kill_lem 0 k.procs)
  where
    Goal : Type 0
    Goal =
        (k' : Kernel) × ((kill 0 k.procs).0 ≡ 0)
        × (allocproc trapret forkret (after_kill k) ≡ (proc_ptr i, k'))
        × ((k'.procs i).killed ≡ 1)

    by_alloc :
        (kill 0 k.procs).0 ≡ 0
        → IsFirst free_slot (kill 0 k.procs).1 0 nproc i
        → ((kill 0 k.procs).1 i).killed ≡ 1
        → Ends trapret forkret kernel_end (x ∷ xs) (after_kill k)
        → Goal
    by_alloc done there marked (inl (none_free, _)) =
        absurd (true≢false (sym there.passes ∙ none_free i there.above there.below))
    by_alloc done there marked (inr (i', k', first', e, new)) =
        let same = first_unique free_slot (kill 0 k.procs).1 0 nproc i i' there first' in
        (k', done, rw same e, rw same new.killed ∙ (rw same at marked))

    lowest : (i' : ℕ) → (k.procs i').pid ≡ 0 → ((j : ℕ) → j < i' → (k.procs j).pid ≢ 0) → i' ≡ i
    lowest i' pid before = elim (dec_lt i' i) [
      | yes lt ↦ absurd (lower i' lt pid)
      | no ge ↦ elim (dec_lt i i') [ yes lt ↦ absurd (before i lt zero_pid) | no le ↦ omega arith ]
    ]

    by_kill : Misses 0 k.procs ⊎ Hits 0 k.procs → Goal
    by_kill (inl (no_pid, _)) = absurd (no_pid i first.below zero_pid)
    by_kill (inr (i', procs', e, lt, pid, before, marked, state, _, others)) =
        let same : i' ≡ i = lowest i' pid before in
        let first' =
          after_kill-IsFirst k.procs procs' i first (rw same at state) (rw same at others) in
        by_alloc (ap (λ r. r.0) e) (rw e first') (rw e (rw same at marked))
          (allocproc-Ends trapret forkret kernel_end (x ∷ xs) (after_kill k) high f)
