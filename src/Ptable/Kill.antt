-- ===== src/Ptable/Kill.antt =====
-- What `kill` does, also to a slot that no process uses.
use osp.Prelude.{
  ℕ, ◌<◌, ◌≡◌, ◌≢◌, refl, ◌⊎◌, inl, inr, Bool, Option, none, some, arith, ◌==◌, if◌then◌else◌,
  update, update_self, update-ne, ne_of_==, ==_iff, ◌∙◌, ap,
}
use osp.Mmap.{minus_one}
use osp.Proc.{Proc, runnable, nproc}
use osp.Ptable.{Procs, find_proc, is_sleeping, mark_killed, kill}
use osp.Ptable.Wakeup.{Finds, find_proc-Finds}

-- No slot holds the pid: -1, and nothing is changed.
abbrev pub Misses : ℕ → Procs → Type 0
Misses pid procs =
    ((j : ℕ) → j < nproc → (procs j).pid ≢ pid) × (kill pid procs ≡ (minus_one, procs))

-- The lowest slot that holds the pid is marked, and made runnable if it sleeps; the others stay.
abbrev pub Hits : ℕ → Procs → Type 0
Hits pid procs =
    (i : ℕ) × (procs' : Procs) × (kill pid procs ≡ (0, procs'))
    × (i < nproc)
    × ((procs i).pid ≡ pid)
    × ((j : ℕ) → j < i → (procs j).pid ≢ pid)
    × ((procs' i).killed ≡ 1)
    × ((procs' i).state ≡ (if is_sleeping (procs i).state then runnable else (procs i).state))
    × ((procs' i).pid ≡ pid)
    × ((j : ℕ) → i ≢ j → procs' j ≡ procs j)

-- kill either finds no process and changes nothing, or marks the one process in the lowest slot with
-- that pid, waking it if it sleeps.
pub kill_lem : (pid : ℕ) (procs : Procs) → Misses pid procs ⊎ Hits pid procs
unfolding kill
kill_lem pid procs =
    by_case (find_proc holds procs 0 nproc) refl
      (find_proc-Finds holds procs 0 nproc nproc (omega arith))
  where
    holds : Proc → Bool
    holds p = p.pid == pid

    by_case :
        (o : Option ℕ)
        → find_proc holds procs 0 nproc ≡ o
        → Finds holds procs 0 nproc o
        → Misses pid procs ⊎ Hits pid procs
    by_case none e f =
        inl ((λ j lt. ne_of_== (procs j).pid pid (f j (omega arith) lt)), rw (e, kill))
    by_case (some i) e f =
        let here = update_self procs i (mark_killed (procs i)) in
        inr (
          i,
          update procs i (mark_killed (procs i)),
          rw (e, kill),
          f.below,
          (==_iff (procs i).pid pid).0 f.passes,
          (λ j lt. ne_of_== (procs j).pid pid (f.first j (omega arith) lt)),
          ap (λ p. p.killed) here,
          ap (λ p. p.state) here,
          ap (λ p. p.pid) here ∙ (==_iff (procs i).pid pid).0 f.passes,
          λ j ne. update-ne procs i (mark_killed (procs i)) j ne,
        )
