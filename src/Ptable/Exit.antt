-- ===== src/Ptable/Exit.antt =====
-- The table after `exit`: the children go to init, and who waits for the process is woken.
use osp.Prelude.{
  ℕ, zero, suc, ◌+◌, ◌<◌, ◌≡◌, ◌≢◌, refl, inl, inr, Bool, true, false, ◌&&◌, arith, ltb, leb, ◌==◌,
  if◌then◌else◌, update, update_self, update-ne, Bool-cases, ==_iff, ◌∙◌, sym, ap,
}
use native.Mathlib.Decide.{ℕ_discrete}
use osp.Proc.{runnable, zombie, Proc, nproc}
use osp.Ptable.{
  Procs, is_zombie, proc_ptr, waits_on, make_runnable, wakeup1, adopt, reparent, blank_mapping,
  exit_table,
}
use osp.Ptable.Wakeup.{each_proc-at, wakeup1-at}

if_ap :
    {A B : Type 0} (g : A → B) (b : Bool) (x y : A)
    → g (if b then x else y) ≡ (if b then g x else g y)
if_ap g true x y = refl
if_ap g false x y = refl

if_same : {A : Type 0} (b : Bool) (x : A) → (if b then x else x) ≡ x
if_same true x = refl
if_same false x = refl

-- A wakeup changes no parent.
wakeup1-parent :
    (chan : ℕ) (procs : Procs) (j : ℕ) → (wakeup1 chan procs j).parent ≡ (procs j).parent
unfolding wakeup1
wakeup1-parent chan procs j =
    ap (λ p. p.parent) (each_proc-at (waits_on chan) make_runnable nproc 0 j procs)
    ∙ if_ap (λ p. p.parent) _ (make_runnable (procs j)) (procs j)
    ∙ if_same _ (procs j).parent

module _ (curproc initproc : ℕ) where
  abbrev moved : Procs → ℕ → Procs
  moved procs i = update procs i (adopt initproc (procs i))

  abbrev woken : Procs → ℕ → Procs
  woken procs i =
      if is_zombie (procs i).state then wakeup1 initproc (moved procs i) else moved procs i

  -- One round of the loop.
  abbrev round : Procs → ℕ → Procs
  round procs i = if (procs i).parent == curproc then woken procs i else procs

  woken-parent : (procs : Procs) (i j : ℕ) → (woken procs i j).parent ≡ (moved procs i j).parent
  woken-parent procs i j = elim (Bool-cases (is_zombie (procs i).state)) [
    | inl z ↦ rw z (wakeup1-parent initproc (moved procs i) j)
    | inr z ↦ rw z
  ]

  round-parent :
      (procs : Procs) (i j : ℕ)
      → (round procs i j).parent
        ≡ (if i == j && (procs j).parent == curproc then initproc else (procs j).parent)
  round-parent procs i j = elim (Bool-cases ((procs i).parent == curproc)) [
    | inl c ↦ elim (ℕ_discrete i j) [
      | yes e ↦
          let hit : (i == j && (procs j).parent == curproc) ≡ true = rw (← e) (ground arith) in
          rw (c, hit)
            (woken-parent procs i j
              ∙ ap (λ l. (moved procs i l).parent) (sym e)
              ∙ ap (λ p. p.parent) (update_self procs i (adopt initproc (procs i))))
      | no ne ↦
          let miss : (i == j) ≡ false = ground arith in
          rw (c, miss)
            (woken-parent procs i j
              ∙ ap (λ p. p.parent) (update-ne procs i (adopt initproc (procs i)) j ne))
    ]
    | inr c ↦
        let miss : (i == j && (procs j).parent == curproc) ≡ false = elim (ℕ_discrete i j) [
          | yes e ↦ rw (← e) (ground arith)
          | no ne ↦ ground arith
        ] in
        rw (c, miss)
  ]

  reparent-parent :
      (n : ℕ) (procs : Procs) (i j : ℕ)
      → (reparent curproc initproc procs i n j).parent ≡ (
          if leb i j && ltb j (i + n) && (procs j).parent == curproc
          then initproc
          else (procs j).parent)
  unfolding reparent
  reparent-parent zero procs i j =
      let out : (leb i j && ltb j (i + 0)) ≡ false = ground arith in rw out
  reparent-parent (suc n) procs i j =
      reparent-parent n (round procs i) (i + 1) j ∙ elim (ℕ_discrete i j) [
        | yes e ↦
            let past : leb (i + 1) j ≡ false = ground arith in
            let here : (i == j) ≡ true = ground arith in
            let within : (leb i j && ltb j (i + suc n)) ≡ true = ground arith in
            rw (past, within) (rw here at (round-parent procs i j))
        | no ne ↦
            let else_ : (i == j) ≡ false = ground arith in
            let same : (leb (i + 1) j && ltb j (i + 1 + n)) ≡ (leb i j && ltb j (i + suc n)) =
              ground arith in
            let kept : (round procs i j).parent ≡ (procs j).parent =
              rw else_ at (round-parent procs i j) in
            rw (same, kept)
      ]

wakeup1-runnable :
    (chan : ℕ) (procs : Procs) (j : ℕ)
    → (procs j).state ≡ runnable
    → (wakeup1 chan procs j).state ≡ runnable
unfolding wakeup1
wakeup1-runnable chan procs j r =
    ap (λ p. p.state) (each_proc-at (waits_on chan) make_runnable nproc 0 j procs)
    ∙ if_ap (λ p. p.state) _ (make_runnable (procs j)) (procs j)
    ∙ rw r (if_same _ runnable)

wakeup1-wakes :
    (chan : ℕ) (procs : Procs) (j : ℕ)
    → j < nproc
    → waits_on chan (procs j) ≡ true
    → (wakeup1 chan procs j).state ≡ runnable
wakeup1-wakes chan procs j lt w = ap (λ p. p.state) (wakeup1-at chan procs j lt) ∙ rw w

module _ (curproc initproc : ℕ) where
  moved-runnable :
      (procs : Procs) (i j : ℕ)
      → (procs j).state ≡ runnable
      → (moved curproc initproc procs i j).state ≡ runnable
  moved-runnable procs i j r = elim (ℕ_discrete i j) [
    | yes e ↦
        ap (λ l. (moved curproc initproc procs i l).state) (sym e)
        ∙ ap (λ p. p.state) (update_self procs i (adopt initproc (procs i)))
        ∙ ap (λ l. (procs l).state) e
        ∙ r
    | no ne ↦ ap (λ p. p.state) (update-ne procs i (adopt initproc (procs i)) j ne) ∙ r
  ]

  reparent-runnable :
      (n : ℕ) (procs : Procs) (i j : ℕ)
      → (procs j).state ≡ runnable
      → (reparent curproc initproc procs i n j).state ≡ runnable
  unfolding reparent
  reparent-runnable zero procs i j r = r
  reparent-runnable (suc n) procs i j r =
      reparent-runnable n (round curproc initproc procs i) (i + 1) j
        (elim (Bool-cases ((procs i).parent == curproc)) [
          | inl c ↦ elim (Bool-cases (is_zombie (procs i).state)) [
            | inl z ↦
                rw (c, z)
                  (wakeup1-runnable initproc (moved curproc initproc procs i) j
                    (moved-runnable procs i j r))
            | inr z ↦ rw (c, z) (moved-runnable procs i j r)
          ]
          | inr c ↦ rw c r
        ])

-- What `exit` leaves of the table: the process is a ZOMBIE without mappings; every one has the
-- parent that it had, or init if that was the process; and one that slept on the process's parent, as
-- in `wait`, is RUNNABLE.
pub record Exited (i initproc : ℕ) (procs procs' : Procs) : Type 0 where
  pub dead : (procs' i).state ≡ zombie
  pub unmapped : (procs' i).num_mappings ≡ 0
  pub parents :
      (j : ℕ)
      → j < nproc
      → (procs' j).parent ≡ (if (procs j).parent == proc_ptr i then initproc else (procs j).parent)
  pub wakes :
      (j : ℕ)
      → j ≢ i
      → j < nproc
      → waits_on (procs i).parent (procs j) ≡ true
      → (procs' j).state ≡ runnable

pub exit_table-Exited :
    (i initproc : ℕ) (procs : Procs) → Exited i initproc procs (exit_table i initproc procs)
unfolding exit_table
exit_table-Exited i initproc procs = record {
  dead = ap (λ p. p.state) (update_self table i ended);
  unmapped = ap (λ p. p.num_mappings) (update_self table i ended);
  parents = λ j lt.
      let within : (leb 0 j && ltb j (0 + nproc)) ≡ true = ground arith in
      let kept = wakeup1-parent (procs i).parent procs j in
      ended-parent j ∙ reparent-parent (proc_ptr i) initproc nproc first 0 j ∙ rw (within, kept);
  wakes = λ j ne lt w.
      ap (λ p. p.state) (update-ne table i ended j (λ e. ne (sym e)))
      ∙ reparent-runnable (proc_ptr i) initproc nproc first 0 j
          (wakeup1-wakes (procs i).parent procs j lt w);
}
  where
    first : Procs
    first = wakeup1 (procs i).parent procs

    table : Procs
    table = reparent (proc_ptr i) initproc first 0 nproc

    ended : Proc
    ended = record (table i) {
      memory_mappings = λ _. blank_mapping;
      num_mappings = 0;
      state = zombie;
    }

    ended-parent : (j : ℕ) → (update table i ended j).parent ≡ (table j).parent
    ended-parent j = elim (Bool-cases (i == j)) [
      | inl y ↦ rw y (ap (λ l. (table l).parent) ((==_iff i j).0 y))
      | inr n ↦ rw n refl
    ]
