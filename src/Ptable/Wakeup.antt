-- ===== src/Ptable/Wakeup.antt =====
-- The loops over the process table, and wakeup1 as a change of each slot by itself.
use osp.Prelude.{
  ℕ, zero, suc, ◌+◌, ◌≤◌, ◌<◌, ◌≡◌, inl, inr, Bool, true, false, ◌&&◌, Option, none, some, arith,
  ltb, leb, if◌then◌else◌, update, if_update_self, if_update-ne, Bool-cases, ◌∙◌, sym, true≢false,
  subst,
}
use native.Mathlib.Decide.{ℕ_discrete, dec_lt}
use osp.Proc.{Proc, nproc}
use osp.Ptable.{Procs, find_proc, each_proc, waits_on, make_runnable, wakeup1}

-- The loop changes each slot of its range that passes the test, and no other.
pub each_proc-at :
    (test : Proc → Bool) (change : Proc → Proc) (n i j : ℕ) (procs : Procs)
    → each_proc test change procs i n j
      ≡ (if leb i j && ltb j (i + n) && test (procs j) then change (procs j) else procs j)
unfolding each_proc
each_proc-at test change zero i j procs =
    let out : (leb i j && ltb j (i + 0)) ≡ false = ground arith in rw out
each_proc-at test change (suc n) i j procs =
    each_proc-at test change n (i + 1) j next ∙ elim (ℕ_discrete i j) [
      | yes e ↦
          let past : leb (i + 1) j ≡ false = ground arith in
          let within : (leb i j && ltb j (i + suc n)) ≡ true = ground arith in
          rw (past, within, ← e) (if_update_self procs i (change (procs i)) (test (procs i)))
      | no ne ↦
          let same : (leb (i + 1) j && ltb j (i + 1 + n)) ≡ (leb i j && ltb j (i + suc n)) =
            ground arith in
          rw (if_update-ne procs i (change (procs i)) (test (procs i)) j ne, same)
    ]
  where
    next : Procs
    next = if test (procs i) then update procs i (change (procs i)) else procs

-- wakeup1 makes exactly the processes runnable that sleep on the channel, and changes nothing else.
pub wakeup1-at :
    (chan : ℕ) (procs : Procs) (j : ℕ)
    → j < nproc
    → wakeup1 chan procs j ≡ (if waits_on chan (procs j) then make_runnable (procs j) else procs j)
unfolding wakeup1
wakeup1-at chan procs j lt =
    let within : (leb 0 j && ltb j (0 + nproc)) ≡ true = ground arith in
    each_proc-at (waits_on chan) make_runnable nproc 0 j procs ∙ rw within

-- The lowest slot from `lo` to below `hi` that passes the test.
pub record IsFirst (test : Proc → Bool) (procs : Procs) (lo hi i : ℕ) : Type 0 where
  pub above : lo ≤ i
  pub below : i < hi
  pub passes : test (procs i) ≡ true
  pub first : (j : ℕ) → lo ≤ j → j < i → test (procs j) ≡ false

abbrev pub NonePasses : (Proc → Bool) → Procs → ℕ → ℕ → Type 0
NonePasses test procs lo hi = (j : ℕ) → lo ≤ j → j < hi → test (procs j) ≡ false

-- What the search has found.
abbrev pub Finds : (Proc → Bool) → Procs → ℕ → ℕ → Option ℕ → Type 0
Finds test procs lo hi none = NonePasses test procs lo hi
Finds test procs lo hi (some i) = IsFirst test procs lo hi i

pub find_proc-Finds :
    (test : Proc → Bool) (procs : Procs) (lo n hi : ℕ)
    → lo + n ≡ hi
    → Finds test procs lo hi (find_proc test procs lo n)
unfolding find_proc
find_proc-Finds test procs lo zero hi e = λ j a b. absurd (omega arith)
find_proc-Finds test procs lo (suc n) hi e = elim (Bool-cases (test (procs lo))) [
  | inl hit ↦ rw hit (record {
    above = omega arith;
    below = omega arith;
    passes = hit;
    first = λ j a b. absurd (omega arith);
  })
  | inr miss ↦ rw miss (
      skip (find_proc test procs (lo + 1) n) miss
        (find_proc-Finds test procs (lo + 1) n hi (omega arith)))
]
  where
    lower :
        test (procs lo) ≡ false
        → (k : ℕ) → ((j : ℕ) → lo + 1 ≤ j → j < k → test (procs j) ≡ false)
        → (j : ℕ) → lo ≤ j
        → j < k
        → test (procs j) ≡ false
    lower miss k h j a b = elim (ℕ_discrete lo j) [
      | yes q ↦ subst (λ x. test (procs x) ≡ false) q miss
      | no ne ↦ h j (omega arith) b
    ]

    skip :
        (o : Option ℕ)
        → test (procs lo) ≡ false
        → Finds test procs (lo + 1) hi o
        → Finds test procs lo hi o
    skip none miss f = lower miss hi f
    skip (some i) miss f = record {
      above = omega (arith, f.above);
      below = f.below;
      passes = f.passes;
      first = lower miss i f.first;
    }

pub first_unique :
    (test : Proc → Bool) (procs : Procs) (lo hi i j : ℕ)
    → IsFirst test procs lo hi i
    → IsFirst test procs lo hi j
    → i ≡ j
first_unique test procs lo hi i j f g = elim (dec_lt i j) [
  | yes lt ↦ absurd (true≢false (sym f.passes ∙ g.first i f.above lt))
  | no ge ↦ elim (dec_lt j i) [
    | yes lt ↦ absurd (true≢false (sym g.passes ∙ f.first j g.above lt))
    | no le ↦ omega arith
  ]
]
