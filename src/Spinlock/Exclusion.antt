-- ===== src/Spinlock/Exclusion.antt =====
-- The steps of the processors: the lock keeps all but one out.
use osp.Prelude.{
  ℕ, suc, ◌≡◌, ◌≢◌, refl, inl, inr, Bool, true, false, not, ◌&&◌, some, List, [], ◌∷◌, arith, ◌==◌,
  update, update_self, update-ne, Bool-cases, ◌>>=◌, ◌∙◌, sym, ap, subst,
}
use osp.Spinlock.{
  Pc, outside, spinning, taken, inside, leaving, Cpu, System, pushcli, popcli, holding,
  begin_acquire, try_lock, end_acquire, begin_release, end_release, step_from, run,
}
use osp.Spinlock.State.{
  has_lock, is_inside, IsMasked, AllOut, OnlyHas, Excludes, IsOwned, Safe, each, others_out,
  Excludes-same, IsOwned-same, IsOwned-one,
}

-- holding leaves a processor with interrupts off as it was.
popcli-pushcli : (c : Cpu) → c.ncli ≡ 1 → c.interrupts ≡ false → popcli (pushcli c) ≡ some c
popcli-pushcli c n f = rw n (ap (λ b. some (record c { ncli = 1; interrupts = b })) (sym f))

holding-masked :
    (i : ℕ) (c : Cpu) (s : System)
    → c.ncli ≡ 1
    → c.interrupts ≡ false
    → holding i c s ≡ some (not (s.locked == 0) && s.owner == suc i, c)
holding-masked i c s n f =
    ap (λ o. o >>= λ c'. some (not (s.locked == 0) && s.owner == suc i, c')) (popcli-pushcli c n f)

all_out : (cpus : ℕ → Cpu) → Excludes 0 cpus → AllOut cpus
all_out cpus (inl (z, out)) = out
all_out cpus (inr (o, h, k)) = absurd (omega arith)

-- The lock is taken from no one.
OnlyHas-taken :
    (cpus : ℕ → Cpu) (i : ℕ) (c : Cpu)
    → has_lock c.pc ≡ true
    → AllOut cpus
    → OnlyHas (update cpus i c) i
OnlyHas-taken cpus i c h out = (
  ap (λ d. has_lock d.pc) (update_self cpus i c) ∙ h,
  λ j ne. ap (λ d. has_lock d.pc) (update-ne cpus i c j (λ e. ne (sym e))) ∙ out j,
)

-- A lock that is taken stays taken.
still_taken : (locked : ℕ) (cpus : ℕ → Cpu) → locked ≢ 0 → Excludes locked cpus → Excludes 1 cpus
still_taken locked cpus ne (inl (z, out)) = absurd (ne z)
still_taken locked cpus ne (inr (o, h, k)) = inr (refl, h, k)

module _ (on : ℕ → Bool) (i : ℕ) (s : System) (v : Safe on s) where
  IsMasked-at : (p : Pc) → (s.cpus i).pc ≡ p → IsMasked (on i) p (s.cpus i)
  IsMasked-at p e = subst (λ q. IsMasked (on i) q (s.cpus i)) e (v.masked i)

  IsMasked-each :
      (c : Cpu)
      → IsMasked (on i) c.pc c
      → (j : ℕ) → IsMasked (on j) (update s.cpus i c j).pc (update s.cpus i c j)
  IsMasked-each c this = each (λ j d. IsMasked (on j) d.pc d) s.cpus i c (λ j ne. v.masked j) this

  begin_acquire-Safe :
      (s.cpus i).pc ≡ outside → (s' : System) × (begin_acquire i s ≡ some s') × Safe on s'
  unfolding begin_acquire
  begin_acquire-Safe e =
      let (n, f) = IsMasked-at outside e in
      let free : (s.owner == suc i) ≡ false = v.owned i ∙ ap is_inside e in
      let c = pushcli (s.cpus i) in
      let one : c.ncli ≡ 1 = rw n refl in
      let was : c.intena ≡ on i = rw n f in
      let no_one : (not (s.locked == 0) && s.owner == suc i) ≡ false = ground arith in
      let d = record c { pc = spinning } in
      (
        record s { cpus = update s.cpus i d },
        rw (holding-masked i c s one refl, no_one) refl,
        record {
          masked = IsMasked-each d (one, was, refl);
          excludes = Excludes-same s.locked s.cpus i d (sym (ap has_lock e)) v.excludes;
          owned = IsOwned-same s.owner s.cpus i d (sym (ap is_inside e)) v.owned;
        },
      )

  try_lock-Safe : (s.cpus i).pc ≡ spinning → Safe on (try_lock i s)
  unfolding try_lock
  try_lock-Safe e =
      let owned_by : (p : Pc)
          → is_inside p ≡ false
          → IsOwned s.owner (update s.cpus i (record (s.cpus i) { pc = p })) =
        λ p q.
          IsOwned-same s.owner s.cpus i (record (s.cpus i) { pc = p }) (q ∙ sym (ap is_inside e))
            v.owned in
      elim (Bool-cases (s.locked == 0)) [
        | inl y ↦
            let free : s.locked ≡ 0 = ground arith in
            let c = record (s.cpus i) { pc = taken } in
            rw y record {
              masked = IsMasked-each c (IsMasked-at spinning e);
              excludes = inr (
                refl,
                i,
                OnlyHas-taken s.cpus i c refl
                    (all_out s.cpus (subst (λ l. Excludes l s.cpus) free v.excludes)),
              );
              owned = owned_by taken refl;
            }
        | inr n ↦
            let busy : s.locked ≢ 0 = ground arith in
            let c = record (s.cpus i) { pc = spinning } in
            rw n record {
              masked = IsMasked-each c (IsMasked-at spinning e);
              excludes =
                  Excludes-same 1 s.cpus i c (sym (ap has_lock e))
                    (still_taken s.locked s.cpus busy v.excludes);
              owned = owned_by spinning refl;
            }
      ]

  end_acquire-Safe : (s.cpus i).pc ≡ taken → Safe on (end_acquire i s)
  unfolding end_acquire
  end_acquire-Safe e =
      let (one, out) = others_out s.locked s.cpus i v.excludes (ap has_lock e) in
      let c = record (s.cpus i) { pc = inside } in
      record {
        masked = IsMasked-each c (IsMasked-at taken e);
        excludes = Excludes-same s.locked s.cpus i c (sym (ap has_lock e)) v.excludes;
        owned = IsOwned-one (suc i) s.cpus i c out (ground arith) (λ j ne. ground arith);
      }

  begin_release-Safe :
      (s.cpus i).pc ≡ inside → (s' : System) × (begin_release i s ≡ some s') × Safe on s'
  unfolding begin_release
  begin_release-Safe e =
      let (one, out) = others_out s.locked s.cpus i v.excludes (ap has_lock e) in
      let (n, m, f) = IsMasked-at inside e in
      let c = record (s.cpus i) { pc = leaving } in
      let mine : (not (s.locked == 0) && s.owner == suc i) ≡ true =
        rw (one, v.owned i) (ap is_inside e) in
      (
        record s { owner = 0; cpus = update s.cpus i c },
        rw (holding-masked i (s.cpus i) s n f, mine) refl,
        record {
          masked = IsMasked-each c (n, m, f);
          excludes = Excludes-same s.locked s.cpus i c (sym (ap has_lock e)) v.excludes;
          owned = IsOwned-one 0 s.cpus i c out (ground arith) (λ j ne. ground arith);
        },
      )

  end_release-Safe :
      (s.cpus i).pc ≡ leaving → (s' : System) × (end_release i s ≡ some s') × Safe on s'
  unfolding end_release
  end_release-Safe e =
      let (one, out) = others_out s.locked s.cpus i v.excludes (ap has_lock e) in
      let (n, m, f) = IsMasked-at leaving e in
      let c = record (s.cpus i) { pc = outside; ncli = 0; interrupts = on i } in
      (
        record s { locked = 0; cpus = update s.cpus i c },
        rw (n, m, f) refl,
        record {
          masked = IsMasked-each c (refl, refl);
          excludes = inl (refl, each (λ j d. has_lock d.pc ≡ false) s.cpus i c out refl);
          owned = IsOwned-same s.owner s.cpus i c (sym (ap is_inside e)) v.owned;
        },
      )

  step_from-Safe :
      (p : Pc) → (s.cpus i).pc ≡ p → (s' : System) × (step_from p i s ≡ some s') × Safe on s'
  unfolding step_from
  step_from-Safe outside e = begin_acquire-Safe e
  step_from-Safe spinning e = (try_lock i s, refl, try_lock-Safe e)
  step_from-Safe taken e = (end_acquire i s, refl, end_acquire-Safe e)
  step_from-Safe inside e = begin_release-Safe e
  step_from-Safe leaving e = end_release-Safe e

-- Processors that take and leave a spin lock again and again, in any order of their steps: none
-- panics, never do two have the lock, the field cpu names exactly the one in the critical section, and
-- interrupts are off from acquire to release and afterwards as they were before.
pub run-Safe :
    (on : ℕ → Bool) (is : List ℕ) (s : System)
    → Safe on s
    → (s' : System) × (run is s ≡ some s') × Safe on s'
unfolding run
run-Safe on [] s v = (s, refl, v)
run-Safe on (i ∷ is) s v =
    let (s1, one, v1) = step_from-Safe on i s v (s.cpus i).pc refl in
    let (s2, more, v2) = run-Safe on is s1 v1 in (s2, rw one more, v2)
