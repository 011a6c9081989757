-- ===== src/Log/Runs.antt =====
-- The blocks that the running system calls may still log.
use osp.Prelude.{
  ℕ, zero, suc, ◌+◌, ◌-◌, ◌*◌, ◌≤◌, ◌<◌, ◌≡◌, refl, List, [], ◌∷◌, length, All, arith, ap,
}

-- The blocks that each running system call may still log.
abbrev pub Runs : Type 0
Runs = List ℕ

abbrev pub total : Runs → ℕ
total [] = 0
total (r ∷ rs) = r + total rs

abbrev pub may_log : ℕ → Runs → ℕ
may_log i [] = 0
may_log zero (r ∷ rs) = r
may_log (suc i) (r ∷ rs) = may_log i rs

abbrev pub spend : ℕ → Runs → Runs
spend i [] = []
spend zero (r ∷ rs) = (r - 1) ∷ rs
spend (suc i) (r ∷ rs) = r ∷ spend i rs

abbrev pub leave : ℕ → Runs → Runs
leave i [] = []
leave zero (r ∷ rs) = rs
leave (suc i) (r ∷ rs) = r ∷ leave i rs

abbrev pub AtMostNine : Runs → Type 0
AtMostNine rs = All (λ r. r ≤ 9) rs

pub total_bound : (rs : Runs) → AtMostNine rs → total rs ≤ length rs * 9
total_bound [] a = omega arith
total_bound (r ∷ rs) a = omega (arith, a.0, total_bound rs a.1)

pub total-spend : (i : ℕ) (rs : Runs) → 0 < may_log i rs → total (spend i rs) + 1 ≡ total rs
total-spend i [] p = absurd (omega arith)
total-spend zero (r ∷ rs) p = omega arith
total-spend (suc i) (r ∷ rs) p = omega (arith, total-spend i rs p)

pub length-spend : (i : ℕ) (rs : Runs) → length (spend i rs) ≡ length rs
length-spend i [] = refl
length-spend zero (r ∷ rs) = refl
length-spend (suc i) (r ∷ rs) = ap suc (length-spend i rs)

pub spend_small : (i : ℕ) (rs : Runs) → AtMostNine rs → AtMostNine (spend i rs)
spend_small i [] a = tt
spend_small zero (r ∷ rs) a = (omega (arith, a.0), a.1)
spend_small (suc i) (r ∷ rs) a = (a.0, spend_small i rs a.1)

pub total-leave : (i : ℕ) (rs : Runs) → total (leave i rs) ≤ total rs
total-leave i [] = omega arith
total-leave zero (r ∷ rs) = omega arith
total-leave (suc i) (r ∷ rs) = omega (arith, total-leave i rs)

pub length-leave : (i : ℕ) (rs : Runs) → i < length rs → length (leave i rs) + 1 ≡ length rs
length-leave i [] lt = absurd (omega arith)
length-leave zero (r ∷ rs) lt = omega arith
length-leave (suc i) (r ∷ rs) lt = omega (arith, length-leave i rs (omega arith))

pub leave_small : (i : ℕ) (rs : Runs) → AtMostNine rs → AtMostNine (leave i rs)
leave_small i [] a = tt
leave_small zero (r ∷ rs) a = a.1
leave_small (suc i) (r ∷ rs) a = (a.0, leave_small i rs a.1)

pub may_log-lt : (i : ℕ) (rs : Runs) → 0 < may_log i rs → 0 < length rs
may_log-lt i [] p = p
may_log-lt i (r ∷ rs) p = omega arith
