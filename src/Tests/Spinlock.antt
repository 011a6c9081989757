-- ===== src/Tests/Spinlock.antt =====
-- Two processors at a spin lock: the second spins until the first has left.
use osp.Prelude.{ℕ, ◌≡◌, refl, inl, true, some, List, [], ◌∷◌, arith}
use osp.Spinlock.{outside, System, run}
use osp.Spinlock.Exclusion.{run-Safe}
use osp.Spinlock.State.{Safe}

abbrev start : System
start = record {
  locked = 0;
  owner = 0;
  cpus = λ i. record { pc = outside; ncli = 0; intena = true; interrupts = true };
}

start-Safe : Safe (λ i. true) start
start-Safe = record {
  masked = λ i. (refl, refl);
  excludes = inl (refl, λ i. refl);
  owned = λ i. ground arith;
}

abbrev order : List ℕ
order = 0 ∷ 1 ∷ 0 ∷ 1 ∷ 0 ∷ 1 ∷ 0 ∷ 0 ∷ 1 ∷ 1 ∷ []

run-Safe_example : (s' : System) × (run order start ≡ some s') × Safe (λ i. true) s'
run-Safe_example = run-Safe (λ i. true) order start start-Safe
