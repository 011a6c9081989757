-- ===== src/Tests/Log.antt =====
-- The theorems on log.c: a transaction of two blocks, and the space for three system calls.
use osp.Prelude.{ℕ, ◌+◌, ◌≡◌, ◌⊎◌, inr, refl, true, false, none, [], ◌∷◌, arith}
use osp.Log.{Block, Store, Log, commit, log_write}
use osp.Log.Reboot.{reboot}
use osp.Log.Commit.{IsTransaction, reboots, IsOld, IsNew, commit_atomic, commit_durable}
use osp.Log.Space.{State}

-- The log starts at block 2; blocks 100 and 101 are modified.
abbrev l0 : Log
l0 = record {
  start = 2;
  size = 31;
  outstanding = 0;
  committing = true;
  lh = record { n = 2; block = λ i. 100 + i };
}

abbrev blank : ℕ → Block
blank b i = 0

-- The power fails after `k` writes.
abbrev s0 : ℕ → Store
s0 k = record { disk = blank; view = λ b i. b; left = k }

two-IsTransaction : (k : ℕ) → IsTransaction l0 (s0 k)
two-IsTransaction k = record {
  some_ = omega arith;
  few = omega arith;
  home = λ i lt. inr (omega arith);
  empty = refl;
}

commit_atomic_example :
    IsOld l0 l0
      (s0 4)
      (two-IsTransaction 4)
      refl
      (reboot l0 40 (reboots l0 (1 ∷ 0 ∷ []) (commit l0 (s0 4)).1.disk))
    ⊎ IsNew l0 l0
        (s0 4)
        (two-IsTransaction 4)
        refl
        (reboot l0 40 (reboots l0 (1 ∷ 0 ∷ []) (commit l0 (s0 4)).1.disk))
commit_atomic_example =
    commit_atomic l0 l0 (s0 4) (two-IsTransaction 4) refl (1 ∷ 0 ∷ []) 40 (omega arith)

commit_durable_example :
    IsNew l0 l0
      (s0 3)
      (two-IsTransaction 3)
      refl
      (reboot l0 40 (reboots l0 (1 ∷ 0 ∷ []) (commit l0 (s0 3)).1.disk))
commit_durable_example =
    commit_durable l0 l0 (s0 3) (two-IsTransaction 3) refl (1 ∷ 0 ∷ []) 40 (omega arith)
      (omega arith)

abbrev idle : Log
idle = record l0 { size = 30; committing = false; lh = record { n = 0; block = λ _. 0 } }

abbrev start : State
start = record { log_ = idle; store = s0 40; runs = [] }

abbrev st1 : State
st1 = record start { log_ = record idle { outstanding = 1 }; runs = 9 ∷ [] }

-- On the log that mkfs makes, of LOGSIZE blocks, the 30th block panics, though begin_op has reserved
-- room for it.
abbrev short : Log
short = record idle { size = 30; outstanding = 3; lh = record { n = 29; block = λ i. 100 + i } }

short_panics : log_write 200 short ≡ none
unfolding log_write
short_panics = refl
