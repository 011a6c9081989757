-- ===== src/Log/Space.antt =====
-- The space that begin_op reserves: system calls that log at most nine blocks each never fill the log
-- that mkfs makes. (Ten, MAXOPBLOCKS, can: mkfs gives the log LOGSIZE blocks with its header.)
use osp.Prelude.{
  ℕ, zero, suc, ◌+◌, ◌≤◌, ◌<◌, ◌≡◌, inl, inr, true, false, Option, none, some, List, [], ◌∷◌,
  length, arith, ◌==◌, ◌>>=◌, Bool-cases,
}
use osp.Log.{Log, Store, end_commit, begin_op, end_op, find_logged, log_write}
use osp.Log.Runs.{Runs, total, may_log, spend, leave, AtMostNine}

-- The calls: `log` and `end` name the system call by its place in the list.
pub data Call : Type 0 where
  begin commit_now : Call
  log : ℕ → ℕ → Call
  end : ℕ → Call

pub record State : Type 0 where
  pub log_ : Log
  pub store : Store
  pub runs : Runs

-- The blocks that a system call may log.
abbrev pub most : ℕ
most = 9

-- A call that sleeps changes nothing.
abbrev begun : Option Log → State → State
begun none st = st
begun (some l) st = record st { log_ = l; runs = most ∷ st.runs }

abbrev pub call : Call → State → Option State
call begin st = some (begun (begin_op st.log_) st)
call (log i b) st = do
  l ← log_write b st.log_
  some (record st { log_ = l; runs = spend i st.runs })
call (end i) st = do
  (ends, l) ← end_op st.log_
  some (record st { log_ = l; runs = leave i st.runs })
call commit_now st =
    let (l, s) = end_commit st.log_ st.store in some (record st { log_ = l; store = s })

abbrev pub calls : List Call → State → Option State
calls [] st = some st
calls (c ∷ cs) st = call c st >>= calls cs

-- A system call logs at most nine times; the commit runs where end_op has asked for it.
abbrev pub Allowed : Call → State → Type 0
Allowed begin st = Unit
Allowed (log i b) st = 0 < may_log i st.runs
Allowed (end i) st = i < length st.runs
Allowed commit_now st = st.log_.committing ≡ true

abbrev pub AllAllowed : List Call → State → Type 0
AllAllowed [] st = Unit
AllAllowed (c ∷ cs) st = Allowed c st × ((st' : State) → call c st ≡ some st' → AllAllowed cs st')

-- What is logged and what may still be logged fit; no system call runs while one commits; and where
-- none runs and no commit is due, nothing is logged.
pub record Fits (st : State) : Type 0 where
  pub space : st.log_.lh.n + total st.runs ≤ 29
  pub counted : st.log_.outstanding ≡ length st.runs
  pub small : AtMostNine st.runs
  pub few : length st.runs ≤ 3
  pub room : 30 ≤ st.log_.size
  pub quiet : st.log_.committing ≡ true → length st.runs ≡ 0
  pub clean : st.log_.committing ≡ false → length st.runs ≡ 0 → st.log_.lh.n ≡ 0

find_logged-le : (block : ℕ → ℕ) (b i m : ℕ) → find_logged block b i m ≤ i + m
unfolding find_logged
find_logged-le block b i zero = omega arith
find_logged-le block b i (suc m) = elim (Bool-cases (block i == b)) [
  | inl t ↦ rw t (omega arith)
  | inr t ↦ rw t (omega (arith, find_logged-le block b (i + 1) m))
]
