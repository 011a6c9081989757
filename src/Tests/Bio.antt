-- ===== src/Tests/Bio.antt =====
-- The theorems on the buffer cache: the cache that binit leaves, with a block read and given back.
use osp.Prelude.{ℕ, ◌≡◌, refl, true, List, [], ◌∷◌, All, arith}
use osp.Spinlock.{acquiresleep, holdingsleep}
use osp.Bio.{Bcache, binit, binit_loop, bget, brelse, find_buf, link_first}
use osp.Bio.Lru.{Answers, bget-Answers}
use osp.Bio.Release.{Released, brelse-Released}
use osp.Bio.Calls.{
  Call, get, lock, put, run, IsCall, Kept, newest_first, binit-IsCache, run-IsCache,
}

-- Process 4 reads block 7 of disk 1, process 5 block 8; both are given back, and block 7 is read again.
abbrev calls : List Call
calls = get 1 7 ∷ lock 4 0 ∷ get 1 8 ∷ lock 5 1 ∷ put 4 0 ∷ put 5 1 ∷ get 1 7 ∷ []

calls-IsCall : All IsCall calls
calls-IsCall = (tt, (omega arith, (tt, (omega arith, (omega arith, (omega arith, (tt, tt)))))))

run-IsCache_example : (l : List ℕ) × Kept (run calls binit) l
run-IsCache_example = run-IsCache calls calls-IsCall

bget-Answers_example : Answers binit newest_first 1 7 (bget 1 7 binit)
bget-Answers_example = bget-Answers binit newest_first binit-IsCache 1 7

-- Buffer 0 has block 7, and process 4 has its lock.
abbrev held : Bcache
held = run (get 1 7 ∷ lock 4 0 ∷ []) binit

held-Kept : (l : List ℕ) × Kept held l
held-Kept = run-IsCache (get 1 7 ∷ lock 4 0 ∷ []) (tt, (omega arith, tt))

lock_held : holdingsleep 4 (held.buf 0).lock ≡ true
unfolding bget find_buf binit binit_loop link_first acquiresleep holdingsleep
lock_held = refl

brelse-Released_example : Released 4 0 held held-Kept.0 (brelse 4 0 held)
brelse-Released_example =
    brelse-Released 0 held-Kept.0 (held-Kept.1.whole 0 (omega arith)) 4 held held-Kept.1.cache
