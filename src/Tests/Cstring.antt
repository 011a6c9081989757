-- ===== src/Tests/Cstring.antt =====
-- The theorems on string.c on ranges that overlap.
use osp.Prelude.{◌+◌, ◌-◌, ◌≡◌, ◌&&◌, arith, ltb, leb, if◌then◌else◌}
use osp.Cstring.{memmove}
use osp.Cstring.Move.{memmove-copied}

memmove-copied_example :
    memmove 12 10 5 (λ a. a) 14 ≡ (if leb 12 14 && ltb 14 (12 + 5) then 10 + (14 - 12) else 14)
memmove-copied_example = memmove-copied 12 10 5 (λ a. a) 14 (omega arith) (omega arith)
