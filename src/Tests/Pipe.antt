-- ===== src/Tests/Pipe.antt =====
-- The theorems on pipe.c at small pipes, one of them with counters about to wrap.
use osp.Prelude.{◌^◌, ◌-◌, ◌≡◌, ◌⊎◌, refl, true, false, List, [], ◌∷◌, arith, update}
use osp.Pipe.{Pipe, pipewrite, copy_out, piperead}
use osp.Pipe.Window.{IsValid, contents}
use osp.Pipe.Refine.{Writes, pipewrite-Writes, Waits, Gets, piperead-Copies}
use osp.Pipe.Stream.{System, Turn, writer, reader, play, Carries, play-Carries}

-- Two bytes lie across the wrap of the counters.
abbrev wrapping : Pipe
wrapping = record {
  bytes = update (λ _. 7) 0 8;
  nread = 2 ^ 32 - 1;
  nwrite = 1;
  readopen = true;
  writeopen = true;
}

wrapping-IsValid : IsValid wrapping
wrapping-IsValid = omega arith

wrapping-contents : contents wrapping ≡ 7 ∷ 8 ∷ []
wrapping-contents = refl

read_one : (piperead false 1 wrapping).1.nread ≡ 0
unfolding piperead copy_out
read_one = refl

pipewrite-Writes_example :
    Writes false (1 ∷ 2 ∷ []) wrapping (pipewrite false (1 ∷ 2 ∷ []) wrapping)
pipewrite-Writes_example = pipewrite-Writes false (1 ∷ 2 ∷ []) wrapping wrapping-IsValid

piperead-Copies_example : Waits false 1 wrapping ⊎ Gets false 1 wrapping
piperead-Copies_example = piperead-Copies false 1 wrapping wrapping-IsValid

abbrev start : System
start = record { pipe = wrapping; todo = 9 ∷ []; received = [] }

start-Carries : Carries (7 ∷ 8 ∷ 9 ∷ []) start
start-Carries = record { valid = wrapping-IsValid; can_read = refl; whole = refl }

abbrev turns : List Turn
turns = reader 1 ∷ writer ∷ reader 5 ∷ []

play-Carries_example : Carries (7 ∷ 8 ∷ 9 ∷ []) (play turns start)
play-Carries_example = play-Carries turns (7 ∷ 8 ∷ 9 ∷ []) start start-Carries

all_received : (play turns start).received ≡ 7 ∷ 8 ∷ 9 ∷ []
unfolding play pipewrite piperead copy_out
all_received = refl
