-- ===== src/Pipe/Window.antt =====
-- The bytes that a pipe holds, as a list, whatever turn the counters have made.
use osp.Prelude.{
  ℕ, zero, suc, ◌+◌, ◌-◌, ◌%◌, ◌^◌, ◌≤◌, ◌<◌, ◌≡◌, refl, true, false, List, [], ◌∷◌, ◌++◌, arith,
  ◌==◌, update, length, ap,
}
use osp.Pipe.{pipesize, Pipe}

-- The `n` bytes from the count `r` on.
abbrev pub window : (ℕ → ℕ) → ℕ → ℕ → List ℕ
window bytes r zero = []
window bytes r (suc n) = bytes (r % pipesize) ∷ window bytes (r + 1) n

abbrev pub size : Pipe → ℕ
size p = (p.nwrite + 2 ^ 32 - p.nread) % 2 ^ 32

abbrev pub contents : Pipe → List ℕ
contents p = window p.bytes p.nread (size p)

-- Both counters are `uint`, and the writer is at most a buffer ahead.
pub record IsValid (p : Pipe) : Type 0 where
  pub read_word : p.nread < 2 ^ 32
  pub write_word : p.nwrite < 2 ^ 32
  pub fits : size p ≤ pipesize

pub length-window : (bytes : ℕ → ℕ) (r n : ℕ) → length (window bytes r n) ≡ n
length-window bytes r zero = refl
length-window bytes r (suc n) = ap suc (length-window bytes (r + 1) n)

-- Only the place in the buffer counts, so the wrap of a counter is not seen.
pub window-mod :
    (bytes : ℕ → ℕ) (r q n : ℕ) → r % pipesize ≡ q % pipesize → window bytes r n ≡ window bytes q n
window-mod bytes r q zero h = refl
window-mod bytes r q (suc n) h = rw (h, window-mod bytes (r + 1) (q + 1) n (omega arith))

-- A byte written just behind the window extends it.
pub window-put :
    (bytes : ℕ → ℕ) (b r n i : ℕ)
    → n < pipesize
    → i ≡ (r + n) % pipesize
    → window (update bytes i b) r (suc n) ≡ window bytes r n ++ (b ∷ [])
window-put bytes b r zero i small e =
    let here : (i == r % pipesize) ≡ true = ground arith in rw here
window-put bytes b r (suc n) i small e =
    let other : (i == r % pipesize) ≡ false = ground arith in
    rw (other, ← window-put bytes b (r + 1) n i (omega arith) (omega arith))
