-- ===== src/Cstring/Copy.antt =====
-- safestrcpy stays inside the buffer and ends the string there.
use osp.Prelude.{
  ℕ, zero, suc, ◌+◌, ◌-◌, ◌^◌, ◌≤◌, ◌<◌, ◌≡◌, ◌⊎◌, inl, inr, true, arith, ◌==◌, update, update_self,
  update-ne, Bool-cases, ◌∙◌, ap, subst,
}
use osp.Mmap.{slt}
use osp.Cstring.{next, safestrcpy_loop, safestrcpy}

-- The memory `after` differs from `before` only in the `n` bytes from `s` on.
abbrev pub OnlyWithin : ℕ → ℕ → (ℕ → ℕ) → (ℕ → ℕ) → Type 0
OnlyWithin s n before after = (a : ℕ) → (a < s) ⊎ (s + n ≤ a) → after a ≡ before a

-- A NUL stands in the `n` bytes from `s` on.
abbrev pub HasNul : ℕ → ℕ → (ℕ → ℕ) → Type 0
HasNul s n mem = (k : ℕ) × (k < n) × (mem (s + k) ≡ 0)

abbrev pub Terminated : ℕ → ℕ → (ℕ → ℕ) → (ℕ → ℕ) → Type 0
Terminated s n before after = OnlyWithin s n before after × HasNul s n after

narrow : (s n a : ℕ) → (a < s) ⊎ (s + suc (suc n) ≤ a) → (a < s + 1) ⊎ (s + 1 + suc n ≤ a)
narrow s n a (inl low) = inl (omega arith)
narrow s n a (inr high) = inr (omega arith)

safestrcpy_loop-Terminated :
    (n s t : ℕ) (mem : ℕ → ℕ)
    → s + suc n < 2 ^ 32
    → Terminated s (suc n) mem (safestrcpy_loop s t n mem)
unfolding safestrcpy_loop
safestrcpy_loop-Terminated zero s t mem h = (
  λ a out. update-ne mem s 0 a (omega arith),
  (0, omega arith, ap (update mem s 0) (omega arith) ∙ update_self mem s 0),
)
safestrcpy_loop-Terminated (suc n) s t mem h =
    let copied = update mem s (mem t) in
    let up : next s ≡ s + 1 = omega arith in
    let (within, (k, few, nul)) =
      safestrcpy_loop-Terminated n (s + 1) (next t) copied (omega arith) in
    elim (Bool-cases (mem t == 0)) [
      | inl y ↦
          rw (y, up)
            (
              λ a out.
                  update-ne copied (s + 1) 0 a (omega arith)
                  ∙ update-ne mem s (mem t) a (omega arith),
              (1, omega arith, update_self copied (s + 1) 0),
            )
      | inr n0 ↦
          rw (n0, up)
            (
              λ a out. within a (narrow s n a out) ∙ update-ne mem s (mem t) a (omega arith),
              (
                suc k,
                omega arith,
                ap (safestrcpy_loop (s + 1) (next t) n copied) (omega arith) ∙ nul,
              ),
            )
    ]

-- safestrcpy into a buffer of `n` bytes changes no byte outside the buffer and leaves a NUL inside it,
-- whatever the source holds and also where it overlaps the buffer, when `n` is a positive `int` and
-- the buffer ends below the last address.
pub safestrcpy-Terminated :
    (s t n : ℕ) (mem : ℕ → ℕ)
    → 0 < n
    → n < 2 ^ 31
    → s + n < 2 ^ 32
    → Terminated s n mem (safestrcpy s t n mem)
unfolding safestrcpy
safestrcpy-Terminated s t n mem some small room =
    let positive : slt 0 n ≡ true = ground arith in
    rw positive (
      subst (λ k. Terminated s k mem (safestrcpy_loop s t (n - 1) mem)) (omega arith)
        (safestrcpy_loop-Terminated (n - 1) s t mem (omega arith)))
