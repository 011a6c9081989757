-- ===== src/Cstring/Move.antt =====
-- memmove copies the source as it was, also where the ranges overlap.
use osp.Prelude.{
  ℕ, zero, suc, ◌+◌, ◌-◌, ◌%◌, ◌^◌, ◌≤◌, ◌<◌, ◌≡◌, ◌⊎◌, inl, inr, true, false, ◌&&◌, arith, ltb,
  leb, if◌then◌else◌, update, update_self, update-ne, Bool-cases, ◌∙◌, sym, ap,
}
use native.Mathlib.Decide.{ℕ_discrete, dec_lt}
use osp.Cstring.{back_loop, forward_loop, memmove}

-- Memory in which the `n` bytes from `src` have been copied to `dst`.
abbrev pub copied : ℕ → ℕ → ℕ → (ℕ → ℕ) → ℕ → ℕ
copied dst src n mem a = if leb dst a && ltb a (dst + n) then mem (src + (a - dst)) else mem a

copied-in :
    (d s n : ℕ) (mem : ℕ → ℕ) (a : ℕ) → d ≤ a → a < d + n → copied d s n mem a ≡ mem (s + (a - d))
copied-in d s n mem a lo hi = let t : (leb d a && ltb a (d + n)) ≡ true = ground arith in rw t

copied-out : (d s n : ℕ) (mem : ℕ → ℕ) (a : ℕ) → (a < d) ⊎ (d + n ≤ a) → copied d s n mem a ≡ mem a
copied-out d s n mem a o = let t : (leb d a && ltb a (d + n)) ≡ false = ground arith in rw t

-- The first byte, then the others, where the first write does not hit the others' source.
first_then :
    (d s n : ℕ) (mem : ℕ → ℕ) (a : ℕ)
    → (d ≤ s) ⊎ (s + suc n ≤ d)
    → copied (d + 1) (s + 1) n (update mem d (mem s)) a ≡ copied d s (suc n) mem a
first_then d s n mem a apart = elim (dec_lt a d) [
  | yes l ↦
      copied-out (d + 1) (s + 1) n (update mem d (mem s)) a (inl (omega arith))
      ∙ update-ne mem d (mem s) a (omega arith)
      ∙ sym (copied-out d s (suc n) mem a (inl l))
  | no g ↦ elim (ℕ_discrete d a) [
    | yes e ↦
        copied-out (d + 1) (s + 1) n (update mem d (mem s)) a (inl (omega arith))
        ∙ ap (update mem d (mem s)) (sym e)
        ∙ update_self mem d (mem s)
        ∙ ap mem (omega arith)
        ∙ sym (copied-in d s (suc n) mem a (omega arith) (omega arith))
    | no ne ↦ elim (dec_lt a (d + suc n)) [
      | yes l ↦
          copied-in (d + 1) (s + 1) n (update mem d (mem s)) a (omega arith) (omega arith)
          ∙ update-ne mem d (mem s) (s + 1 + (a - (d + 1))) (omega arith)
          ∙ ap mem (omega arith)
          ∙ sym (copied-in d s (suc n) mem a (omega arith) l)
      | no h ↦
          copied-out (d + 1) (s + 1) n (update mem d (mem s)) a (inr (omega arith))
          ∙ update-ne mem d (mem s) a (omega arith)
          ∙ sym (copied-out d s (suc n) mem a (inr (omega arith)))
    ]
  ]
]

-- The last byte, then the others.
last_then :
    (d s n : ℕ) (mem : ℕ → ℕ) (a : ℕ)
    → s < d
    → copied d s n (update mem (d + n) (mem (s + n))) a ≡ copied d s (suc n) mem a
last_then d s n mem a lt = elim (dec_lt a d) [
  | yes l ↦
      copied-out d s n (update mem (d + n) (mem (s + n))) a (inl l)
      ∙ update-ne mem (d + n) (mem (s + n)) a (omega arith)
      ∙ sym (copied-out d s (suc n) mem a (inl l))
  | no g ↦ elim (ℕ_discrete (d + n) a) [
    | yes e ↦
        copied-out d s n (update mem (d + n) (mem (s + n))) a (inr (omega arith))
        ∙ ap (update mem (d + n) (mem (s + n))) (sym e)
        ∙ update_self mem (d + n) (mem (s + n))
        ∙ ap mem (omega arith)
        ∙ sym (copied-in d s (suc n) mem a (omega arith) (omega arith))
    | no ne ↦ elim (dec_lt a (d + n)) [
      | yes l ↦
          copied-in d s n (update mem (d + n) (mem (s + n))) a (omega arith) l
          ∙ update-ne mem (d + n) (mem (s + n)) (s + (a - d)) (omega arith)
          ∙ sym (copied-in d s (suc n) mem a (omega arith) (omega arith))
      | no h ↦
          copied-out d s n (update mem (d + n) (mem (s + n))) a (inr (omega arith))
          ∙ update-ne mem (d + n) (mem (s + n)) a ne
          ∙ sym (copied-out d s (suc n) mem a (inr (omega arith)))
    ]
  ]
]

forward_loop-at :
    (n d s : ℕ) (mem : ℕ → ℕ) (a : ℕ)
    → d + n < 2 ^ 32
    → s + n < 2 ^ 32
    → (d ≤ s) ⊎ (s + n ≤ d)
    → forward_loop n d s mem a ≡ copied d s n mem a
unfolding forward_loop
forward_loop-at zero d s mem a ld ls apart = sym (copied-out d s 0 mem a (omega arith))
forward_loop-at (suc n) d s mem a ld ls apart =
    let ed : (d + 1) % 2 ^ 32 ≡ d + 1 = omega arith in
    let es : (s + 1) % 2 ^ 32 ≡ s + 1 = omega arith in
    rw (ed, es)
      (forward_loop-at n (d + 1) (s + 1) (update mem d (mem s)) a (omega arith) (omega arith)
          (omega arith)
        ∙ first_then d s n mem a apart)

back_loop-at :
    (n d s : ℕ) (mem : ℕ → ℕ) (a : ℕ)
    → d + n < 2 ^ 32
    → s < d
    → back_loop n (d + n) (s + n) mem a ≡ copied d s n mem a
unfolding back_loop
back_loop-at zero d s mem a ld lt = sym (copied-out d s 0 mem a (omega arith))
back_loop-at (suc n) d s mem a ld lt =
    let ed : (d + suc n + 2 ^ 32 - 1) % 2 ^ 32 ≡ d + n = omega arith in
    let es : (s + suc n + 2 ^ 32 - 1) % 2 ^ 32 ≡ s + n = omega arith in
    rw (ed, es)
      (back_loop-at n d s (update mem (d + n) (mem (s + n))) a (omega arith) lt
        ∙ last_then d s n mem a lt)

-- memmove of ranges that do not wrap: the destination holds what the source held before, wherever the
-- two overlap, and no other byte changes.
pub memmove-copied :
    (dst src n : ℕ) (mem : ℕ → ℕ) (a : ℕ)
    → dst + n < 2 ^ 32
    → src + n < 2 ^ 32
    → memmove dst src n mem a
      ≡ (if leb dst a && ltb a (dst + n) then mem (src + (a - dst)) else mem a)
unfolding memmove
memmove-copied dst src n mem a ld ls =
    let ed : (dst + n) % 2 ^ 32 ≡ dst + n = omega arith in
    let es : (src + n) % 2 ^ 32 ≡ src + n = omega arith in
    elim (Bool-cases (ltb src dst && ltb dst (src + n))) [
      | inl t ↦ rw (es, t, ed) (back_loop-at n dst src mem a ld (ground arith))
      | inr t ↦ rw (es, t) (forward_loop-at n dst src mem a ld ls (ground arith))
    ]
