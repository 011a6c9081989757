-- ===== src/Fs/Bitmap/Bits.antt =====
-- The bits of a byte, by halving.
use native.Mathlib.Nat.{div-div-eq-div-mul}
use native.Mathlib.Omega.{pow_step}
use osp.Prelude.{
  ℕ, zero, suc, ◌+◌, ◌-◌, ◌/◌, ◌%◌, ◌^◌, ◌≤◌, ◌≡◌, ◌≢◌, refl, true, false, arith, ◌==◌, ◌∙◌, sym,
  ap, inl, inr, Bool-cases,
}
use osp.Mmu.{flag, set_bit, clear_bit}

flag-half : (x j : ℕ) → flag x (2 ^ suc j) ≡ flag (x / 2) (2 ^ j)
flag-half x j =
    ap (λ n. n % 2 == 1) (ap (λ p. x / p) (pow_step 2 j) ∙ sym (div-div-eq-div-mul x 2 (2 ^ j)))

flag_one : (x y : ℕ) → x % 2 ≡ y % 2 → flag x (2 ^ 0) ≡ flag y (2 ^ 0)
flag_one x y h = ap (λ n. n == 1) (omega arith)

half_sum : (x k : ℕ) → (x + 2 ^ suc k) / 2 ≡ x / 2 + 2 ^ k
half_sum x k = ap (λ p. (x + p) / 2) (pow_step 2 k) ∙ omega arith

half_rest : (x k : ℕ) → (x - 2 ^ suc k) / 2 ≡ x / 2 - 2 ^ k
half_rest x k = ap (λ p. (x - p) / 2) (pow_step 2 k) ∙ omega arith

flag-set : (x k : ℕ) → flag x (2 ^ k) ≡ false → flag (x + 2 ^ k) (2 ^ k) ≡ true
flag-set x zero f = ground arith
flag-set x (suc k) f =
    flag-half (x + 2 ^ suc k) k
    ∙ ap (λ n. flag n (2 ^ k)) (half_sum x k)
    ∙ flag-set (x / 2) k (sym (flag-half x k) ∙ f)

flag-clear : (x k : ℕ) → flag x (2 ^ k) ≡ true → flag (x - 2 ^ k) (2 ^ k) ≡ false
flag-clear x zero f = ground arith
flag-clear x (suc k) f =
    flag-half (x - 2 ^ suc k) k
    ∙ ap (λ n. flag n (2 ^ k)) (half_rest x k)
    ∙ flag-clear (x / 2) k (sym (flag-half x k) ∙ f)

-- Where the bit `k` is clear, setting it changes no other.
flag-other :
    (x k j : ℕ) → k ≢ j → flag x (2 ^ k) ≡ false → flag (x + 2 ^ k) (2 ^ j) ≡ flag x (2 ^ j)
flag-other x zero zero ne f = absurd (ne refl)
flag-other x zero (suc j) ne f =
    let same : (x + 1) / 2 ≡ x / 2 = ground arith in
    flag-half (x + 1) j ∙ ap (λ n. flag n (2 ^ j)) same ∙ sym (flag-half x j)
flag-other x (suc k) zero ne f =
    flag_one (x + 2 ^ suc k) x (ap (λ p. (x + p) % 2) (pow_step 2 k) ∙ omega arith)
flag-other x (suc k) (suc j) ne f =
    flag-half (x + 2 ^ suc k) j
    ∙ ap (λ n. flag n (2 ^ j)) (half_sum x k)
    ∙ flag-other (x / 2) k j (λ e. ne (ap suc e)) (sym (flag-half x k) ∙ f)
    ∙ sym (flag-half x j)

flag-le : (x k : ℕ) → flag x (2 ^ k) ≡ true → 2 ^ k ≤ x
flag-le x zero f = ground arith
flag-le x (suc k) f = omega (arith, pow_step 2 k, flag-le (x / 2) k (sym (flag-half x k) ∙ f))

-- A bit after the bit `k` has been set or cleared.
pub set_bit_self : (x k : ℕ) → flag (set_bit x (2 ^ k)) (2 ^ k) ≡ true
set_bit_self x k = elim (Bool-cases (flag x (2 ^ k))) [
  | inl y ↦ rw y y
  | inr n ↦ rw n (flag-set x k n)
]

pub set_bit-ne : (x k j : ℕ) → k ≢ j → flag (set_bit x (2 ^ k)) (2 ^ j) ≡ flag x (2 ^ j)
set_bit-ne x k j ne = elim (Bool-cases (flag x (2 ^ k))) [
  | inl y ↦ rw y refl
  | inr n ↦ rw n (flag-other x k j ne n)
]

pub clear_bit_self : (x k : ℕ) → flag (clear_bit x (2 ^ k)) (2 ^ k) ≡ false
clear_bit_self x k = elim (Bool-cases (flag x (2 ^ k))) [
  | inl y ↦ rw y (flag-clear x k y)
  | inr n ↦ rw n n
]

pub clear_bit-ne : (x k j : ℕ) → k ≢ j → flag (clear_bit x (2 ^ k)) (2 ^ j) ≡ flag x (2 ^ j)
clear_bit-ne x k j ne = elim (Bool-cases (flag x (2 ^ k))) [
  | inl y ↦
      let sum : x - 2 ^ k + 2 ^ k ≡ x = omega (arith, flag-le x k y) in
      rw y (sym (flag-other (x - 2 ^ k) k j ne (flag-clear x k y)) ∙ ap (λ n. flag n (2 ^ j)) sum)
  | inr n ↦ rw n refl
]
