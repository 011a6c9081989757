-- ===== src/Printf/RoundTrip.antt =====
-- printint and atoi: a number survives being printed and read.
use mathlib.Core.List.{reverse_aux, append-nil}
use native.Mathlib.Numerals.{unary_clauses}
use osp.Prelude.{
  ℕ, zero, suc, ◌+◌, ◌-◌, ◌*◌, ◌/◌, ◌%◌, ◌^◌, ◌<◌, ◌≡◌, inl, inr, true, false, List, [], ◌∷◌, arith,
  ◌==◌, Bool-cases, ◌∙◌, sym, ap,
}
use osp.Mmap.{slt}
use osp.Ulib.{is_digit, atoi_loop, atoi}
use osp.Printf.{digit, digits_loop, digits_fuel, printint}

digit-ascii : (d : ℕ) → d < 10 → digit d ≡ 48 + d
digit-ascii d small = ground arith

is_digit-digit : (d : ℕ) → d < 10 → is_digit (48 + d) ≡ true
is_digit-digit d small = ground arith

ascii_value :
    (n d : ℕ) → n * 10 + d < 2 ^ 32 → (n * 10 + (48 + d) + 2 ^ 32 - 48) % 2 ^ 32 ≡ n * 10 + d
ascii_value n d room = omega arith

atoi_loop-digit :
    (n d : ℕ) (s : List ℕ)
    → d < 10
    → n * 10 + d < 2 ^ 32
    → atoi_loop n (digit d ∷ s) ≡ atoi_loop (n * 10 + d) s
unfolding atoi_loop
atoi_loop-digit n d s small room =
    rw (digit-ascii d small, is_digit-digit d small, ascii_value n d room)

next_digit :
    (x : ℕ) (s : List ℕ) → x < 2 ^ 32 → atoi_loop (x / 10) (digit (x % 10) ∷ s) ≡ atoi_loop x s
next_digit x s w =
    atoi_loop-digit (x / 10) (x % 10) s (omega arith) (omega arith)
    ∙ ap (λ k. atoi_loop k s) (omega arith)

tenth : (x fuel : ℕ) → x < 10 ^ suc fuel → x / 10 < 10 ^ fuel
tenth x fuel h = let wide = simp unary_clauses at h in omega arith

atoi_loop-digits :
    (fuel x : ℕ) (s : List ℕ)
    → x < 10 ^ fuel
    → x < 2 ^ 32
    → atoi_loop 0 (reverse_aux (digits_loop fuel 10 x) s) ≡ atoi_loop x s
unfolding digits_loop
atoi_loop-digits zero x s h w = ap (λ n. atoi_loop n s) (omega arith)
atoi_loop-digits (suc fuel) x s h w =
    let ends = next_digit x s w in
    elim (Bool-cases (x / 10 == 0)) [
      | inl y ↦
          let none_left : x / 10 ≡ 0 = ground arith in
          rw y (ap (λ n. atoi_loop n (digit (x % 10) ∷ s)) (sym none_left) ∙ ends)
      | inr n ↦ rw n (
          atoi_loop-digits fuel (x / 10) (digit (x % 10) ∷ s) (tenth x fuel h) (omega arith) ∙ ends)
    ]

-- atoi of what printint writes of a non-negative int in base 10 is that int again.
pub atoi-printint : (x : ℕ) → x < 2 ^ 31 → atoi (printint x 10 true) ≡ x
unfolding atoi atoi_loop printint
atoi-printint x h =
    let positive : slt x 0 ≡ false = ground arith in
    rw positive (
      ap (λ ds. atoi_loop 0 (reverse_aux ds [])) (append-nil (digits_loop digits_fuel 10 x))
      ∙ atoi_loop-digits digits_fuel x [] (omega arith) (omega arith))
