-- ===== src/Tests/Printf.antt =====
-- The theorem on printint and atoi at a number of four digits, and the lowest int.
use osp.Prelude.{◌^◌, ◌≡◌, refl, true, [], ◌∷◌, arith}
use osp.Ulib.{atoi}
use osp.Printf.{printint, digits_loop}
use osp.Printf.RoundTrip.{atoi-printint}

atoi-printint_example : atoi (printint 2026 10 true) ≡ 2026
atoi-printint_example = atoi-printint 2026 (omega arith)

lowest_int :
    printint (2 ^ 31) 10 true
    ≡ b'-' ∷ b'2' ∷ b'1' ∷ b'4' ∷ b'7' ∷ b'4' ∷ b'8' ∷ b'3' ∷ b'6' ∷ b'4' ∷ b'8' ∷ []
unfolding printint digits_loop
lowest_int = refl
