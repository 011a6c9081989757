-- ===== src/Tests/Grep.antt =====
-- The theorems on grep.c: the expression `a*b$`, and an input cut inside a line.
use osp.Prelude.{ℕ, ◌≡◌, ◌↔◌, refl, true, List, [], ◌∷◌, arith}
use osp.Grep.{match, grep, strchr_newline, grep_loop, lines_loop}
use osp.Grep.Match.{Finds, match_iff}
use osp.Grep.Lines.{print_lines, concat, HaveLines, grep-lines}

abbrev expression : List ℕ
expression = b'a' ∷ b'*' ∷ b'b' ∷ b'$' ∷ []

abbrev text : List ℕ
text = b'x' ∷ b'a' ∷ b'a' ∷ b'b' ∷ []

match_iff_example : (match expression text ≡ true) ↔ Finds expression text
match_iff_example = match_iff expression text

it_matches : match expression text ≡ true
unfolding match
it_matches = refl

abbrev pieces : List (List ℕ)
pieces = (b'a' ∷ 10 ∷ b'c' ∷ []) ∷ (b'b' ∷ 10 ∷ []) ∷ []

pieces-HaveLines : HaveLines pieces
unfolding strchr_newline
pieces-HaveLines = (
  ((omega arith, (omega arith, (omega arith, tt))), refl),
  (((omega arith, (omega arith, tt)), refl), tt),
)

grep-lines_example : grep (b'b' ∷ []) pieces ≡ print_lines (b'b' ∷ []) [] (concat pieces)
grep-lines_example = grep-lines (b'b' ∷ []) pieces pieces-HaveLines

-- A read without a newline is lost: the line `ab` is not found.
cut_line : grep (b'a' ∷ []) ((b'a' ∷ []) ∷ (b'b' ∷ 10 ∷ []) ∷ []) ≡ []
unfolding grep_loop lines_loop strchr_newline match
cut_line = refl
