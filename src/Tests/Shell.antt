-- ===== src/Tests/Shell.antt =====
-- The theorems on the parser of the shell at `( a > f & b ) | c d >> g ; e`.
use osp.Prelude.{ℕ, ◌≡◌, refl, true, List, [], ◌∷◌, arith}
use osp.Shell.{ok, parsecmd, has_char}
use osp.Shell.Syntax.{
  output, append, words, block, one, into, Line, last, then, show_line, line_cmd, IsLine,
}
use osp.Shell.Total.{is_answer, parsecmd_ends}
use osp.Shell.RoundTrip.{parsecmd-show}

abbrev letter : ℕ → List ℕ
letter c = c ∷ []

abbrev line : Line
line =
    then
      (into
        (block
          (then (one (words [] ((letter b'a', (output, letter b'f') ∷ []) ∷ []))) 1
            (last (one (words [] ((letter b'b', []) ∷ []))) 0))
          [])
        (one (words [] ((letter b'c', []) ∷ (letter b'd', (append, letter b'g') ∷ []) ∷ []))))
      0 (last (one (words [] ((letter b'e', []) ∷ []))) 0)

line-IsLine : IsLine line
unfolding IsLine has_char
line-IsLine =
    ((
      (
        (
          (
            (tt, (((refl, tt), ((refl, tt), tt)), tt), omega arith),
            (tt, (((refl, tt), tt), tt), omega arith),
          ),
          tt,
        ),
        (tt, (((refl, tt), tt), (((refl, tt), ((refl, tt), tt)), tt)), omega arith),
      ),
      (tt, (((refl, tt), tt), tt), omega arith),
    ))

parsecmd-show_example : parsecmd (show_line line []) ≡ ok (line_cmd line)
parsecmd-show_example = parsecmd-show line line-IsLine

-- `( | `
abbrev bad_text : List ℕ
bad_text = b'(' ∷ b' ' ∷ b'|' ∷ b' ' ∷ []

parsecmd_ends_example : is_answer (parsecmd bad_text) ≡ true
parsecmd_ends_example = parsecmd_ends bad_text
