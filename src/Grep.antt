-- ===== src/Grep.antt =====
-- xv6-public/grep.c. A string is the list of its characters, without the NUL behind them.
pub mod Match
pub mod Lines
use osp.Prelude.{
  ℕ, zero, suc, ◌+◌, Bool, true, false, not, ◌&&◌, ◌||◌, Option, none, some, List, [], ◌∷◌, ◌++◌,
  ◌==◌, if◌then◌else◌, length,
}

abbrev pub star : ℕ
star = b'*'

-- matchstar, whose loop runs over the text; `here` is matchhere of the expression behind the star.
unfoldable pub matchstar : (List ℕ → Bool) → ℕ → List ℕ → Bool
matchstar here c [] = here []
matchstar here c (t ∷ ts) = here (t ∷ ts) || ((t == c || c == b'.') && matchstar here c ts)

-- matchhere for one character of the expression, which no star follows; `here` is matchhere of the
-- rest.
abbrev pub match_one : (List ℕ → Bool) → ℕ → List ℕ → Bool
match_one here c [] = false
match_one here c (t ∷ ts) = (c == b'.' || c == t) && here ts

abbrev pub is_empty : List ℕ → Bool
is_empty [] = true
is_empty (t ∷ ts) = false

unfoldable pub matchhere : List ℕ → List ℕ → Bool
unfolding matchstar
matchhere [] text = true
matchhere (c ∷ []) text = if c == b'$' then is_empty text else match_one (matchhere []) c text
matchhere (c ∷ d ∷ re) text =
    if d == star then matchstar (matchhere re) c text else match_one (matchhere (d ∷ re)) c text

-- The loop of match over the text.
unfoldable pub match_loop : List ℕ → List ℕ → Bool
unfolding matchhere
match_loop re [] = matchhere re []
match_loop re (t ∷ ts) = matchhere re (t ∷ ts) || match_loop re ts

unfoldable pub match : List ℕ → List ℕ → Bool
unfolding match_loop
match [] text = match_loop [] text
match (c ∷ re) text = if c == b'^' then matchhere re text else match_loop (c ∷ re) text

abbrev pub add_char : ℕ → Option (List ℕ × List ℕ) → Option (List ℕ × List ℕ)
add_char c none = none
add_char c (some (line, rest)) = some (c ∷ line, rest)

-- `strchr(p, '\n')`: the text before the newline and that behind it, `none` if there is none before a
-- NUL.
unfoldable pub strchr_newline : List ℕ → Option (List ℕ × List ℕ)
strchr_newline [] = none
strchr_newline (c ∷ cs) =
    if c == 0 then none else if c == 10 then some ([], cs) else add_char c (strchr_newline cs)

-- A line is written, with its newline, if it matches.
abbrev pub print_line : List ℕ → List ℕ → List ℕ
print_line pattern line = if match pattern line then line ++ 10 ∷ [] else []

-- The inner loop of grep: what it writes, and the text from `p` on.
unfoldable pub lines_loop : ℕ → List ℕ → List ℕ → List ℕ × List ℕ
lines_loop zero pattern p = ([], p)
lines_loop (suc fuel) pattern p = elim (strchr_newline p) [
  | none ↦ ([], p)
  | some (line, rest) ↦
      let (out, p') = lines_loop fuel pattern rest in (print_line pattern line ++ out, p')
]

abbrev pub is_found : Option (List ℕ × List ℕ) → Bool
is_found none = false
is_found (some r) = true

abbrev pub has_line : List ℕ → Bool
has_line p = is_found (strchr_newline p)

-- The loop over the reads, with the text that the buffer holds before each: what it writes. A buffer
-- without a newline is emptied.
unfoldable pub grep_loop : List ℕ → List ℕ → List (List ℕ) → List ℕ
grep_loop pattern held [] = []
grep_loop pattern held (chunk ∷ chunks) =
    let buf = held ++ chunk in
    let (out, rest) = lines_loop (length buf) pattern buf in
    out ++ grep_loop pattern (if has_line buf then rest else []) chunks

-- `grep` for the pieces that read returns.
abbrev pub grep : List ℕ → List (List ℕ) → List ℕ
grep pattern chunks = grep_loop pattern [] chunks
