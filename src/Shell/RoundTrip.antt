-- ===== src/Shell/RoundTrip.antt =====
-- What the syntax describes is parsed as it means.
use osp.Prelude.{
  ℕ, zero, suc, ◌+◌, ◌*◌, ◌≤◌, ◌<◌, ◌≡◌, refl, true, List, [], ◌∷◌, arith, length, subst, ap,
}
use osp.Shell.{
  Cmd, Result, ok, has_char, skip_white, peek, end_block, parseline, parsepipe, parseexec, fuel_for,
  parsecmd,
}
use osp.Shell.Lex.{Clean}
use osp.Shell.Tokens.{
  skip_white-of_Clean, behind_simple, behind_pipeline, behind_backs, behind_line, Follows,
  gettoken-bar, gettoken-semi, gettoken-open, gettoken-close, Follows-simple, Follows-pipeline,
  Follows-line,
}
use osp.Shell.Syntax.{
  Target, Simple, words, block, Pipeline, one, into, Line, last, then, show_targets, show_backs,
  show_simple, show_pipeline, show_line, nest, simple_cmd, pipeline_cmd, line_cmd, AreTargets,
  IsSimple, IsPipeline, IsLine,
}
use osp.Shell.Simple.{
  targets-Clean, parseredirs-show, parse_simple-show, words-NoParen, backs-Follows, Follows-Clean,
  backs_loop-show, wrap-nest,
}
use osp.Shell.Total.{Within, parsepipe-Within, parseexec-Within}

-- The symbols between commands.
bar_next : (s : List ℕ) → peek (b'|' ∷ b' ' ∷ s) (b'|' ∷ []) ≡ true
unfolding peek skip_white has_char
bar_next s = refl

semi_next : (s : List ℕ) → peek (b';' ∷ b' ' ∷ s) (b';' ∷ []) ≡ true
unfolding peek skip_white has_char
semi_next s = refl

open_next : (s : List ℕ) → peek (b'(' ∷ b' ' ∷ s) (b'(' ∷ []) ≡ true
unfolding peek skip_white has_char
open_next s = refl

close_next : (s : List ℕ) → peek (b')' ∷ b' ' ∷ s) (b')' ∷ []) ≡ true
unfolding peek skip_white has_char
close_next s = refl

bar-Follows : (s : List ℕ) → Follows behind_simple (b'|' ∷ s)
unfolding has_char
bar-Follows s = refl

semi-Follows : (s : List ℕ) → Follows behind_backs (b';' ∷ s)
unfolding has_char
semi-Follows s = refl

close-Follows : (s : List ℕ) → Follows behind_line (b')' ∷ s)
unfolding has_char
close-Follows s = refl

backs-le : (n : ℕ) (rest : List ℕ) → length rest ≤ length (show_backs n rest)
unfolding show_backs
backs-le zero rest = omega arith
backs-le (suc n) rest = omega (arith, backs-le n rest)

-- No blank starts a command.
mutual
  unfolding show_simple has_char IsSimple

  simple-Clean :
      (c : Simple) (rest : List ℕ)
      → IsSimple c
      → Follows behind_simple rest
      → Clean (show_simple c rest)
  simple-Clean (words ts args) rest w f = (words-NoParen ts args rest w f).0
  simple-Clean (block line ts) rest w f = refl

  pipeline-Clean :
      (p : Pipeline) (rest : List ℕ)
      → IsPipeline p
      → Follows behind_simple rest
      → Clean (show_pipeline p rest)
  pipeline-Clean (one c) rest w f = simple-Clean c rest w f
  pipeline-Clean (into c p) rest (w, wp) f =
      simple-Clean c (b'|' ∷ b' ' ∷ show_pipeline p rest) w refl

  line-Clean :
      (l : Line) (rest : List ℕ) → IsLine l → Follows behind_line rest → Clean (show_line l rest)
  line-Clean (last p n) rest w f =
      pipeline-Clean p (show_backs n rest) w
        (Follows-pipeline (show_backs n rest) (backs-Follows n rest (Follows-line rest f).0)).0
  line-Clean (then p n l) rest (w, wl) f =
      let more = b';' ∷ b' ' ∷ show_line l rest in
      pipeline-Clean p (show_backs n more) w
        (Follows-pipeline (show_backs n more) (backs-Follows n more refl)).0

-- What a parse leaves is no longer than its text.
left-le :
    (n : ℕ) (r : Result (Cmd × List ℕ)) (cmd : Cmd) (s : List ℕ)
    → r ≡ ok (cmd, s)
    → Within n r
    → length s ≤ n
left-le n r cmd s e h = subst (Within n) e h

end_block-show :
    (cmd : Cmd) (ts : List Target) (rest : List ℕ)
    → AreTargets ts
    → Follows behind_simple rest
    → end_block (cmd, b')' ∷ b' ' ∷ show_targets ts rest) ≡ ok (nest cmd ts, rest)
end_block-show cmd ts rest w f =
    let (clean, no_op, no_paren) = Follows-simple rest f in
    let s = show_targets ts rest in
    rw
      (
        close_next s,
        gettoken-close s (targets-Clean ts rest clean),
        parseredirs-show (length s + 1) ts rest w clean no_op (omega arith),
      )
      (ap (λ c. ok (c, rest)) (wrap-nest cmd ts))

mutual
  unfolding parseline show_simple simple_cmd IsSimple

  parseexec-show :
      (fuel : ℕ) (c : Simple) (rest : List ℕ)
      → IsSimple c
      → Follows behind_simple rest
      → 3 * length (show_simple c rest) < fuel
      → parseexec fuel (show_simple c rest) ≡ ok (simple_cmd c, rest)
  parseexec-show zero c rest w f h = absurd (omega arith)
  parseexec-show (suc fuel) (words ts args) rest w f h =
      let (clean, no_paren) = words-NoParen ts args rest w f in
      rw (no_paren, skip_white-of_Clean (show_simple (words ts args) rest) clean)
        (parse_simple-show ts args rest w f)
  parseexec-show (suc fuel) (block line ts) rest (w, wt) f h =
      let behind = b')' ∷ b' ' ∷ show_targets ts rest in
      let s = show_line line behind in
      rw
        (
          open_next s,
          gettoken-open s (line-Clean line behind w (close-Follows (b' ' ∷ show_targets ts rest))),
          parseline-show fuel line behind w (close-Follows (b' ' ∷ show_targets ts rest))
              (omega arith),
        )
        (end_block-show (line_cmd line) ts rest wt f)

  parsepipe-show :
      (fuel : ℕ) (p : Pipeline) (rest : List ℕ)
      → IsPipeline p
      → Follows behind_pipeline rest
      → 3 * length (show_pipeline p rest) + 1 < fuel
      → parsepipe fuel (show_pipeline p rest) ≡ ok (pipeline_cmd p, rest)
  parsepipe-show zero p rest w f h = absurd (omega arith)
  parsepipe-show (suc fuel) (one c) rest w f h =
      let (next, no_bar) = Follows-pipeline rest f in
      rw
        (
          parseexec-show fuel c rest w next (omega arith),
          no_bar,
          skip_white-of_Clean rest (Follows-simple rest next).0,
        )
        refl
  parsepipe-show (suc fuel) (into c p) rest (w, wp) f h =
      let s = show_pipeline p rest in
      let text = show_simple c (b'|' ∷ b' ' ∷ s) in
      let first =
        parseexec-show fuel c (b'|' ∷ b' ' ∷ s) w (bar-Follows (b' ' ∷ s)) (omega arith) in
      let shorter =
        left-le (length text) (parseexec fuel text) (simple_cmd c) (b'|' ∷ b' ' ∷ s) first
          (parseexec-Within fuel text (omega arith)) in
      rw
        (
          first,
          bar_next s,
          gettoken-bar s (pipeline-Clean p rest wp (Follows-pipeline rest f).0),
          parsepipe-show fuel p rest wp f (omega arith),
        )
        refl

  parseline-show :
      (fuel : ℕ) (l : Line) (rest : List ℕ)
      → IsLine l
      → Follows behind_line rest
      → 3 * length (show_line l rest) + 2 < fuel
      → parseline fuel (show_line l rest) ≡ ok (line_cmd l, rest)
  parseline-show zero l rest w f h = absurd (omega arith)
  parseline-show (suc fuel) (last p n) rest w f h =
      let (next, no_semi) = Follows-line rest f in
      let s = show_backs n rest in
      rw
        (
          parsepipe-show fuel p s w (backs-Follows n rest next) (omega arith),
          backs_loop-show (length s + 1) n (pipeline_cmd p) rest next (omega arith),
          no_semi,
          skip_white-of_Clean rest (Follows-Clean rest next),
        )
        refl
  parseline-show (suc fuel) (then p n l) rest (w, wl) f h =
      let s = show_line l rest in
      let more = b';' ∷ b' ' ∷ s in
      let text = show_pipeline p (show_backs n more) in
      let first =
        parsepipe-show fuel p (show_backs n more) w (backs-Follows n more (semi-Follows (b' ' ∷ s)))
          (omega arith) in
      let shorter =
        left-le (length text) (parsepipe fuel text) (pipeline_cmd p) (show_backs n more) first
          (parsepipe-Within fuel text (omega arith)) in
      let backs =
        backs_loop-show (length (show_backs n more) + 1) n (pipeline_cmd p) more
          (semi-Follows (b' ' ∷ s)) (omega arith) in
      let longer = backs-le n more in
      rw
        (
          first,
          backs,
          semi_next s,
          gettoken-semi s (line-Clean l rest wl f),
          parseline-show fuel l rest wl f (omega arith),
        )
        refl

-- A line of the syntax, written with blanks between its tokens, is parsed as what it means: its words and
-- redirections, pipelines, lists, background commands and blocks. Its words have at least one character,
-- no blanks and no symbols, and each command at most nine words.
pub parsecmd-show : (l : Line) → IsLine l → parsecmd (show_line l []) ≡ ok (line_cmd l)
unfolding parsecmd skip_white
parsecmd-show l w =
    let s = show_line l [] in rw (parseline-show (fuel_for s) l [] w tt (omega arith)) refl
