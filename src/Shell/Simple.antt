-- ===== src/Shell/Simple.antt =====
-- The words and redirections of a command are parsed as they are written.
use osp.Prelude.{
  ℕ, zero, suc, ◌+◌, ◌≤◌, ◌<◌, ◌≡◌, refl, true, false, List, [], ◌∷◌, arith, leb, length,
  length-append, ◌++◌, ap, sym, ◌∙◌,
}
use osp.Shell.{
  maxargs, Cmd, exec, redir, wrap, back, ok, has_char, skip_white, gettoken, peek, parseredirs,
  args_loop, backs_loop, parse_simple,
}
use osp.Shell.Lex.{Clean}
use osp.Shell.Tokens.{
  skip_white-of_Clean, behind_simple, behind_pipeline, behind_backs, Follows, gettoken-word,
  word-Clean, peek-word, op-Clean, gettoken-op, peek-op, gettoken-amp, Follows-simple,
  Follows-pipeline, Follows-backs,
}
use osp.Shell.Syntax.{
  Op, input, output, append, Target, Arg, words, word_before, op_before, show_targets, show_args,
  show_backs, show_simple, redirs_of, words_of, redirs_between, in_back, simple_cmd, AreTargets,
  AreArgs, IsSimple, token_of, nest, targets_between,
}

word-lt : (w s : List ℕ) → length s < length (word_before w s)
word-lt w s = omega (arith, length-append w (b' ' ∷ s))

op-lt : (op : Op) (s : List ℕ) → length s < length (op_before op s)
op-lt input s = omega arith
op-lt output s = omega arith
op-lt append s = omega arith

pub targets-Clean : (ts : List Target) (rest : List ℕ) → Clean rest → Clean (show_targets ts rest)
unfolding show_targets
targets-Clean [] rest h = h
targets-Clean ((op, file) ∷ ts) rest h = op-Clean op (word_before file (show_targets ts rest))

targets-le : (ts : List Target) (rest : List ℕ) → length rest ≤ length (show_targets ts rest)
unfolding show_targets
targets-le [] rest = omega arith
targets-le ((op, file) ∷ ts) rest =
    let s2 = show_targets ts rest in
    omega (arith, targets-le ts rest, word-lt file s2, op-lt op (word_before file s2))

pub parseredirs-show :
    (fuel : ℕ) (ts : List Target) (rest : List ℕ)
    → AreTargets ts
    → Clean rest
    → peek rest (b'<' ∷ b'>' ∷ []) ≡ false
    → length (show_targets ts rest) < fuel
    → parseredirs fuel (show_targets ts rest) ≡ ok (redirs_of ts, rest)
unfolding parseredirs show_targets redirs_of
parseredirs-show zero ts rest w k p h = absurd (omega arith)
parseredirs-show (suc fuel) [] rest w k p h = rw (p, skip_white-of_Clean rest k) refl
parseredirs-show (suc fuel) ((op, file) ∷ ts) rest (w, ws) k p h =
    let s2 = show_targets ts rest in
    let clean = targets-Clean ts rest k in
    let (tok, behind) = gettoken-op op (word_before file s2) (word-Clean file s2 w) in
    rw
      (
        (peek-op op (word_before file s2)).0,
        behind,
        gettoken-word file s2 w clean,
        tok,
        parseredirs-show fuel ts rest ws k p
            (omega (arith, h, word-lt file s2, op-lt op (word_before file s2))),
      )
      refl

-- What can stand where a redirection could.
abbrev NoOp : List ℕ → Type 0
NoOp s = Clean s × (peek s (b'<' ∷ b'>' ∷ []) ≡ false) × (peek s (b'(' ∷ []) ≡ false)

args-NoOp :
    (args : List Arg) (rest : List ℕ) → AreArgs args → NoOp rest → NoOp (show_args args rest)
unfolding show_args
args-NoOp [] rest w h = h
args-NoOp ((word, ts) ∷ args) rest ((w, wt), ws) h =
    let s = show_targets ts (show_args args rest) in
    let (a, b, c) = peek-word word s w in (word-Clean word s w, a, c)

-- The end of a command.
args_loop_end :
    (fuel argc : ℕ) (rest : List ℕ)
    → Follows behind_simple rest
    → args_loop (suc fuel) argc rest ≡ ok ([], [], rest)
unfolding args_loop peek skip_white gettoken
args_loop_end fuel argc [] h = refl
args_loop_end fuel argc (c ∷ rest) h =
    let white = (Follows-simple (c ∷ rest) h).0 in rw (skip_white-of_Clean (c ∷ rest) white, h) refl

args_loop-show :
    (fuel argc : ℕ) (args : List Arg) (rest : List ℕ)
    → AreArgs args
    → Follows behind_simple rest
    → argc + length args < maxargs
    → length (show_args args rest) < fuel
    → args_loop fuel argc (show_args args rest) ≡ ok (words_of args, redirs_between args, rest)
unfolding args_loop show_args words_of redirs_between
args_loop-show zero argc args rest w f few h = absurd (omega arith)
args_loop-show (suc fuel) argc [] rest w f few h = args_loop_end fuel argc rest f
args_loop-show (suc fuel) argc ((word, ts) ∷ args) rest ((w, wt), ws) f few h =
    let s2 = show_args args rest in
    let (clean, no_op, no_paren) = args-NoOp args rest ws (Follows-simple rest f) in
    let s1 = show_targets ts s2 in
    let room : leb maxargs (argc + 1) ≡ false = ground arith in
    let lexed = gettoken-word word s1 w (targets-Clean ts s2 clean) in
    let shorter = word-lt word s1 in
    let read = parseredirs-show (length s1 + 1) ts s2 wt clean no_op (omega arith) in
    let longer = targets-le ts s2 in
    rw
      (
        (peek-word word s1 w).1,
        lexed,
        room,
        read,
        args_loop-show fuel (argc + 1) args rest ws f (omega arith) (omega arith),
      )
      refl

pub wrap-nest : (cmd : Cmd) (ts : List Target) → wrap cmd (redirs_of ts) ≡ nest cmd ts
unfolding wrap redirs_of nest
wrap-nest cmd [] = refl
wrap-nest cmd ((input, file) ∷ ts) = wrap-nest (redir cmd file 0 0) ts
wrap-nest cmd ((output, file) ∷ ts) = wrap-nest (redir cmd file 0x201 1) ts
wrap-nest cmd ((append, file) ∷ ts) = wrap-nest (redir cmd file 0x201 1) ts

redirs_of-append : (ts us : List Target) → redirs_of (ts ++ us) ≡ redirs_of ts ++ redirs_of us
unfolding redirs_of
redirs_of-append [] us = refl
redirs_of-append ((op, file) ∷ ts) us = ap (◌∷◌ (token_of op, file)) (redirs_of-append ts us)

redirs_between-targets_between :
    (args : List Arg) → redirs_between args ≡ redirs_of (targets_between args)
unfolding redirs_of redirs_between targets_between
redirs_between-targets_between [] = refl
redirs_between-targets_between ((word, ts) ∷ args) =
    ap (λ r. redirs_of ts ++ r) (redirs_between-targets_between args)
    ∙ sym (redirs_of-append ts (targets_between args))

wrap-words :
    (cmd : Cmd) (ts : List Target) (args : List Arg)
    → wrap cmd (redirs_of ts ++ redirs_between args) ≡ nest cmd (ts ++ targets_between args)
wrap-words cmd ts args =
    ap (λ r. wrap cmd (redirs_of ts ++ r)) (redirs_between-targets_between args)
    ∙ ap (wrap cmd) (sym (redirs_of-append ts (targets_between args)))
    ∙ wrap-nest cmd (ts ++ targets_between args)

pub parse_simple-show :
    (ts : List Target) (args : List Arg) (rest : List ℕ)
    → IsSimple (words ts args)
    → Follows behind_simple rest
    → parse_simple (show_simple (words ts args) rest) ≡ ok (simple_cmd (words ts args), rest)
unfolding show_simple simple_cmd IsSimple
parse_simple-show ts args rest (wt, ws, few) f =
    let s1 = show_args args rest in
    let (clean, no_op, no_paren) = args-NoOp args rest ws (Follows-simple rest f) in
    rw
      (
        parseredirs-show (length (show_targets ts s1) + 1) ts s1 wt clean no_op (omega arith),
        args_loop-show (length s1 + 1) 0 args rest ws f (omega arith) (omega arith),
      )
      (ap (λ c. ok (c, rest)) (wrap-words (exec (words_of args)) ts args))

-- What starts no block.
pub words-NoParen :
    (ts : List Target) (args : List Arg) (rest : List ℕ)
    → IsSimple (words ts args)
    → Follows behind_simple rest
    → Clean (show_simple (words ts args) rest)
      × (peek (show_simple (words ts args) rest) (b'(' ∷ []) ≡ false)
unfolding show_simple show_targets IsSimple
words-NoParen [] args rest (wt, ws, few) f =
    let (clean, no_op, no_paren) = args-NoOp args rest ws (Follows-simple rest f) in
    (clean, no_paren)
words-NoParen ((op, file) ∷ ts) args rest (wt, ws, few) f =
    let s = word_before file (show_targets ts (show_args args rest)) in
    (op-Clean op s, (peek-op op s).1)

pub backs-Clean : (n : ℕ) (rest : List ℕ) → Clean rest → Clean (show_backs n rest)
unfolding show_backs has_char
backs-Clean zero rest h = h
backs-Clean (suc n) rest h = refl

pub backs-Follows :
    (n : ℕ) (rest : List ℕ)
    → Follows behind_backs rest
    → Follows behind_pipeline (show_backs n rest)
unfolding show_backs has_char
backs-Follows zero rest h = (Follows-backs rest h).0
backs-Follows (suc n) rest h = refl

pub Follows-Clean : (rest : List ℕ) → Follows behind_backs rest → Clean rest
Follows-Clean rest h = (Follows-simple rest (Follows-pipeline rest (Follows-backs rest h).0).0).0

amp_next : (s : List ℕ) → peek (b'&' ∷ b' ' ∷ s) (b'&' ∷ []) ≡ true
unfolding peek skip_white has_char
amp_next s = refl

pub backs_loop-show :
    (fuel n : ℕ) (cmd : Cmd) (rest : List ℕ)
    → Follows behind_backs rest
    → length (show_backs n rest) < fuel
    → backs_loop fuel cmd (show_backs n rest) ≡ ok (in_back n cmd, rest)
unfolding backs_loop show_backs in_back
backs_loop-show zero n cmd rest f h = absurd (omega arith)
backs_loop-show (suc fuel) zero cmd rest f h =
    rw ((Follows-backs rest f).1, skip_white-of_Clean rest (Follows-Clean rest f)) refl
backs_loop-show (suc fuel) (suc n) cmd rest f h =
    let s = show_backs n rest in
    rw (amp_next s, gettoken-amp s (backs-Clean n rest (Follows-Clean rest f)))
      (backs_loop-show fuel n (back cmd) rest f (omega arith))
