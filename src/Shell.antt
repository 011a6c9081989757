-- ===== src/Shell.antt =====
-- xv6-public/sh.c: the parser of the shell. A string is the list of its characters, without the NUL
-- behind them. A word of a command is the list of the characters between its two pointers, as it is
-- when nulterminate has written the NULs.
pub mod Syntax
pub mod Lex
pub mod Total
pub mod Tokens
pub mod Simple
pub mod RoundTrip
use osp.Prelude.{
  ℕ, zero, suc, ◌+◌, ◌*◌, Bool, true, false, not, ◌&&◌, ◌||◌, List, [], ◌∷◌, ◌++◌, ltb, leb, ◌==◌,
  if◌then◌else◌, length,
}

abbrev pub maxargs : ℕ
maxargs = 10

-- `struct cmd` and its kinds.
pub data Cmd : Type 0 where
  exec : List (List ℕ) → Cmd
  redir : Cmd → List ℕ → ℕ → ℕ → Cmd
  pipe : Cmd → Cmd → Cmd
  list : Cmd → Cmd → Cmd
  back : Cmd → Cmd

-- `panic` ends the process; `no_fuel` is the model's own.
pub data Result {ℓ} (A : Type ℓ) : Type ℓ where
  ok : A → Result A
  panic : Result A
  no_fuel : Result A

-- `strchr(chars, c)`.
unfoldable pub has_char : List ℕ → ℕ → Bool
has_char [] c = false
has_char (d ∷ chars) c = d == c || has_char chars c

abbrev pub whitespace : List ℕ
whitespace = b' ' ∷ 9 ∷ 13 ∷ 10 ∷ 11 ∷ []

abbrev pub symbols : List ℕ
symbols = b'<' ∷ b'|' ∷ b'>' ∷ b'&' ∷ b';' ∷ b'(' ∷ b')' ∷ []

-- `while(s < es && strchr(whitespace, *s)) s++`.
unfoldable pub skip_white : List ℕ → List ℕ
skip_white [] = []
skip_white (c ∷ s) = let rest = skip_white s in if has_char whitespace c then rest else c ∷ s

abbrev pub put_char : ℕ → List ℕ × List ℕ → List ℕ × List ℕ
put_char c (word, rest) = (c ∷ word, rest)

abbrev pub is_word_char : ℕ → Bool
is_word_char c = not (has_char whitespace c) && not (has_char symbols c)

-- `while(s < es && !strchr(whitespace, *s) && !strchr(symbols, *s)) s++`.
unfoldable pub take_word : List ℕ → List ℕ × List ℕ
take_word [] = ([], [])
take_word (c ∷ s) = let r = take_word s in if is_word_char c then put_char c r else ([], c ∷ s)

abbrev pub starts_with : ℕ → List ℕ → Bool
starts_with c [] = false
starts_with c (d ∷ s) = d == c

abbrev pub tail : List ℕ → List ℕ
tail [] = []
tail (c ∷ s) = s

-- The `switch` of gettoken: what it returns, the word, and the text behind.
abbrev pub token_at : List ℕ → ℕ × List ℕ × List ℕ
token_at [] = (0, [], [])
token_at (c ∷ s) =
    if has_char (b'|' ∷ b'(' ∷ b')' ∷ b';' ∷ b'&' ∷ b'<' ∷ []) c
    then (c, c ∷ [], s)
    else if c == b'>'
    then (if starts_with b'>' s then (b'+', b'>' ∷ b'>' ∷ [], tail s) else (b'>', b'>' ∷ [], s))
    else (let (word, rest) = take_word (c ∷ s) in (b'a', word, rest))

abbrev pub skip_behind : ℕ × List ℕ × List ℕ → ℕ × List ℕ × List ℕ
skip_behind (tok, word, rest) = (tok, word, skip_white rest)

unfoldable pub gettoken : List ℕ → ℕ × List ℕ × List ℕ
gettoken s = skip_behind (token_at (skip_white s))

abbrev pub is_one_of : List ℕ → List ℕ → Bool
is_one_of toks [] = false
is_one_of toks (c ∷ s) = has_char toks c

-- The answer of peek; it leaves the text that skip_white leaves.
unfoldable pub peek : List ℕ → List ℕ → Bool
peek s toks = is_one_of toks (skip_white s)

-- One round of the loop of parseredirs. The flags are O_RDONLY, and O_WRONLY|O_CREATE also for `>>`.
abbrev pub redirect : Cmd → ℕ → List ℕ → Cmd
redirect cmd tok file =
    if tok == b'<'
    then redir cmd file 0 0
    else if tok == b'>' || tok == b'+'
    then redir cmd file 0x201 1
    else cmd

-- A redirection that has been read: the token and the file.
abbrev pub Redir : Type 0
Redir = ℕ × List ℕ

-- The redirections around a command, the first innermost.
unfoldable pub wrap : Cmd → List Redir → Cmd
wrap cmd [] = cmd
wrap cmd ((tok, file) ∷ redirs) = wrap (redirect cmd tok file) redirs

abbrev pub add_redir : Redir → Result (List Redir × List ℕ) → Result (List Redir × List ℕ)
add_redir r (ok (redirs, s)) = ok (r ∷ redirs, s)
add_redir r panic = panic
add_redir r no_fuel = no_fuel

-- The redirections that parseredirs puts around its command, and the text behind them.
unfoldable pub parseredirs : ℕ → List ℕ → Result (List Redir × List ℕ)
parseredirs zero s = no_fuel
parseredirs (suc fuel) s =
    let (tok, t0, s1) = gettoken s in
    let (kind, file, s2) = gettoken s1 in
    let more = parseredirs fuel s2 in
    if not (peek s (b'<' ∷ b'>' ∷ []))
    then ok ([], skip_white s)
    else if not (kind == b'a')
    then panic
    else add_redir (tok, file) more

abbrev pub ◌>>=◌ {ℓ κ} : {A : Type ℓ} {B : Type κ} → Result A → (A → Result B) → Result B
ok a >>= f = f a
panic >>= f = panic
no_fuel >>= f = no_fuel

infixl 1 ◌>>=◌
-- The loop of parseexec, with `argc` words so far: the words, and all redirections between them.
unfoldable pub args_loop : ℕ → ℕ → List ℕ → Result (List (List ℕ) × List Redir × List ℕ)
args_loop zero argc s = no_fuel
args_loop (suc fuel) argc s =
    let (tok, word, s1) = gettoken s in
    let more = parseredirs (length s1 + 1) s1 >>= λ (redirs, s2).
    args_loop fuel (argc + 1) s2 >>= λ (words, later, s3). ok (word ∷ words, redirs ++ later, s3) in
    if peek s (b'|' ∷ b')' ∷ b'&' ∷ b';' ∷ [])
    then ok ([], [], skip_white s)
    else if tok == 0
    then ok ([], [], s1)
    else if not (tok == b'a') || leb maxargs (argc + 1)
    then panic
    else more

-- `while(peek(ps, es, "&"))` of parseline.
unfoldable pub backs_loop : ℕ → Cmd → List ℕ → Result (Cmd × List ℕ)
backs_loop zero cmd s = no_fuel
backs_loop (suc fuel) cmd s =
    let (tok, t0, s1) = gettoken s in
    let more = backs_loop fuel (back cmd) s1 in
    if peek s (b'&' ∷ []) then more else ok (cmd, skip_white s)

-- parseexec when no `(` is next.
abbrev pub parse_simple : List ℕ → Result (Cmd × List ℕ)
parse_simple s = parseredirs (length s + 1) s >>= λ (redirs, s1).
    args_loop (length s1 + 1) 0 s1 >>= λ (words, later, s2).
    ok (wrap (exec words) (redirs ++ later), s2)

-- The part of parseblock behind its parseline.
abbrev pub end_block : Cmd × List ℕ → Result (Cmd × List ℕ)
end_block (cmd, s) =
    let (tok, t0, s1) = gettoken s in
    if not (peek s (b')' ∷ []))
    then panic
    else (parseredirs (length s1 + 1) s1 >>= λ (redirs, s2). ok (wrap cmd redirs, s2))

unfoldable mutual
  pub parseline : ℕ → List ℕ → Result (Cmd × List ℕ)
  parseline zero s = no_fuel
  parseline (suc fuel) s = parsepipe fuel s >>= λ (cmd, s1).
      backs_loop (length s1 + 1) cmd s1 >>= λ (left, s2).
      let (tok, t0, s3) = gettoken s2 in
      let more = parseline fuel s3 >>= λ (right, s4). ok (list left right, s4) in
      if peek s2 (b';' ∷ []) then more else ok (left, skip_white s2)

  pub parsepipe : ℕ → List ℕ → Result (Cmd × List ℕ)
  parsepipe zero s = no_fuel
  parsepipe (suc fuel) s = parseexec fuel s >>= λ (left, s1).
      let (tok, t0, s2) = gettoken s1 in
      let more = parsepipe fuel s2 >>= λ (right, s3). ok (pipe left right, s3) in
      if peek s1 (b'|' ∷ []) then more else ok (left, skip_white s1)

  -- parseexec, with parseblock.
  pub parseexec : ℕ → List ℕ → Result (Cmd × List ℕ)
  parseexec zero s = no_fuel
  parseexec (suc fuel) s =
      let (tok, t0, s1) = gettoken s in
      let block = parseline fuel s1 >>= λ r. end_block r in
      if peek s (b'(' ∷ []) then block else parse_simple (skip_white s)

-- Three calls lie between two characters that are read.
abbrev pub fuel_for : List ℕ → ℕ
fuel_for s = 3 * length s + 3

abbrev pub at_end : Cmd × List ℕ → Result Cmd
at_end (cmd, s) = if leb 1 (length (skip_white s)) then panic else ok cmd

unfoldable pub parsecmd : List ℕ → Result Cmd
parsecmd s = parseline (fuel_for s) s >>= λ r. at_end r
