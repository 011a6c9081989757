-- ===== src/Shell/Syntax.antt =====
-- The commands that the syntax of the shell describes: how they are written, each token with a blank
-- behind it, and what they mean.
use osp.Prelude.{ℕ, zero, suc, ◌<◌, ◌≡◌, true, false, List, [], ◌∷◌, ◌++◌, All, length}
use osp.Shell.{maxargs, Cmd, exec, redir, pipe, list, back, is_word_char, Redir}

pub data Op : Type 0 where
  input output append : Op

-- A redirection: `<`, `>` or `>>`, and the file.
abbrev pub Target : Type 0
Target = Op × List ℕ

-- A word of a command, and the redirections behind it.
abbrev pub Arg : Type 0
Arg = List ℕ × List Target

-- A command without `|`, `&` and `;`; a pipeline; a line, with the number of `&` behind each pipeline.
mutual
  pub data Simple : Type 0 where
    words : List Target → List Arg → Simple
    block : Line → List Target → Simple

  pub data Pipeline : Type 0 where
    one : Simple → Pipeline
    into : Simple → Pipeline → Pipeline

  pub data Line : Type 0 where
    last : Pipeline → ℕ → Line
    then : Pipeline → ℕ → Line → Line

-- A word in front of a text.
abbrev pub word_before : List ℕ → List ℕ → List ℕ
word_before word rest = word ++ b' ' ∷ rest

abbrev pub op_before : Op → List ℕ → List ℕ
op_before input rest = b'<' ∷ b' ' ∷ rest
op_before output rest = b'>' ∷ b' ' ∷ rest
op_before append rest = b'>' ∷ b'>' ∷ b' ' ∷ rest

-- The text of each, in front of `rest`.
unfoldable pub show_targets : List Target → List ℕ → List ℕ
show_targets [] rest = rest
show_targets ((op, file) ∷ ts) rest = op_before op (word_before file (show_targets ts rest))

unfoldable pub show_args : List Arg → List ℕ → List ℕ
show_args [] rest = rest
show_args ((word, ts) ∷ args) rest = word_before word (show_targets ts (show_args args rest))

unfoldable pub show_backs : ℕ → List ℕ → List ℕ
show_backs zero rest = rest
show_backs (suc n) rest = b'&' ∷ b' ' ∷ show_backs n rest

unfoldable mutual
  pub show_simple : Simple → List ℕ → List ℕ
  show_simple (words ts args) rest = show_targets ts (show_args args rest)
  show_simple (block line ts) rest =
      b'(' ∷ b' ' ∷ show_line line (b')' ∷ b' ' ∷ show_targets ts rest)

  pub show_pipeline : Pipeline → List ℕ → List ℕ
  show_pipeline (one s) rest = show_simple s rest
  show_pipeline (into s p) rest = show_simple s (b'|' ∷ b' ' ∷ show_pipeline p rest)

  pub show_line : Line → List ℕ → List ℕ
  show_line (last p n) rest = show_pipeline p (show_backs n rest)
  show_line (then p n line) rest =
      show_pipeline p (show_backs n (b';' ∷ b' ' ∷ show_line line rest))

-- A command with a redirection around it: O_RDONLY on 0, or O_WRONLY|O_CREATE on 1.
abbrev pub redirected : Cmd → Target → Cmd
redirected cmd (input, file) = redir cmd file 0 0
redirected cmd (output, file) = redir cmd file 0x201 1
redirected cmd (append, file) = redir cmd file 0x201 1

-- The first redirection is the innermost.
unfoldable pub nest : Cmd → List Target → Cmd
nest cmd [] = cmd
nest cmd (t ∷ ts) = nest (redirected cmd t) ts

-- All redirections between the words.
unfoldable pub targets_between : List Arg → List Target
targets_between [] = []
targets_between ((word, ts) ∷ args) = ts ++ targets_between args

-- What gettoken returns for a redirection.
abbrev pub token_of : Op → ℕ
token_of input = b'<'
token_of output = b'>'
token_of append = b'+'

unfoldable pub redirs_of : List Target → List Redir
redirs_of [] = []
redirs_of ((op, file) ∷ ts) = (token_of op, file) ∷ redirs_of ts

unfoldable pub words_of : List Arg → List (List ℕ)
words_of [] = []
words_of ((word, ts) ∷ args) = word ∷ words_of args

unfoldable pub redirs_between : List Arg → List Redir
redirs_between [] = []
redirs_between ((word, ts) ∷ args) = redirs_of ts ++ redirs_between args

unfoldable pub in_back : ℕ → Cmd → Cmd
in_back zero cmd = cmd
in_back (suc n) cmd = in_back n (back cmd)

unfoldable mutual
  pub simple_cmd : Simple → Cmd
  simple_cmd (words ts args) = nest (exec (words_of args)) (ts ++ targets_between args)
  simple_cmd (block line ts) = nest (line_cmd line) ts

  pub pipeline_cmd : Pipeline → Cmd
  pipeline_cmd (one s) = simple_cmd s
  pipeline_cmd (into s p) = pipe (simple_cmd s) (pipeline_cmd p)

  pub line_cmd : Line → Cmd
  line_cmd (last p n) = in_back n (pipeline_cmd p)
  line_cmd (then p n line) = list (in_back n (pipeline_cmd p)) (line_cmd line)

-- At least one character, and neither blanks nor symbols.
abbrev pub IsWord : List ℕ → Type 0
IsWord [] = true ≡ false
IsWord (c ∷ word) = (is_word_char c ≡ true) × All (λ d. is_word_char d ≡ true) word

abbrev pub AreTargets : List Target → Type 0
AreTargets ts = All (λ t. IsWord t.1) ts

abbrev pub AreArgs : List Arg → Type 0
AreArgs args = All (λ a. IsWord a.0 × AreTargets a.1) args

unfoldable mutual
  pub IsSimple : Simple → Type 0
  IsSimple (words ts args) = AreTargets ts × AreArgs args × (length args < maxargs)
  IsSimple (block line ts) = IsLine line × AreTargets ts

  pub IsPipeline : Pipeline → Type 0
  IsPipeline (one s) = IsSimple s
  IsPipeline (into s p) = IsSimple s × IsPipeline p

  pub IsLine : Line → Type 0
  IsLine (last p n) = IsPipeline p
  IsLine (then p n line) = IsPipeline p × IsLine line
