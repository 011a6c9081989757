-- ===== src/Shell/Tokens.antt =====
-- The tokens of a command that is written with blanks between them.
use osp.Prelude.{
  ℕ, ◌≡◌, refl, true, false, List, [], ◌∷◌, ◌++◌, All, arith, ◌==◌, true≢false, ◌∙◌, ap,
}
use osp.Shell.{
  has_char, whitespace, symbols, skip_white, is_word_char, put_char, take_word, gettoken, is_one_of,
  peek,
}
use osp.Shell.Lex.{Clean}
use osp.Shell.Syntax.{Op, input, output, append, word_before, op_before, token_of, IsWord}

pub skip_white-of_Clean : (s : List ℕ) → Clean s → skip_white s ≡ s
unfolding skip_white
skip_white-of_Clean [] h = refl
skip_white-of_Clean (c ∷ s) h = rw h refl

pub peek-of_Clean : (s toks : List ℕ) → Clean s → peek s toks ≡ is_one_of toks s
unfolding peek
peek-of_Clean s toks h = ap (is_one_of toks) (skip_white-of_Clean s h)

-- The characters that can stand behind a command, a pipeline and so on.
abbrev pub behind_simple : List ℕ
behind_simple = b'|' ∷ b')' ∷ b'&' ∷ b';' ∷ []

abbrev pub behind_pipeline : List ℕ
behind_pipeline = b')' ∷ b'&' ∷ b';' ∷ []

abbrev pub behind_backs : List ℕ
behind_backs = b')' ∷ b';' ∷ []

abbrev pub behind_line : List ℕ
behind_line = b')' ∷ []

-- The text is at its end, or one of the characters is next.
abbrev pub Follows : List ℕ → List ℕ → Type 0
Follows cs [] = Unit
Follows cs (c ∷ s) = has_char cs c ≡ true

module _ (c : ℕ) where
  word_not : is_word_char c ≡ true → (has_char whitespace c ≡ false) × (has_char symbols c ≡ false)
  word_not h = (ground arith, ground arith)

  symbol_not :
      has_char symbols c ≡ false
      → (has_char (b'<' ∷ b'>' ∷ []) c ≡ false)
        × (has_char behind_simple c ≡ false)
        × (has_char (b'(' ∷ []) c ≡ false)
        × (has_char (b'|' ∷ b'(' ∷ b')' ∷ b';' ∷ b'&' ∷ b'<' ∷ []) c ≡ false)
        × ((c == b'>') ≡ false)
  unfolding has_char
  symbol_not h = (ground arith, ground arith, ground arith, ground arith, ground arith)

  behind_not :
      has_char behind_simple c ≡ true
      → (has_char whitespace c ≡ false)
        × (has_char (b'<' ∷ b'>' ∷ []) c ≡ false)
        × (has_char (b'(' ∷ []) c ≡ false)
  unfolding has_char
  behind_not h = (ground arith, ground arith, ground arith)

  pipeline_not :
      has_char behind_pipeline c ≡ true
      → (has_char behind_simple c ≡ true) × (has_char (b'|' ∷ []) c ≡ false)
  unfolding has_char
  pipeline_not h = (ground arith, ground arith)

  backs_not :
      has_char behind_backs c ≡ true
      → (has_char behind_pipeline c ≡ true) × (has_char (b'&' ∷ []) c ≡ false)
  unfolding has_char
  backs_not h = (ground arith, ground arith)

  line_not :
      has_char behind_line c ≡ true
      → (has_char behind_backs c ≡ true) × (has_char (b';' ∷ []) c ≡ false)
  unfolding has_char
  line_not h = (ground arith, ground arith)

take_word-word :
    (w s : List ℕ) → All (λ d. is_word_char d ≡ true) w → take_word (w ++ b' ' ∷ s) ≡ (w, b' ' ∷ s)
unfolding take_word has_char
take_word-word [] s h = refl
take_word-word (c ∷ w) s (h, hs) = rw h (ap (put_char c) (take_word-word w s hs))

skip_white-blank : (s : List ℕ) → Clean s → skip_white (b' ' ∷ s) ≡ s
unfolding skip_white has_char
skip_white-blank s h = skip_white-of_Clean s h

-- What word_before and op_before put in front of a clean text.
pub gettoken-word : (w s : List ℕ) → IsWord w → Clean s → gettoken (word_before w s) ≡ (b'a', w, s)
unfolding gettoken
gettoken-word [] s h k = absurd (true≢false h)
gettoken-word (c ∷ w) s (h, hs) k =
    let (white, symbol) = word_not c h in
    let (a, b, p, six, gt) = symbol_not c symbol in
    rw (skip_white-of_Clean (c ∷ (w ++ b' ' ∷ s)) white, six, gt, take_word-word (c ∷ w) s (h, hs))
      (ap (λ t. (b'a', c ∷ w, t)) (skip_white-blank s k))

-- A word is no symbol.
pub word-Clean : (w s : List ℕ) → IsWord w → Clean (word_before w s)
word-Clean [] s h = absurd (true≢false h)
word-Clean (c ∷ w) s (h, hs) = (word_not c h).0

pub peek-word :
    (w s : List ℕ)
    → IsWord w
    → (peek (word_before w s) (b'<' ∷ b'>' ∷ []) ≡ false)
      × (peek (word_before w s) behind_simple ≡ false)
      × (peek (word_before w s) (b'(' ∷ []) ≡ false)
peek-word [] s h = absurd (true≢false h)
peek-word (c ∷ w) s (h, hs) =
    let (white, symbol) = word_not c h in
    let (a, b, p, six, gt) = symbol_not c symbol in
    let t = word_before (c ∷ w) s in
    (
      peek-of_Clean t (b'<' ∷ b'>' ∷ []) white ∙ a,
      peek-of_Clean t behind_simple white ∙ b,
      peek-of_Clean t (b'(' ∷ []) white ∙ p,
    )

pub op-Clean : (op : Op) (s : List ℕ) → Clean (op_before op s)
unfolding has_char
op-Clean input s = refl
op-Clean output s = refl
op-Clean append s = refl

pub gettoken-op :
    (op : Op) (s : List ℕ)
    → Clean s
    → ((gettoken (op_before op s)).0 ≡ token_of op) × ((gettoken (op_before op s)).2 ≡ s)
unfolding gettoken skip_white has_char
gettoken-op input s h = (refl, skip_white-of_Clean s h)
gettoken-op output s h = (refl, skip_white-of_Clean s h)
gettoken-op append s h = (refl, skip_white-of_Clean s h)

pub peek-op :
    (op : Op) (s : List ℕ)
    → (peek (op_before op s) (b'<' ∷ b'>' ∷ []) ≡ true)
      × (peek (op_before op s) (b'(' ∷ []) ≡ false)
unfolding peek skip_white has_char
peek-op input s = (refl, refl)
peek-op output s = (refl, refl)
peek-op append s = (refl, refl)

-- A single symbol.
pub gettoken-bar : (s : List ℕ) → Clean s → (gettoken (b'|' ∷ b' ' ∷ s)).2 ≡ s
unfolding gettoken skip_white has_char
gettoken-bar s h = skip_white-of_Clean s h

pub gettoken-amp : (s : List ℕ) → Clean s → (gettoken (b'&' ∷ b' ' ∷ s)).2 ≡ s
unfolding gettoken skip_white has_char
gettoken-amp s h = skip_white-of_Clean s h

pub gettoken-semi : (s : List ℕ) → Clean s → (gettoken (b';' ∷ b' ' ∷ s)).2 ≡ s
unfolding gettoken skip_white has_char
gettoken-semi s h = skip_white-of_Clean s h

pub gettoken-open : (s : List ℕ) → Clean s → (gettoken (b'(' ∷ b' ' ∷ s)).2 ≡ s
unfolding gettoken skip_white has_char
gettoken-open s h = skip_white-of_Clean s h

pub gettoken-close : (s : List ℕ) → Clean s → (gettoken (b')' ∷ b' ' ∷ s)).2 ≡ s
unfolding gettoken skip_white has_char
gettoken-close s h = skip_white-of_Clean s h

-- What peek answers where a text ends.
pub Follows-simple :
    (s : List ℕ)
    → Follows behind_simple s
    → Clean s × (peek s (b'<' ∷ b'>' ∷ []) ≡ false) × (peek s (b'(' ∷ []) ≡ false)
unfolding peek skip_white
Follows-simple [] h = (tt, refl, refl)
Follows-simple (c ∷ s) h =
    let (white, a, b) = behind_not c h in
    (
      white,
      peek-of_Clean (c ∷ s) (b'<' ∷ b'>' ∷ []) white ∙ a,
      peek-of_Clean (c ∷ s) (b'(' ∷ []) white ∙ b,
    )

pub Follows-pipeline :
    (s : List ℕ)
    → Follows behind_pipeline s
    → Follows behind_simple s × (peek s (b'|' ∷ []) ≡ false)
unfolding peek skip_white
Follows-pipeline [] h = (tt, refl)
Follows-pipeline (c ∷ s) h =
    let (f, a) = pipeline_not c h in (f, peek-of_Clean (c ∷ s) (b'|' ∷ []) (behind_not c f).0 ∙ a)

pub Follows-backs :
    (s : List ℕ) → Follows behind_backs s → Follows behind_pipeline s × (peek s (b'&' ∷ []) ≡ false)
unfolding peek skip_white
Follows-backs [] h = (tt, refl)
Follows-backs (c ∷ s) h =
    let (f, a) = backs_not c h in
    (f, peek-of_Clean (c ∷ s) (b'&' ∷ []) (behind_not c (pipeline_not c f).0).0 ∙ a)

pub Follows-line :
    (s : List ℕ) → Follows behind_line s → Follows behind_backs s × (peek s (b';' ∷ []) ≡ false)
unfolding peek skip_white
Follows-line [] h = (tt, refl)
Follows-line (c ∷ s) h =
    let (f, a) = line_not c h in
    (f, peek-of_Clean (c ∷ s) (b';' ∷ []) (behind_not c (pipeline_not c (backs_not c f).0).0).0 ∙ a)
