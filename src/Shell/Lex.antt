-- ===== src/Shell/Lex.antt =====
-- gettoken and peek: how much of the text they leave.
use osp.Prelude.{
  ℕ, ◌≤◌, ◌<◌, ◌≡◌, refl, ◌⊎◌, inl, inr, true, false, List, [], ◌∷◌, arith, ◌==◌, length,
  Bool-cases, true≢false, ◌∙◌, sym, ap,
}
use osp.Shell.{
  has_char, whitespace, skip_white, is_word_char, take_word, starts_with, tail, token_at, gettoken,
  is_one_of, peek,
}

-- No blank is next.
abbrev pub Clean : List ℕ → Type 0
Clean [] = Unit
Clean (c ∷ s) = has_char whitespace c ≡ false

pub skip_white-le : (s : List ℕ) → length (skip_white s) ≤ length s
unfolding skip_white
skip_white-le [] = omega arith
skip_white-le (c ∷ s) = elim (Bool-cases (has_char whitespace c)) [
  | inl y ↦ rw y (omega (arith, skip_white-le s))
  | inr n ↦ rw n (omega arith)
]

pub skip_white-Clean : (s : List ℕ) → Clean (skip_white s)
unfolding skip_white
skip_white-Clean [] = tt
skip_white-Clean (c ∷ s) = elim (Bool-cases (has_char whitespace c)) [
  | inl y ↦ rw y (skip_white-Clean s)
  | inr n ↦ rw n n
]

take_word-le : (s : List ℕ) → length (take_word s).1 ≤ length s
unfolding take_word
take_word-le [] = omega arith
take_word-le (c ∷ s) = elim (Bool-cases (is_word_char c)) [
  | inl y ↦ rw y (omega (arith, take_word-le s))
  | inr n ↦ rw n (omega arith)
]

tail-le : (s : List ℕ) → length (tail s) ≤ length s
tail-le [] = omega arith
tail-le (c ∷ s) = omega arith

-- A character that is neither a blank nor a symbol starts a word.
word_first :
    (c : ℕ)
    → has_char whitespace c ≡ false
    → has_char (b'|' ∷ b'(' ∷ b')' ∷ b';' ∷ b'&' ∷ b'<' ∷ []) c ≡ false
    → (c == b'>') ≡ false
    → is_word_char c ≡ true
unfolding has_char
word_first c w s g = ground arith

token_at-lt :
    (c : ℕ) (s : List ℕ) → has_char whitespace c ≡ false → length (token_at (c ∷ s)).2 ≤ length s
unfolding take_word
token_at-lt c s w = elim (Bool-cases (has_char (b'|' ∷ b'(' ∷ b')' ∷ b';' ∷ b'&' ∷ b'<' ∷ []) c)) [
  | inl y ↦ rw y (omega arith)
  | inr n ↦ rw n (elim (Bool-cases (c == b'>')) [
    | inl g ↦ rw g (elim (Bool-cases (starts_with b'>' s)) [
      | inl d ↦ rw d (tail-le s)
      | inr e ↦ rw e (omega arith)
    ])
    | inr m ↦ rw (m, word_first c w n m) (take_word-le s)
  ])
]

token_step : (s : List ℕ) → Clean s → (s ≡ []) ⊎ (length (token_at s).2 < length s)
token_step [] h = inl refl
token_step (c ∷ s) h = inr (omega (arith, token_at-lt c s h))

-- gettoken is at the end of the text, or reads something.
pub gettoken_step : (s : List ℕ) → (skip_white s ≡ []) ⊎ (length (gettoken s).2 < length s)
unfolding gettoken
gettoken_step s = elim (token_step (skip_white s) (skip_white-Clean s)) [
  | inl e ↦ inl e
  | inr l ↦ inr (omega (arith, l, skip_white-le s, skip_white-le (token_at (skip_white s)).2))
]

pub gettoken_end : (s : List ℕ) → skip_white s ≡ [] → gettoken s ≡ (0, [], [])
unfolding gettoken skip_white
gettoken_end s e = rw e refl

pub gettoken-le : (s : List ℕ) → length (gettoken s).2 ≤ length s
gettoken-le s = elim (gettoken_step s) [
  | inl e ↦ omega (arith, ap (λ t. length t.2) (gettoken_end s e))
  | inr l ↦ omega arith
]

pub peek-lt : (s toks : List ℕ) → peek s toks ≡ true → length (gettoken s).2 < length s
unfolding peek
peek-lt s toks p = elim (gettoken_step s) [
  | inl e ↦ absurd (true≢false (sym p ∙ ap (is_one_of toks) e))
  | inr l ↦ l
]

pub token-lt : (s : List ℕ) → ((gettoken s).0 == 0) ≡ false → length (gettoken s).2 < length s
token-lt s n = elim (gettoken_step s) [
  | inl e ↦ absurd (true≢false (ap (λ t. t.0 == 0) (sym (gettoken_end s e)) ∙ n))
  | inr l ↦ l
]
