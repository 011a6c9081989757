-- ===== src/Grep/Match.antt =====
-- The matcher against what an expression means.
use osp.Prelude.{
  ℕ, ◌≡◌, refl, ◌↔◌, inl, inr, Bool, true, false, ◌&&◌, ◌||◌, List, [], ◌∷◌, ◌++◌, All, arith, ◌==◌,
  if◌then◌else◌, Bool-cases, ◌∙◌, sym, ap, true≢false,
}
use osp.Grep.{star, matchstar, match_one, is_empty, matchhere, match_loop, match}

-- A character of the text is one that `c` stands for.
abbrev pub Fits : ℕ → ℕ → Type 0
Fits c t = (c == b'.' || c == t) ≡ true

-- The text starts with what is left of an expression behind a star: any number of characters that
-- fit, then the rest.
abbrev pub Repeats : (List ℕ → Type 0) → ℕ → List ℕ → Type 0
Repeats Rest c text =
    (run : List ℕ) × (rest : List ℕ) × (text ≡ run ++ rest) × All (Fits c) run × Rest rest

abbrev pub One : (List ℕ → Type 0) → ℕ → List ℕ → Type 0
One Rest c text = (t : ℕ) × (rest : List ℕ) × (text ≡ t ∷ rest) × Fits c t × Rest rest

-- The text starts with something that the expression stands for.
abbrev pub Starts : List ℕ → List ℕ → Type 0
Starts [] text = Unit
Starts (c ∷ []) text = if c == b'$' then (text ≡ []) else One (Starts []) c text
Starts (c ∷ d ∷ re) text =
    if d == star then Repeats (Starts re) c text else One (Starts (d ∷ re)) c text

-- `^` asks for the start of the text; elsewhere any part of the text will do.
abbrev pub Somewhere : List ℕ → List ℕ → Type 0
Somewhere re text = (skipped : List ℕ) × (rest : List ℕ) × (text ≡ skipped ++ rest) × Starts re rest

abbrev pub Finds : List ℕ → List ℕ → Type 0
Finds [] text = Somewhere [] text
Finds (c ∷ re) text = if c == b'^' then Starts re text else Somewhere (c ∷ re) text

both_true : (a b : Bool) → (a && b) ≡ true → (a ≡ true) × (b ≡ true)
both_true true b h = (refl, h)
both_true false b h = absurd (true≢false (sym h))

-- matchstar's own test of a character.
fits_iff : (c t : ℕ) → (t == c || c == b'.') ≡ (c == b'.' || c == t)
fits_iff c t = ground arith

cons_inj : {t u : ℕ} {ts us : List ℕ} → (t ∷ ts) ≡ (u ∷ us) → (t ≡ u) × (ts ≡ us)
cons_inj e = (cc, cc)

module _ (here : List ℕ → Bool) (Rest : List ℕ → Type 0) (c : ℕ)
    (same : (text : List ℕ) → (here text ≡ true) ↔ Rest text) where
  matchstar-to : (text : List ℕ) → matchstar here c text ≡ true → Repeats Rest c text
  unfolding matchstar
  matchstar-to [] h = ([], [], refl, tt, (same []).0 h)
  matchstar-to (t ∷ ts) h = elim (Bool-cases (here (t ∷ ts))) [
    | inl y ↦ ([], t ∷ ts, refl, tt, (same (t ∷ ts)).0 y)
    | inr n ↦
        let more = rw n at h in
        let (f, again) = both_true (t == c || c == b'.') (matchstar here c ts) more in
        let (run, rest, e, a, r) = matchstar-to ts again in
        (t ∷ run, rest, ap (λ l. t ∷ l) e, (sym (fits_iff c t) ∙ f, a), r)
  ]

  matchstar-of :
      (run rest : List ℕ) → All (Fits c) run → Rest rest → matchstar here c (run ++ rest) ≡ true
  unfolding matchstar
  matchstar-of [] [] a r = (same []).1 r
  matchstar-of [] (t ∷ ts) a r = let y = (same (t ∷ ts)).1 r in rw y
  matchstar-of (t ∷ run) rest a r =
      let f : (t == c || c == b'.') ≡ true = fits_iff c t ∙ a.0 in
      let again = matchstar-of run rest a.1 r in
      elim (Bool-cases (here (t ∷ (run ++ rest)))) [ inl y ↦ rw y | inr n ↦ rw (n, f, again) ]

  pub matchstar_iff : (text : List ℕ) → (matchstar here c text ≡ true) ↔ Repeats Rest c text
  matchstar_iff text = (
    matchstar-to text,
    λ (run, rest, e, a, r). ap (matchstar here c) e ∙ matchstar-of run rest a r,
  )

  pub match_one_iff : (text : List ℕ) → (match_one here c text ≡ true) ↔ One Rest c text
  match_one_iff [] = (λ h. absurd (true≢false (sym h)), λ (t, rest, e, f, r). cc)
  match_one_iff (t ∷ ts) = (
    λ h.
        let (f, r) = both_true (c == b'.' || c == t) (here ts) h in (t, ts, refl, f, (same ts).0 r),
    λ (u, rest, e, f, r).
        let (eu, er) = cons_inj e in
        let g : (c == b'.' || c == t) ≡ true = rw eu f in
        let y : here ts ≡ true = rw er ((same rest).1 r) in rw (g, y),
  )

empty_iff : (text : List ℕ) → (is_empty text ≡ true) ↔ (text ≡ [])
empty_iff [] = (λ _. refl, λ _. refl)
empty_iff (t ∷ ts) = (λ h. absurd (true≢false (sym h)), λ e. cc)

if_iff :
    (b x y : Bool) (P Q : Type 0)
    → (x ≡ true) ↔ P
    → (y ≡ true) ↔ Q
    → ((if b then x else y) ≡ true) ↔ (if b then P else Q)
if_iff true x y P Q p q = p
if_iff false x y P Q p q = q

pub matchhere_iff : (re text : List ℕ) → (matchhere re text ≡ true) ↔ Starts re text
unfolding matchhere
matchhere_iff [] text = (λ _. tt, λ _. refl)
matchhere_iff (c ∷ []) text =
    if_iff (c == b'$') (is_empty text) (match_one (matchhere []) c text) (text ≡ [])
      (One (Starts []) c text) (empty_iff text)
      (match_one_iff (matchhere []) (Starts []) c (matchhere_iff []) text)
matchhere_iff (c ∷ d ∷ re) text =
    if_iff (d == star) (matchstar (matchhere re) c text) (match_one (matchhere (d ∷ re)) c text)
      (Repeats (Starts re) c text) (One (Starts (d ∷ re)) c text)
      (matchstar_iff (matchhere re) (Starts re) c (matchhere_iff re) text)
      (match_one_iff (matchhere (d ∷ re)) (Starts (d ∷ re)) c (matchhere_iff (d ∷ re)) text)

match_loop-to : (re text : List ℕ) → match_loop re text ≡ true → Somewhere re text
unfolding match_loop
match_loop-to re [] h = ([], [], refl, (matchhere_iff re []).0 h)
match_loop-to re (t ∷ ts) h = elim (Bool-cases (matchhere re (t ∷ ts))) [
  | inl y ↦ ([], t ∷ ts, refl, (matchhere_iff re (t ∷ ts)).0 y)
  | inr n ↦
      let (skipped, rest, e, st) = match_loop-to re ts (rw n at h) in
      (t ∷ skipped, rest, ap (λ l. t ∷ l) e, st)
]

match_loop-of : (re skipped rest : List ℕ) → Starts re rest → match_loop re (skipped ++ rest) ≡ true
unfolding match_loop
match_loop-of re [] [] st = (matchhere_iff re []).1 st
match_loop-of re [] (t ∷ ts) st = let y = (matchhere_iff re (t ∷ ts)).1 st in rw y
match_loop-of re (t ∷ skipped) rest st =
    let more = match_loop-of re skipped rest st in
    elim (Bool-cases (matchhere re (t ∷ (skipped ++ rest)))) [ inl y ↦ rw y | inr n ↦ rw (n, more) ]

match_loop_iff : (re text : List ℕ) → (match_loop re text ≡ true) ↔ Somewhere re text
match_loop_iff re text = (
  match_loop-to re text,
  λ (skipped, rest, e, st). ap (match_loop re) e ∙ match_loop-of re skipped rest st,
)

-- grep's matcher says that a text matches exactly if the expression stands for some part of it, which
-- is at its start after `^`, and at its end before `$`; a star is any number of repetitions.
pub match_iff : (re text : List ℕ) → (match re text ≡ true) ↔ Finds re text
unfolding match
match_iff [] text = match_loop_iff [] text
match_iff (c ∷ re) text =
    if_iff (c == b'^') (matchhere re text) (match_loop (c ∷ re) text) (Starts re text)
      (Somewhere (c ∷ re) text) (matchhere_iff re text) (match_loop_iff (c ∷ re) text)
