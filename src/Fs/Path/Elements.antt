-- ===== src/Fs/Path/Elements.antt =====
-- skipelem splits a path at its slashes.
use osp.Prelude.{
  ℕ, ◌≤◌, ◌<◌, ◌≡◌, refl, ◌⊎◌, inl, inr, true, false, none, some, List, [], ◌∷◌, arith, ◌==◌,
  if◌then◌else◌, take, Bool-cases, ◌∙◌, sym, ap,
}
use osp.Fs.Path.{dirsiz, skip_slashes, take_elem, elem_of, skipelem, rounds_of}

-- What stands before, between and behind the slashes.
abbrev pub head_cons : ℕ → List (List ℕ) → List (List ℕ)
head_cons c [] = (c ∷ []) ∷ []
head_cons c (w ∷ ws) = (c ∷ w) ∷ ws

unfoldable pub pieces : List ℕ → List (List ℕ)
pieces [] = [] ∷ []
pieces (c ∷ path) = if c == b'/' then [] ∷ pieces path else head_cons c (pieces path)

-- Those that are not empty, cut to the size of a name.
unfoldable pub names_of : List (List ℕ) → List (List ℕ)
names_of [] = []
names_of ([] ∷ ws) = names_of ws
names_of ((c ∷ w) ∷ ws) = take dirsiz (c ∷ w) ∷ names_of ws

unfoldable pub elements : List ℕ → List (List ℕ)
elements path = names_of (pieces path)

abbrev pub StartsElem : List ℕ → Type 0
StartsElem [] = Unit
StartsElem (c ∷ path) = (c == b'/') ≡ false

abbrev pub StartsSlash : List ℕ → Type 0
StartsSlash [] = Unit
StartsSlash (c ∷ path) = (c == b'/') ≡ true

skip_slashes-StartsElem : (p : List ℕ) → StartsElem (skip_slashes p)
unfolding skip_slashes
skip_slashes-StartsElem [] = tt
skip_slashes-StartsElem (c ∷ p) = elim (Bool-cases (c == b'/')) [
  | inl y ↦ rw y (skip_slashes-StartsElem p)
  | inr n ↦ rw n n
]

pub elements_nil : elements [] ≡ []
unfolding elements pieces names_of
elements_nil = refl

skip_slashes-elem : (c : ℕ) (p : List ℕ) → (c == b'/') ≡ false → skip_slashes (c ∷ p) ≡ c ∷ p
unfolding skip_slashes
skip_slashes-elem c p n = rw n refl

elements-skip_slashes : (p : List ℕ) → elements (skip_slashes p) ≡ elements p
unfolding skip_slashes elements pieces names_of
elements-skip_slashes [] = refl
elements-skip_slashes (c ∷ p) = elim (Bool-cases (c == b'/')) [
  | inl y ↦ rw y (elements-skip_slashes p)
  | inr n ↦ ap (λ q. names_of (pieces q)) (skip_slashes-elem c p n)
]

rounds-skip_slashes : (p : List ℕ) → rounds_of (skip_slashes p) ≤ rounds_of p
unfolding skip_slashes
rounds-skip_slashes [] = omega arith
rounds-skip_slashes (c ∷ p) = elim (Bool-cases (c == b'/')) [
  | inl y ↦ rw y (omega (arith, rounds-skip_slashes p))
  | inr n ↦ rw n (omega arith)
]

-- The pieces behind the first.
abbrev other_pieces : List ℕ → List (List ℕ)
other_pieces [] = []
other_pieces (c ∷ path) = pieces path

pieces-take_elem : (p : List ℕ) → pieces p ≡ (take_elem p).0 ∷ other_pieces (take_elem p).1
unfolding pieces take_elem
pieces-take_elem [] = refl
pieces-take_elem (c ∷ p) = elim (Bool-cases (c == b'/')) [
  | inl y ↦ rw y refl
  | inr n ↦ rw n (ap (head_cons c) (pieces-take_elem p))
]

take_elem-StartsSlash : (p : List ℕ) → StartsSlash (take_elem p).1
unfolding take_elem
take_elem-StartsSlash [] = tt
take_elem-StartsSlash (c ∷ p) = elim (Bool-cases (c == b'/')) [
  | inl y ↦ rw y y
  | inr n ↦ rw n (take_elem-StartsSlash p)
]

rounds-take_elem : (p : List ℕ) → rounds_of (take_elem p).1 ≤ rounds_of p
unfolding take_elem
rounds-take_elem [] = omega arith
rounds-take_elem (c ∷ p) = elim (Bool-cases (c == b'/')) [
  | inl y ↦ rw y (omega arith)
  | inr n ↦ rw n (omega (arith, rounds-take_elem p))
]

names_of-other_pieces :
    (r : List ℕ) → StartsSlash r → names_of (other_pieces r) ≡ elements (skip_slashes r)
unfolding names_of elements pieces skip_slashes
names_of-other_pieces [] h = refl
names_of-other_pieces (c ∷ r) h = rw h (sym (elements-skip_slashes r))

-- What skipelem does with a path.
abbrev pub Splits : List ℕ → Type 0
Splits p =
    ((skipelem p ≡ none) × (elements p ≡ []))
    ⊎ ((name : List ℕ) × (rest : List ℕ) × (skipelem p ≡ some (name, rest))
        × (elements p ≡ name ∷ elements rest)
        × StartsElem rest
        × (rounds_of rest < rounds_of p))

pub elements-cons :
    (c : ℕ) (s : List ℕ)
    → (c == b'/') ≡ false
    → elements (c ∷ s) ≡ take dirsiz (c ∷ (take_elem s).0) ∷ elements (skip_slashes (take_elem s).1)
unfolding elements pieces names_of
elements-cons c s n = rw n (
    ap (λ ws. names_of (head_cons c ws)) (pieces-take_elem s)
    ∙ ap (λ ws. take dirsiz (c ∷ (take_elem s).0) ∷ ws)
        (names_of-other_pieces (take_elem s).1 (take_elem-StartsSlash s)))

elem_of-cons :
    (c : ℕ) (s : List ℕ)
    → (c == b'/') ≡ false
    → elem_of (c ∷ s) ≡ some (take dirsiz (c ∷ (take_elem s).0), skip_slashes (take_elem s).1)
unfolding take_elem
elem_of-cons c s n = rw n refl

elem_of-Splits : (p s : List ℕ) → skip_slashes p ≡ s → StartsElem s → Splits p
unfolding skipelem
elem_of-Splits p [] e h =
    inl (rw e refl, sym (elements-skip_slashes p) ∙ ap elements e ∙ elements_nil)
elem_of-Splits p (c ∷ s) e h =
    let rest = (take_elem s).1 in
    let shorter : rounds_of (skip_slashes rest) < rounds_of p = omega (
      arith,
      rounds-skip_slashes rest,
      rounds-take_elem s,
      rounds-skip_slashes p,
      ap rounds_of e,
    ) in
    inr (
      take dirsiz (c ∷ (take_elem s).0),
      skip_slashes rest,
      ap elem_of e ∙ elem_of-cons c s h,
      sym (elements-skip_slashes p) ∙ ap elements e ∙ elements-cons c s h,
      skip_slashes-StartsElem rest,
      shorter,
    )

pub skipelem-Splits : (p : List ℕ) → Splits p
skipelem-Splits p = elem_of-Splits p (skip_slashes p) refl (skip_slashes-StartsElem p)
