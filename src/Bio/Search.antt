-- ===== src/Bio/Search.antt =====
-- xv6-public/bio.c: what the two loops of bget find.
use osp.Prelude.{
  ℕ, ◌+◌, ◌≤◌, ◌≡◌, refl, sym, ap, ◌∙◌, ◌⊎◌, ◌++◌, Bool, true, false, true≢false, subst, some, List,
  [], ◌∷◌, ◌==◌, if◌then◌else◌, All, length, arith, Bool-cases, inl, inr,
}
use osp.Bio.{list_head, nbuf, Bcache, find_buf}
use osp.Bio.Ring.{
  AreOther, reverse_onto, oldest_first, first_of, find_buf_lem, Chain-next, Chain-prev,
}
use osp.Bio.Moves.{IsIn, IsRing, All-map}

pub IsIn-cons : (b x : ℕ) (l : List ℕ) → IsIn b l → IsIn b (x ∷ l)
IsIn-cons b x l i = elim (Bool-cases (x == b)) [ inl y ↦ rw y tt | inr n ↦ rw n i ]

pub IsIn-first : (b : ℕ) (l : List ℕ) → IsIn b (b ∷ l)
IsIn-first b l = let e : (b == b) ≡ true = ground arith in rw e tt

pub All-IsIn : (l : List ℕ) → All (λ b. IsIn b l) l
All-IsIn [] = tt
All-IsIn (x ∷ l) = (IsIn-first x l, All-map (λ b i. IsIn-cons b x l i) l (All-IsIn l))

module _ (P : ℕ → Type 0) where
  All-reverse_onto : (l acc : List ℕ) → All P l → All P acc → All P (reverse_onto l acc)
  All-reverse_onto [] acc _ a = a
  All-reverse_onto (x ∷ l) acc (p, ps) a = All-reverse_onto l (x ∷ acc) ps (p, a)

  All-of_reverse : (l acc : List ℕ) → All P (reverse_onto l acc) → All P l × All P acc
  All-of_reverse [] acc a = (tt, a)
  All-of_reverse (x ∷ l) acc a = let (ps, (p, qs)) = All-of_reverse l (x ∷ acc) a in ((p, ps), qs)

length-reverse_onto : (l acc : List ℕ) → length (reverse_onto l acc) ≡ length l + length acc
length-reverse_onto [] acc = omega arith
length-reverse_onto (x ∷ l) acc = omega (arith, length-reverse_onto l (x ∷ acc))

-- The first that passes the test, or list_head where none does.
module _ (P : ℕ → Type 0) (test : ℕ → Bool) where
  first_of-holds :
      (l : List ℕ)
      → All P l
      → (first_of test l == list_head) ≡ false
      → P (first_of test l) × (test (first_of test l) ≡ true)
  first_of-holds [] _ ne = absurd (true≢false ne)
  first_of-holds (x ∷ l) (p, ps) ne = elim (Bool-cases (test x)) [
    | inl y ↦ rw y (p, y)
    | inr n ↦ rw n (
        first_of-holds l ps
          (subst (λ t. ((if t then x else first_of test l) == list_head) ≡ false) n ne))
  ]

first_of-none :
    (test : ℕ → Bool) (l : List ℕ)
    → AreOther list_head l
    → (first_of test l == list_head) ≡ true
    → All (λ b. test b ≡ false) l
first_of-none test [] _ _ = tt
first_of-none test (x ∷ l) (n, o) e = elim (Bool-cases (test x)) [
  | inl y ↦
      let found = subst (λ t. ((if t then x else first_of test l) == list_head) ≡ true) y e in
      absurd (true≢false (sym found ∙ n))
  | inr m ↦ (
    m,
    first_of-none test l o
        (subst (λ t. ((if t then x else first_of test l) == list_head) ≡ true) m e),
  )
]

module _ (c : Bcache) (test : ℕ → Bool) (l : List ℕ) (ring : IsRing c l)
    (few : length l ≤ nbuf) where
  pub find_next : find_buf (nbuf + 1) c.next test (c.next list_head) ≡ some (first_of test l)
  find_next =
      find_buf_lem c.next test l (nbuf + 1) list_head (omega arith) ring.other
        (Chain-next c.next c.prev list_head l ring.links)

  pub find_prev :
      find_buf (nbuf + 1) c.prev test (c.prev list_head) ≡ some (first_of test (oldest_first l))
  find_prev =
      find_buf_lem c.prev test (oldest_first l) (nbuf + 1) list_head
        (omega (arith, length-reverse_onto l []))
        (All-reverse_onto (λ b. (b == list_head) ≡ false) l [] ring.other tt)
        (Chain-prev c.next c.prev l ring.links)

  pub next_holds :
      (first_of test l == list_head) ≡ false
      → IsIn (first_of test l) l × (test (first_of test l) ≡ true)
  next_holds = first_of-holds (λ b. IsIn b l) test l (All-IsIn l)

  pub prev_holds :
      (first_of test (oldest_first l) == list_head) ≡ false
      → IsIn (first_of test (oldest_first l)) l × (test (first_of test (oldest_first l)) ≡ true)
  prev_holds =
      first_of-holds (λ b. IsIn b l) test (oldest_first l)
        (All-reverse_onto (λ b. IsIn b l) l [] (All-IsIn l) tt)

  pub next_none : (first_of test l == list_head) ≡ true → All (λ b. test b ≡ false) l
  next_none = first_of-none test l ring.other

  pub prev_none : (first_of test (oldest_first l) == list_head) ≡ true → All (λ b. test b ≡ false) l
  prev_none e =
      (All-of_reverse (λ b. test b ≡ false) l []
        (first_of-none test (oldest_first l)
          (All-reverse_onto (λ b. (b == list_head) ≡ false) l [] ring.other tt) e)).0

-- What the search from the back finds splits the list: all that stand behind it fail the test.
pub record Splits (test : ℕ → Bool) (l : List ℕ) (b : ℕ) : Type 0 where
  pub newer : List ℕ
  pub older : List ℕ
  pub order : l ≡ newer ++ b ∷ older
  pub passes : test b ≡ true
  pub older_fail : All (λ z. test z ≡ false) older

last_of-Splits :
    (test : ℕ → Bool) (l acc : List ℕ)
    → Splits test l (first_of test (reverse_onto l acc))
      ⊎ (All (λ z. test z ≡ false) l × (first_of test (reverse_onto l acc) ≡ first_of test acc))
last_of-Splits test [] acc = inr (tt, refl)
last_of-Splits test (x ∷ l) acc = elim (last_of-Splits test l (x ∷ acc)) [
  | inl s ↦ inl (record {
    newer = x ∷ s.newer;
    older = s.older;
    order = ap (◌∷◌ x) s.order;
    passes = s.passes;
    older_fail = s.older_fail;
  })
  | inr (fail, e) ↦ elim (Bool-cases (test x)) [
    | inl y ↦
        let here : first_of test (reverse_onto l (x ∷ acc)) ≡ x = e ∙ rw y refl in
        inl
          (rw here (record { newer = []; older = l; order = refl; passes = y; older_fail = fail }))
    | inr n ↦ inr ((n, fail), e ∙ rw n refl)
  ]
]

pub oldest_first-Splits :
    (test : ℕ → Bool) (l : List ℕ)
    → (first_of test (oldest_first l) == list_head) ≡ false
    → Splits test l (first_of test (oldest_first l))
oldest_first-Splits test l ne = elim (last_of-Splits test l []) [
  | inl s ↦ s
  | inr (_, e) ↦ absurd (true≢false (rw e at ne))
]
