-- ===== src/Bio/Ring.antt =====
-- xv6-public/bio.c: the links of the buffers as a list, the most recently used first, and the search
-- along them.
use osp.Prelude.{
  ℕ, zero, suc, ◌<◌, ◌≡◌, refl, Bool, false, some, List, [], ◌∷◌, ◌==◌, if◌then◌else◌, All, length,
  arith,
}
use osp.Bio.{list_head, find_buf}

-- From `b` on along the buffers of the list, and back to list_head.
abbrev pub Links : (ℕ → ℕ) → (ℕ → ℕ) → ℕ → List ℕ → Type 0
Links next prev b [] = (next b ≡ list_head) × (prev list_head ≡ b)
Links next prev b (x ∷ l) = (next b ≡ x) × (prev x ≡ b) × Links next prev x l

-- One direction of the links.
abbrev pub Chain : (ℕ → ℕ) → ℕ → List ℕ → Type 0
Chain step b [] = step b ≡ list_head
Chain step b (x ∷ l) = (step b ≡ x) × Chain step x l

abbrev pub AreOther : ℕ → List ℕ → Type 0
AreOther b l = All (λ x. (x == b) ≡ false) l

abbrev pub Distinct : List ℕ → Type 0
Distinct [] = Unit
Distinct (x ∷ l) = AreOther x l × Distinct l

abbrev pub reverse_onto : List ℕ → List ℕ → List ℕ
reverse_onto [] acc = acc
reverse_onto (x ∷ l) acc = reverse_onto l (x ∷ acc)

-- The buffers, the least recently used first.
abbrev pub oldest_first : List ℕ → List ℕ
oldest_first l = reverse_onto l []

abbrev pub first_of : (ℕ → Bool) → List ℕ → ℕ
first_of test [] = list_head
first_of test (x ∷ l) = if test x then x else first_of test l

pub find_buf_lem :
    (step : ℕ → ℕ) (test : ℕ → Bool) (l : List ℕ) (fuel b : ℕ)
    → length l < fuel
    → AreOther list_head l
    → Chain step b l
    → find_buf fuel step test (step b) ≡ some (first_of test l)
unfolding find_buf
find_buf_lem step test l zero b h o c = absurd (omega arith)
find_buf_lem step test [] (suc fuel) b h o c = rw c refl
find_buf_lem step test (x ∷ l) (suc fuel) b h (ne, o) (e, c) =
    rw e (rw ne (rw (find_buf_lem step test l fuel x (omega arith) o c) ground arith))

module _ (next prev : ℕ → ℕ) where
  pub Chain-next : (b : ℕ) (l : List ℕ) → Links next prev b l → Chain next b l
  Chain-next b [] k = k.0
  Chain-next b (x ∷ l) (e, _, k) = (e, Chain-next x l k)

  Chain-prev_onto :
      (b : ℕ) (l acc : List ℕ)
      → Links next prev b l
      → Chain prev b acc
      → Chain prev list_head (reverse_onto l (b ∷ acc))
  Chain-prev_onto b [] acc (_, e) c = (e, c)
  Chain-prev_onto b (x ∷ l) acc (_, e, k) c = Chain-prev_onto x l (b ∷ acc) k (e, c)

  pub Chain-prev :
      (l : List ℕ) → Links next prev list_head l → Chain prev list_head (oldest_first l)
  Chain-prev [] k = k.1
  Chain-prev (x ∷ l) (_, e, k) = Chain-prev_onto x l [] k e
