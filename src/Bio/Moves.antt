-- ===== src/Bio/Moves.antt =====
-- xv6-public/bio.c: what the writes to the links do to the list of buffers.
use osp.Prelude.{
  ℕ, ◌≡◌, ◌≢◌, refl, sym, ap, ◌∙◌, true, false, true≢false, subst, List, [], ◌∷◌, ◌==◌,
  if◌then◌else◌, All, update, update_self, update-ne, ne_of_==, ==_iff, Bool-cases, inl, inr,
}
use osp.Bio.{list_head, Bcache, link_first, unlink}
use osp.Bio.Ring.{Links, AreOther, Distinct}

abbrev pub remove : ℕ → List ℕ → List ℕ
remove b [] = []
remove b (x ∷ l) = if x == b then l else x ∷ remove b l

-- `b` is among the buffers.
abbrev pub IsIn : ℕ → List ℕ → Type 0
IsIn b [] = true ≡ false
IsIn b (x ∷ l) = if x == b then Unit else IsIn b l

pub All-map : {P Q : ℕ → Type 0} → ((z : ℕ) → P z → Q z) → (l : List ℕ) → All P l → All Q l
All-map f [] a = tt
All-map f (x ∷ l) (p, a) = (f x p, All-map f l a)

AreOther-both :
    {P : ℕ → Type 0}
    → (b c : ℕ) (l : List ℕ) → ((z : ℕ) → b ≢ z → c ≢ z → P z)
    → AreOther b l
    → AreOther c l
    → All P l
AreOther-both b c [] f _ _ = tt
AreOther-both b c (x ∷ l) f (p, a) (q, d) =
    (f x (λ e. ne_of_== x b p (sym e)) (λ e. ne_of_== x c q (sym e)), AreOther-both b c l f a d)

pub All-at : (P : ℕ → Type 0) (b : ℕ) (l : List ℕ) → IsIn b l → All P l → P b
All-at P b [] i a = absurd (true≢false i)
All-at P b (x ∷ l) i (p, a) = elim (Bool-cases (x == b)) [
  | inl y ↦ subst P ((==_iff x b).0 y) p
  | inr n ↦ All-at P b l (subst (λ t. if t then Unit else IsIn b l) n i) a
]

-- The list from `b` on is entered from `p` instead.
module _ (next prev next' prev' : ℕ → ℕ) where
  frame :
      (b : ℕ) (l : List ℕ)
      → Links next prev b l
      → next' b ≡ next b
      → All (λ z. next' z ≡ next z) l
      → All (λ z. prev' z ≡ prev z) l
      → prev' list_head ≡ prev list_head
      → Links next' prev' b l
  frame b [] (e, d) n _ _ h = (n ∙ e, h ∙ d)
  frame b (x ∷ l) (e, d, k) n (nx, ns) (px, ps) h = (n ∙ e, px ∙ d, frame x l k nx ns ps h)

  agree :
      (x : ℕ) (l : List ℕ)
      → AreOther x l
      → All (λ z. x ≢ z → prev' z ≡ prev z) l
      → All (λ z. prev' z ≡ prev z) l
  agree x [] _ _ = tt
  agree x (y ∷ l) (n, o) (p, ps) = (p (λ e. ne_of_== y x n (sym e)), agree x l o ps)

  pub relink :
      (b p : ℕ) (l : List ℕ)
      → Links next prev b l
      → Distinct l
      → AreOther list_head l
      → next' p ≡ next b
      → prev' (next b) ≡ p
      → All (λ z. next' z ≡ next z) l
      → All (λ z. next b ≢ z → prev' z ≡ prev z) l
      → (next b ≢ list_head → prev' list_head ≡ prev list_head)
      → Links next' prev' p l
  relink b p [] (e, d) _ _ n q _ _ _ = (n ∙ e, ap prev' (sym e) ∙ q)
  relink b p (x ∷ l) (e, d, k) (o, ds) (h, hs) n q (nx, ns) (px, ps) ph =
      let rest : All (λ z. x ≢ z → prev' z ≡ prev z) l = rw (← e) ps in
      (
        n ∙ e,
        ap prev' (sym e) ∙ q,
        frame x l k nx ns (agree x l o rest) (ph (λ i. ne_of_== x list_head h (sym e ∙ i))),
      )

module _ (next prev : ℕ → ℕ) where
  first-back : (b : ℕ) (l : List ℕ) → Links next prev b l → prev (next b) ≡ b
  first-back b [] (e, d) = ap prev e ∙ d
  first-back b (x ∷ l) (e, d, _) = ap prev e ∙ d

  first_ne :
      (b p : ℕ) (l : List ℕ) → Links next prev p l → AreOther b l → list_head ≢ b → next p ≢ b
  first_ne b p [] (e, _) _ ne = λ i. ne (sym e ∙ i)
  first_ne b p (x ∷ l) (e, _, _) (n, _) ne = λ i. ne_of_== x b n (sym e ∙ i)

  inverse :
      (b p : ℕ) (l : List ℕ)
      → Links next prev p l
      → IsIn b l
      → (next (prev b) ≡ b) × (prev (next b) ≡ b)
  inverse b p [] _ i = absurd (true≢false i)
  inverse b p (x ∷ l) (e, d, k) i = elim (Bool-cases (x == b)) [
    | inl y ↦
        let s : x ≡ b = (==_iff x b).0 y in
        subst (λ z. (next (prev z) ≡ z) × (prev (next z) ≡ z)) s (ap next d ∙ e, first-back x l k)
    | inr n ↦ inverse b x l k (subst (λ t. if t then Unit else IsIn b l) n i)
  ]

  module _ (b : ℕ) where
    abbrev next' : ℕ → ℕ
    next' = update next (prev b) (next b)

    abbrev prev' : ℕ → ℕ
    prev' = update prev (next b) (prev b)

    around :
        (p : ℕ) (l : List ℕ)
        → Links next prev p l
        → AreOther p l
        → Distinct l
        → AreOther list_head l
        → IsIn b l
        → p ≢ b
        → (next (prev b) ≡ b) × (prev (next b) ≡ b)
        → Links next' prev' p (remove b l)
    around p [] _ _ _ _ i _ _ = absurd (true≢false i)
    around p (x ∷ l) (e, d, k) (o, os) (od, ds) (h, hs) i ne inv = elim (Bool-cases (x == b)) [
      | inl y ↦
          let s : x ≡ b = (==_iff x b).0 y in
          let before : prev b ≡ p = ap prev (sym s) ∙ d in
          rw y (
            relink next prev next' prev' b p l (subst (λ z. Links next prev z l) s k) ds hs
              (ap next' (sym before) ∙ update_self next (prev b) (next b))
              (update_self prev (next b) (prev b) ∙ before)
              (All-map
                (λ z n. update-ne next (prev b) (next b) z (λ j. ne_of_== z p n (sym j ∙ before))) l
                os)
              (All-map (λ z _ n. update-ne prev (next b) (prev b) z n) l os)
              (λ n. update-ne prev (next b) (prev b) list_head n))
      | inr n ↦ rw n (
        update-ne next (prev b) (next b) p (λ j. ne_of_== x b n (sym e ∙ ap next (sym j) ∙ inv.0))
            ∙ e,
        update-ne prev (next b) (prev b) x (λ j. ne (sym d ∙ ap prev (sym j) ∙ inv.1)) ∙ d,
        around x l k od ds hs (subst (λ t. if t then Unit else IsIn b l) n i) (ne_of_== x b n) inv,
      )
    ]

    update_same : update prev (next b) (prev b) b ≡ prev b
    update_same = elim (Bool-cases (next b == b)) [ inl y ↦ rw y refl | inr n ↦ rw n refl ]

-- A list of buffers in the order of the links.
pub record IsRing (c : Bcache) (l : List ℕ) : Type 0 where
  pub links : Links c.next c.prev list_head l
  pub distinct : Distinct l
  pub other : AreOther list_head l

module _ (c : Bcache) (b : ℕ) (l : List ℕ) (ring : IsRing c l) where
  pub unlink-Links :
      IsIn b l → list_head ≢ b → Links (unlink b c).next (unlink b c).prev list_head (remove b l)
  unfolding unlink
  unlink-Links i ne = rw (update_same c.next c.prev b) (
      around c.next c.prev b list_head l ring.links ring.other ring.distinct ring.other i ne
        (inverse c.next c.prev b list_head l ring.links i))

  pub link_first-Links :
      AreOther b l
      → list_head ≢ b
      → Links (link_first b c).next (link_first b c).prev list_head (b ∷ l)
  unfolding link_first
  link_first-Links o ne =
      let f = update c.next b (c.next list_head) in
      let g = update c.prev b list_head in
      let off : c.next list_head ≢ b = first_ne c.next c.prev b list_head l ring.links o ne in
      (
        refl,
        update-ne g (c.next list_head) b b off ∙ update_self c.prev b list_head,
        relink c.next c.prev (update f list_head b) (update g (c.next list_head) b) list_head b l
            ring.links ring.distinct ring.other
            (update-ne f list_head b b ne ∙ update_self c.next b (c.next list_head))
            (update_self g (c.next list_head) b)
            (AreOther-both b list_head l
              (λ z nb nh. update-ne f list_head b z nh ∙ update-ne c.next b (c.next list_head) z nb)
              o ring.other)
            (AreOther-both b list_head l
              (λ z nb nh n.
                update-ne g (c.next list_head) b z n ∙ update-ne c.prev b list_head z nb)
              o ring.other)
            (λ n.
              update-ne g (c.next list_head) b list_head n
              ∙ update-ne c.prev b list_head list_head (λ j. ne (sym j))),
      )
