-- ===== src/Bio/Release.antt =====
-- xv6-public/bio.c: brelse, and the buffer that goes to the front of the list.
use osp.Prelude.{
  ℕ, suc, ◌+◌, ◌-◌, ◌%◌, ◌^◌, ◌≡◌, ◌≢◌, refl, sym, ap, ◌∙◌, true, false, true≢false, subst, Option,
  none, some, List, [], ◌∷◌, ◌==◌, if◌then◌else◌, All, length, arith, ne_of_==, ==_iff, Bool-cases,
  inl, inr, update, update_self, update-ne,
}
use osp.Bio.{list_head, Buf, Bcache, link_first, unlink, set_buf, put_ref, brelse}
use osp.Bio.Ring.{AreOther, Distinct}
use osp.Bio.Moves.{remove, IsIn, All-at, unlink-Links, link_first-Links}
use osp.Bio.Search.{All-IsIn}
use osp.Bio.Lru.{IsCache, same-IsCache}
use osp.Spinlock.{releasesleep, holdingsleep}

module _ (b : ℕ) where
  All-remove : (P : ℕ → Type 0) (l : List ℕ) → All P l → All P (remove b l)
  All-remove P [] a = tt
  All-remove P (x ∷ l) (p, a) = elim (Bool-cases (x == b)) [
    | inl y ↦ rw y a
    | inr n ↦ rw n (p, All-remove P l a)
  ]

  Distinct-remove : (l : List ℕ) → Distinct l → Distinct (remove b l) × AreOther b (remove b l)
  Distinct-remove [] d = (tt, tt)
  Distinct-remove (x ∷ l) (o, d) = elim (Bool-cases (x == b)) [
    | inl y ↦ rw y (d, subst (λ z. AreOther z l) ((==_iff x b).0 y) o)
    | inr n ↦
        let (e, f) = Distinct-remove l d in
        rw n ((All-remove (λ z. (z == x) ≡ false) l o, e), (n, f))
  ]

  length-remove : (l : List ℕ) → IsIn b l → suc (length (remove b l)) ≡ length l
  length-remove [] i = absurd (true≢false i)
  length-remove (x ∷ l) i = elim (Bool-cases (x == b)) [
    | inl y ↦ rw y refl
    | inr n ↦ rw n (ap suc (length-remove l (subst (λ t. if t then Unit else IsIn b l) n i)))
  ]

  IsIn-of_remove : (z : ℕ) (l : List ℕ) → IsIn b l → IsIn z (b ∷ remove b l) → IsIn z l
  IsIn-of_remove z l h i =
      All-at (λ y. IsIn y l) z (b ∷ remove b l) i (h, All-remove (λ y. IsIn y l) l (All-IsIn l))

  IsIn-remove_ne : (z : ℕ) (l : List ℕ) → (b == z) ≡ false → IsIn z l → IsIn z (remove b l)
  IsIn-remove_ne z [] ne i = i
  IsIn-remove_ne z (x ∷ l) ne i = elim (Bool-cases (x == b)) [
    | inl y ↦
        let e : (x == z) ≡ false = ground arith in
        rw y (subst (λ t. if t then Unit else IsIn z l) e i)
    | inr n ↦ rw n (elim (Bool-cases (x == z)) [
      | inl y ↦ rw y tt
      | inr m ↦ rw m (IsIn-remove_ne z l ne (subst (λ t. if t then Unit else IsIn z l) m i))
    ])
  ]

  pub IsIn-remove : (z : ℕ) (l : List ℕ) → IsIn z l → IsIn z (b ∷ remove b l)
  IsIn-remove z l i = elim (Bool-cases (b == z)) [
    | inl y ↦ rw y tt
    | inr n ↦ rw n (IsIn-remove_ne z l n i)
  ]

-- The buffers after `b` goes to the front.
module _ (c : Bcache) (b : ℕ) (l : List ℕ) (cache : IsCache c l) (i : IsIn b l) where
  moved-IsCache : IsCache (link_first b (unlink b c)) (b ∷ remove b l)
  unfolding link_first unlink
  moved-IsCache =
      let (ds, o) = Distinct-remove b l cache.ring.distinct in
      let hs = All-remove b (λ z. (z == list_head) ≡ false) l cache.ring.other in
      let h : (b == list_head) ≡ false =
        All-at (λ z. (z == list_head) ≡ false) b l i cache.ring.other in
      let ne : list_head ≢ b = λ e. ne_of_== b list_head h (sym e) in
      record {
        ring = record {
          links =
              link_first-Links (unlink b c) b (remove b l)
                (record { links = unlink-Links c b l cache.ring i ne; distinct = ds; other = hs }) o
                ne;
          distinct = (o, ds);
          other = (h, hs);
        };
        few = omega (arith, length-remove b l i, cache.few);
        unique = λ x y in_x in_y.
            cache.unique x y (IsIn-of_remove b x l i in_x) (IsIn-of_remove b y l i in_y);
      }

-- The list when brelse has run.
abbrev pub order_behind : Bcache → ℕ → List ℕ → List ℕ
order_behind c b l = if (c.buf b).refcnt == 0 then b ∷ remove b l else l

pub record Puts (c : Bcache) (b : ℕ) (l : List ℕ) (c' : Bcache) : Type 0 where
  pub counted : (c'.buf b).refcnt ≡ ((c.buf b).refcnt + 2 ^ 32 - 1) % 2 ^ 32
  pub kept : (z : ℕ) → b ≢ z → c'.buf z ≡ c.buf z
  pub cache : IsCache c' (order_behind c' b l)

abbrev pub Released : ℕ → ℕ → Bcache → List ℕ → Option Bcache → Type 0
Released pid b c l none = holdingsleep pid (c.buf b).lock ≡ false
Released pid b c l (some c') =
    (holdingsleep pid (c.buf b).lock ≡ true) × ((c'.buf b).lock.is_locked ≡ false) × Puts c b l c'

module _ (b : ℕ) (l : List ℕ) (i : IsIn b l) where
  abbrev put_buf : Bcache → Buf
  put_buf c = record (c.buf b) { refcnt = ((c.buf b).refcnt + 2 ^ 32 - 1) % 2 ^ 32 }

  put_ref-buf : (c : Bcache) → (put_ref b c).buf ≡ update c.buf b (put_buf c)
  unfolding put_ref link_first unlink
  put_ref-buf c = elim (Bool-cases (((set_buf b (put_buf c) c).buf b).refcnt == 0)) [
    | inl y ↦ rw y refl
    | inr n ↦ rw n refl
  ]

  put_ref-IsCache :
      (c : Bcache) → IsCache c l → IsCache (put_ref b c) (order_behind (put_ref b c) b l)
  unfolding put_ref link_first unlink
  put_ref-IsCache c cache =
      let kept = same-IsCache c l cache b i (put_buf c) (refl, refl) in
      elim (Bool-cases (((set_buf b (put_buf c) c).buf b).refcnt == 0)) [
        | inl y ↦ rw y (rw y (moved-IsCache (set_buf b (put_buf c) c) b l kept i))
        | inr n ↦ rw n (rw n kept)
      ]

  abbrev unlocked : Bcache → Buf
  unlocked c = record (c.buf b) { lock = releasesleep (c.buf b).lock }

  -- brelse of a buffer in the list panics only where the process does not hold its lock; otherwise the
  -- lock is free, the buffer has one reference less, and no other buffer has changed; the links are
  -- again a ring without a block in two buffers, with the buffer in front where it has no reference
  -- left, and in the same order otherwise.
  pub brelse-Released : (pid : ℕ) (c : Bcache) → IsCache c l → Released pid b c l (brelse pid b c)
  unfolding brelse releasesleep
  brelse-Released pid c cache =
      let c1 = set_buf b (unlocked c) c in
      let self : c1.buf b ≡ unlocked c = update_self c.buf b (unlocked c) in
      let new : (put_ref b c1).buf b ≡ put_buf c1 =
        ap (λ f. f b) (put_ref-buf c1) ∙ update_self c1.buf b (put_buf c1) in
      elim (Bool-cases (holdingsleep pid (c.buf b).lock)) [
        | inl y ↦ rw y (
          y,
          ap (λ v. v.lock.is_locked) new ∙ ap (λ v. v.lock.is_locked) self,
          record {
            counted = ap (λ v. v.refcnt) new ∙ ap (λ v. (v.refcnt + 2 ^ 32 - 1) % 2 ^ 32) self;
            kept = λ z ne.
                ap (λ f. f z) (put_ref-buf c1)
                ∙ update-ne c1.buf b (put_buf c1) z ne
                ∙ update-ne c.buf b (unlocked c) z ne;
            cache = put_ref-IsCache c1 (same-IsCache c l cache b i (unlocked c) (refl, refl));
          },
        )
        | inr n ↦ rw n n
      ]
