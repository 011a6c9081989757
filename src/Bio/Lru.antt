-- ===== src/Bio/Lru.antt =====
-- xv6-public/bio.c: bget, and that no block is in two buffers.
use osp.Prelude.{
  ℕ, ◌+◌, ◌%◌, ◌^◌, ◌≤◌, ◌≡◌, ◌≢◌, refl, sym, ap, ◌∙◌, true, false, Option, none, some, List, ◌∷◌,
  ◌++◌, ◌==◌, All, length, arith, Bool-cases, ◌⊎◌, inl, inr, update, update_self, update-ne,
}
use native.Mathlib.Decide.{ℕ_discrete}
use osp.Mmu.{flag}
use osp.Bio.{
  list_head, nbuf, b_dirty, Buf, Bcache, holds_block, is_recyclable, set_buf, count_ref, recycle,
  bget,
}
use osp.Bio.Ring.{oldest_first, first_of}
use osp.Bio.Moves.{IsIn, IsRing, All-map, All-at}
use osp.Bio.Search.{
  find_next, find_prev, next_holds, prev_holds, next_none, prev_none, Splits, oldest_first-Splits,
}

abbrev pub SameBlock : Buf → Buf → Type 0
SameBlock v w = (v.dev ≡ w.dev) × (v.blockno ≡ w.blockno)

-- Each block of a device other than 0, where a buffer starts, is in one buffer.
abbrev pub IsUnique : Bcache → List ℕ → Type 0
IsUnique c l =
    (i j : ℕ) → IsIn i l → IsIn j l → (c.buf i).dev ≢ 0 → SameBlock (c.buf i) (c.buf j) → i ≡ j

pub record IsCache (c : Bcache) (l : List ℕ) : Type 0 where
  pub ring : IsRing c l
  pub few : length l ≤ nbuf
  pub unique : IsUnique c l

SameBlock-along : (v v' w w' : Buf) → v ≡ v' → w ≡ w' → SameBlock v w → SameBlock v' w'
SameBlock-along v v' w w' e f (d, n) = (
  sym (ap (λ b. b.dev) e) ∙ d ∙ ap (λ b. b.dev) f,
  sym (ap (λ b. b.blockno) e) ∙ n ∙ ap (λ b. b.blockno) f,
)

-- A buffer that changes to a block that is in no other one.
module _ (c : Bcache) (l : List ℕ) (cache : IsCache c l) (b : ℕ) (v : Buf) where
  abbrev bufs : ℕ → Buf
  bufs = update c.buf b v

  at : (i : ℕ) → b ≡ i → bufs i ≡ v
  at i e = ap bufs (sym e) ∙ update_self c.buf b v

  pub set_buf-IsCache :
      ((j : ℕ) → IsIn j l → b ≢ j → v.dev ≢ 0 → ¬ SameBlock v (c.buf j)) → IsCache (set_buf b v c) l
  set_buf-IsCache alone = record {
    ring = record {
      links = cache.ring.links;
      distinct = cache.ring.distinct;
      other = cache.ring.other;
    };
    few = cache.few;
    unique = λ i j in_i in_j ne same. elim (ℕ_discrete b i) [
      | yes ei ↦ elim (ℕ_discrete b j) [
        | yes ej ↦ sym ei ∙ ej
        | no nj ↦
            let e = at i ei in
            absurd (
              alone j in_j nj (λ z. ne (ap (λ w. w.dev) e ∙ z))
                (SameBlock-along (bufs i) v (bufs j) (c.buf j) e (update-ne c.buf b v j nj) same))
      ]
      | no ni ↦ elim (ℕ_discrete b j) [
        | yes ej ↦
            let (d, n) =
              SameBlock-along (bufs i) (c.buf i) (bufs j) v (update-ne c.buf b v i ni) (at j ej)
                same in
            absurd (
              alone i in_i ni (λ z. ne (ap (λ w. w.dev) (update-ne c.buf b v i ni) ∙ d ∙ z))
                (sym d, sym n))
        | no nj ↦
            let e = update-ne c.buf b v i ni in
            cache.unique i j in_i in_j (λ z. ne (ap (λ w. w.dev) e ∙ z))
              (SameBlock-along (bufs i) (c.buf i) (bufs j) (c.buf j) e (update-ne c.buf b v j nj)
                same)
      ]
    ];
  }

-- The same block as before.
pub same-IsCache :
    (c : Bcache) (l : List ℕ)
    → IsCache c l
    → (b : ℕ) → IsIn b l
    → (v : Buf) → SameBlock v (c.buf b)
    → IsCache (set_buf b v c) l
same-IsCache c l cache b i v (d, n) = set_buf-IsCache c l cache b v (λ j in_j ne nz same.
    ne (cache.unique b j i in_j (λ z. nz (d ∙ z)) (sym d ∙ same.0, sym n ∙ same.1)))

abbrev pub HasBlock : ℕ → ℕ → Buf → Type 0
HasBlock dev blockno v = (v.dev ≡ dev) × (v.blockno ≡ blockno)

-- Without references, and without changes that are not on the disk.
abbrev pub IsFree : Buf → Type 0
IsFree v = (v.refcnt ≡ 0) × (flag v.flags b_dirty ≡ false)

-- The buffer had the block, and has one reference more.
pub record Hits (dev blockno : ℕ) (old new : Buf) : Type 0 where
  pub had : HasBlock dev blockno old
  pub counted : new.refcnt ≡ (old.refcnt + 1) % 2 ^ 32
  pub flags : new.flags ≡ old.flags
  pub bytes : new.bytes ≡ old.bytes

-- No buffer had the block; the buffer is free, those used less recently are not, and it has one
-- reference and nothing read.
pub record Recycles (c : Bcache) (l : List ℕ) (dev blockno b : ℕ) (new : Buf) : Type 0 where
  pub missing : All (λ z. ¬ HasBlock dev blockno (c.buf z)) l
  pub newer : List ℕ
  pub older : List ℕ
  pub order : l ≡ newer ++ b ∷ older
  pub was_free : IsFree (c.buf b)
  pub busy : All (λ z. ¬ IsFree (c.buf z)) older
  pub counted : new.refcnt ≡ 1
  pub flags : new.flags ≡ 0

pub record Gets (c : Bcache) (l : List ℕ) (dev blockno b : ℕ) (c' : Bcache) : Type 0 where
  pub place : IsIn b l
  pub has_block : HasBlock dev blockno (c'.buf b)
  pub chosen : Hits dev blockno (c.buf b) (c'.buf b) ⊎ Recycles c l dev blockno b (c'.buf b)
  pub lock : (c'.buf b).lock ≡ (c.buf b).lock
  pub kept : (z : ℕ) → b ≢ z → c'.buf z ≡ c.buf z
  pub cache : IsCache c' l

abbrev pub Answers : Bcache → List ℕ → ℕ → ℕ → Option (ℕ × Bcache) → Type 0
Answers c l dev blockno none =
    All (λ z. ¬ HasBlock dev blockno (c.buf z)) l × All (λ z. ¬ IsFree (c.buf z)) l
Answers c l dev blockno (some (b, c')) = Gets c l dev blockno b c'

module _ (c : Bcache) (l : List ℕ) (cache : IsCache c l) (dev blockno : ℕ) where
  abbrev counted : ℕ → Buf
  counted b = record (c.buf b) { refcnt = ((c.buf b).refcnt + 1) % 2 ^ 32 }

  abbrev renewed : ℕ → Buf
  renewed b = record (c.buf b) { dev = dev; blockno = blockno; flags = 0; refcnt = 1 }

  has : (b : ℕ) → holds_block c dev blockno b ≡ true → HasBlock dev blockno (c.buf b)
  has b h = (ground arith, ground arith)

  has_not : (b : ℕ) → holds_block c dev blockno b ≡ false → ¬ HasBlock dev blockno (c.buf b)
  has_not b h = λ (d, n). ground arith

  free : (b : ℕ) → is_recyclable c b ≡ true → IsFree (c.buf b)
  free b h = (ground arith, ground arith)

  free_not : (b : ℕ) → is_recyclable c b ≡ false → ¬ IsFree (c.buf b)
  free_not b h = λ (r, f). ground arith

  hit-Gets :
      (b : ℕ)
      → IsIn b l
      → holds_block c dev blockno b ≡ true
      → Gets c l dev blockno b (count_ref b c)
  hit-Gets b i h =
      let here = update_self c.buf b (counted b) in
      record {
        place = i;
        has_block = rw here (has b h);
        chosen =
            inl (rw here (record { had = has b h; counted = refl; flags = refl; bytes = refl }));
        lock = ap (λ v. v.lock) here;
        kept = λ z ne. update-ne c.buf b (counted b) z ne;
        cache = same-IsCache c l cache b i (counted b) (refl, refl);
      }

  miss-Gets :
      (b : ℕ)
      → IsIn b l
      → Splits (is_recyclable c) l b
      → All (λ z. holds_block c dev blockno z ≡ false) l
      → Gets c l dev blockno b (recycle dev blockno b c)
  miss-Gets b i s out =
      let here = update_self c.buf b (renewed b) in
      record {
        place = i;
        has_block = rw here (refl, refl);
        chosen = inr (
            rw here (record {
              missing = All-map has_not l out;
              newer = s.newer;
              older = s.older;
              order = s.order;
              was_free = free b s.passes;
              busy = All-map free_not s.older s.older_fail;
              counted = refl;
              flags = refl;
            }));
        lock = ap (λ v. v.lock) here;
        kept = λ z ne. update-ne c.buf b (renewed b) z ne;
        cache = set_buf-IsCache c l cache b (renewed b) (λ j in_j ne nz same.
            let o = All-at (λ z. holds_block c dev blockno z ≡ false) j l in_j out in
            let (sd, sn) = same in ground arith);
      }

  -- bget panics only where no buffer of the list has the block and all are in use; otherwise it returns
  -- a buffer of the list that then has the block: one that had it, with one reference more, or, where
  -- none had it, the least recently used one without references and changes, taken for the block; and
  -- again the links are a ring and no block is in two buffers.
  pub bget-Answers : Answers c l dev blockno (bget dev blockno c)
  unfolding bget
  bget-Answers =
      rw (find_next c (holds_block c dev blockno) l cache.ring cache.few)
        (elim (Bool-cases (first_of (holds_block c dev blockno) l == list_head)) [
          | inl y ↦ rw y (
              rw (find_prev c (is_recyclable c) l cache.ring cache.few)
                (elim (Bool-cases (first_of (is_recyclable c) (oldest_first l) == list_head)) [
                  | inl z ↦ rw z (
                    All-map has_not l
                        (next_none c (holds_block c dev blockno) l cache.ring cache.few y),
                    All-map free_not l (prev_none c (is_recyclable c) l cache.ring cache.few z),
                  )
                  | inr m ↦
                      let (i, h) = prev_holds c (is_recyclable c) l cache.ring cache.few m in
                      rw m (
                        miss-Gets (first_of (is_recyclable c) (oldest_first l)) i
                          (oldest_first-Splits (is_recyclable c) l m)
                          (next_none c (holds_block c dev blockno) l cache.ring cache.few y))
                ]))
          | inr n ↦
              let (i, h) = next_holds c (holds_block c dev blockno) l cache.ring cache.few n in
              rw n (hit-Gets (first_of (holds_block c dev blockno) l) i h)
        ])
