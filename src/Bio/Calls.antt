-- ===== src/Bio/Calls.antt =====
-- xv6-public/bio.c: the cache from binit on, under any calls.
use osp.Prelude.{
  ℕ, zero, suc, ◌+◌, ◌≤◌, ◌<◌, ◌≡◌, refl, ap, subst, Option, none, some, List, [], ◌∷◌, ◌==◌, ◌>>=◌,
  All, length, arith, ne_of_==, Bool-cases, Option-cases, inl, inr,
}
use osp.Bio.{list_head, nbuf, Bcache, no_buf, link_first, binit_loop, binit, bget, lock_buf, brelse}
use osp.Bio.Ring.{AreOther}
use osp.Bio.Moves.{IsIn, IsRing, All-map, link_first-Links}
use osp.Bio.Lru.{IsCache, same-IsCache, Answers, bget-Answers}
use osp.Bio.Release.{IsIn-remove, order_behind, Released, brelse-Released}
use osp.Spinlock.{acquiresleep}

-- The list that binit makes of `l` with `n` buffers from `b` on.
abbrev pushed : ℕ → ℕ → List ℕ → List ℕ
pushed zero b l = l
pushed (suc n) b l = pushed n (b + 1) (b ∷ l)

-- All buffers below `b` are in the list.
abbrev IsWhole : ℕ → List ℕ → Type 0
IsWhole b l = (z : ℕ) → z < b → IsIn z l

IsWhole-cons : (b : ℕ) (l : List ℕ) → IsWhole b l → IsWhole (b + 1) (b ∷ l)
IsWhole-cons b l w z h = elim (Bool-cases (b == z)) [
  | inl y ↦ rw y tt
  | inr n ↦ rw n (w z (let ne = ne_of_== b z n in ground arith))
]

-- A ring of the buffers below `b`.
record Made (b : ℕ) (c : Bcache) (l : List ℕ) : Type 0 where
  ring : IsRing c l
  below : All (λ z. z < b) l
  size : length l ≡ b
  whole : IsWhole b l

binit_loop-Made :
    (n b t : ℕ) (c : Bcache) (l : List ℕ)
    → n + b ≡ t
    → t ≤ nbuf
    → Made b c l
    → Made t (binit_loop n b c) (pushed n b l)
unfolding binit_loop
binit_loop-Made zero b t c l s h m = subst (λ x. Made x c l) (omega arith) m
binit_loop-Made (suc n) b t c l s h m =
    let other : AreOther b l = All-map (λ z lt. ground arith) l m.below in
    let made : Made (b + 1) (link_first b c) (b ∷ l) = record {
      ring = record {
        links = link_first-Links c b l m.ring other (λ e. absurd (omega arith));
        distinct = (other, m.ring.distinct);
        other = (ground arith, m.ring.other);
      };
      below = (omega arith, All-map (λ z lt. omega arith) l m.below);
      size = omega (arith, m.size);
      whole = IsWhole-cons b l m.whole;
    } in
    binit_loop-Made n (b + 1) t (link_first b c) (b ∷ l) (omega arith) h made

binit_loop-buf : (n b : ℕ) (c : Bcache) → (binit_loop n b c).buf ≡ c.buf
unfolding binit_loop link_first
binit_loop-buf zero b c = refl
binit_loop-buf (suc n) b c = binit_loop-buf n (b + 1) (link_first b c)

abbrev pub newest_first : List ℕ
newest_first = pushed nbuf 0 []

abbrev unlinked : Bcache
unlinked = record { buf = λ b. no_buf; next = λ b. list_head; prev = λ b. list_head }

binit-Made : Made nbuf binit newest_first
unfolding binit
binit-Made = binit_loop-Made nbuf 0 nbuf unlinked [] (omega arith) (omega arith) (record {
  ring = record { links = (refl, refl); distinct = tt; other = tt };
  below = tt;
  size = refl;
  whole = λ z h. absurd (omega arith);
})

pub binit-IsCache : IsCache binit newest_first
unfolding binit
binit-IsCache = record {
  ring = binit-Made.ring;
  few = omega (arith, binit-Made.size);
  unique = λ i j _ _ ne. absurd (ne (ap (λ f. (f i).dev) (binit_loop-buf nbuf 0 unlinked)));
}

-- What a process does to the cache; a call that panics or sleeps leaves it as it is.
pub data Call : Type 0 where
  get : ℕ → ℕ → Call
  lock : ℕ → ℕ → Call
  put : ℕ → ℕ → Call

abbrev pub left_by : Bcache → Option Bcache → Bcache
left_by c none = c
left_by c (some c') = c'

abbrev pub step : Call → Bcache → Bcache
step (get dev blockno) c = left_by c (bget dev blockno c >>= λ r. some r.1)
step (lock pid b) c = left_by c (lock_buf pid b c)
step (put pid b) c = left_by c (brelse pid b c)

abbrev pub run : List Call → Bcache → Bcache
run [] c = c
run (x ∷ calls) c = run calls (step x c)

-- The buffers of the calls are in bcache.buf.
abbrev pub IsCall : Call → Type 0
IsCall (get dev blockno) = Unit
IsCall (lock pid b) = b < nbuf
IsCall (put pid b) = b < nbuf

pub record Kept (c : Bcache) (l : List ℕ) : Type 0 where
  pub cache : IsCache c l
  pub whole : (b : ℕ) → b < nbuf → IsIn b l

module _ (c : Bcache) (l : List ℕ) (k : Kept c l) where
  get-Kept :
      (dev blockno : ℕ) (r : Option (ℕ × Bcache))
      → Answers c l dev blockno r
      → Kept (left_by c (r >>= λ r. some r.1)) l
  get-Kept dev blockno none _ = k
  get-Kept dev blockno (some (b, c')) g = record { cache = g.cache; whole = k.whole }

  put-Kept :
      (pid b : ℕ) (r : Option Bcache) → Released pid b c l r → (l' : List ℕ) × Kept (left_by c r) l'
  put-Kept pid b none _ = (l, k)
  put-Kept pid b (some c') (_, _, p) = (
    order_behind c' b l,
    record {
      cache = p.cache;
      whole = λ z h. elim (Bool-cases ((c'.buf b).refcnt == 0)) [
        | inl y ↦ rw y (IsIn-remove b z l (k.whole z h))
        | inr n ↦ rw n (k.whole z h)
      ];
    },
  )

  lock-Kept : (pid b : ℕ) → IsIn b l → Kept (left_by c (lock_buf pid b c)) l
  lock-Kept pid b i = elim (Option-cases (acquiresleep pid (c.buf b).lock)) [
    | inl e ↦ rw e k
    | inr (lk, e) ↦ rw e (record {
      cache = same-IsCache c l k.cache b i (record (c.buf b) { lock = lk }) (refl, refl);
      whole = k.whole;
    })
  ]

  step-Kept : (x : Call) → IsCall x → (l' : List ℕ) × Kept (step x c) l'
  step-Kept (get dev blockno) h =
      (l, get-Kept dev blockno (bget dev blockno c) (bget-Answers c l k.cache dev blockno))
  step-Kept (lock pid b) h = (l, lock-Kept pid b (k.whole b h))
  step-Kept (put pid b) h =
      put-Kept pid b (brelse pid b c) (brelse-Released b l (k.whole b h) pid c k.cache)

run-Kept :
    (calls : List Call) (c : Bcache) (l : List ℕ)
    → All IsCall calls
    → Kept c l
    → (l' : List ℕ) × Kept (run calls c) l'
run-Kept [] c l _ k = (l, k)
run-Kept (x ∷ calls) c l (h, hs) k =
    let (l1, k1) = step-Kept c l k x h in run-Kept calls (step x c) l1 hs k1

-- After binit and any calls of bget, acquiresleep and brelse of any processes, in any order, the links
-- in both directions are one ring of all the buffers, and no block of a device other than 0 is in two
-- buffers.
pub run-IsCache : (calls : List Call) → All IsCall calls → (l : List ℕ) × Kept (run calls binit) l
run-IsCache calls h =
    run-Kept calls binit newest_first h (record { cache = binit-IsCache; whole = binit-Made.whole })
