-- ===== src/Mmap/Layout.antt =====
-- The mappings of a process lie apart, page by page, inside the area; and when sys_mmap keeps it so.
use osp.Prelude.{
  ℕ, ◌+◌, ◌%◌, ◌^◌, ◌≤◌, ◌<◌, ◌≡◌, ◌≢◌, ◌⊎◌, inl, inr, true, false, some, arith, ◌==◌, update,
  true≢false, sym, ◌∙◌,
}
use osp.Mmu.{pgsize, pgroundup, flag}
use native.Mathlib.Decide.{ℕ_discrete}
use osp.Proc.{MemMapping, Proc, max_mappings}
use osp.Mmap.{mmap_area_start, mmap_area_end, map_fixed, clashes, MmapArgs, sys_mmap}
use osp.Mmap.Find.{IsLowest}
use osp.Mmap.Place.{
  mapping, added, Outcome, refused, full, fixed, found, good-length, sys_mmap-Outcome,
}

-- A mapping of at least one byte, at a page of the area, that ends inside it.
pub record IsInside (m : MemMapping) : Type 0 where
  pub aligned : m.addr % pgsize ≡ 0
  pub above : mmap_area_start ≤ m.addr
  pub nonempty : 0 < m.length
  pub below : m.addr + m.length ≤ mmap_area_end

-- No page belongs to both.
abbrev pub Apart : MemMapping → MemMapping → Type 0
Apart m n = (m.addr + pgroundup m.length ≤ n.addr) ⊎ (n.addr + pgroundup n.length ≤ m.addr)

pub record IsPlaced (p : Proc) : Type 0 where
  pub few : p.num_mappings ≤ max_mappings
  pub inside : (i : ℕ) → i < p.num_mappings → IsInside (p.memory_mappings i)
  pub apart :
      (i j : ℕ)
      → i < p.num_mappings
      → j < p.num_mappings
      → i ≢ j
      → Apart (p.memory_mappings i) (p.memory_mappings j)

-- Two mappings inside the area whose bytes do not clash share no page.
Apart-of_clear :
    (m n : MemMapping) → IsInside m → IsInside n → clashes m.addr m.length n ≡ false → Apart m n
Apart-of_clear m n im in' c = ground arith

Apart-sym : (m n : MemMapping) → Apart m n → Apart n m
Apart-sym m n (inl h) = inr h
Apart-sym m n (inr h) = inl h

update_self : (f : ℕ → MemMapping) (n : ℕ) (m : MemMapping) → update f n m n ≡ m
update_self f n m = let e : (n == n) ≡ true = ground arith in rw e

update-below : (f : ℕ → MemMapping) (n i : ℕ) (m : MemMapping) → i < n → update f n m i ≡ f i
update-below f n i m lt = let e : (n == i) ≡ false = ground arith in rw e

module _ (junk : ℕ) (a : MmapArgs) (p : Proc) (r : ℕ) where
  -- The lowest clear page is a place for the mapping.
  added-IsPlaced :
      0 < a.length
      → a.length < 2 ^ 31
      → p.num_mappings < max_mappings
      → IsLowest p a.length mmap_area_start r
      → IsPlaced p
      → IsPlaced (added junk a r p)
  added-IsPlaced pos small room low v = record {
    few = omega arith;
    inside = λ i lt. elim (ℕ_discrete i p.num_mappings) [
      | yes e ↦ rw (e, at_new) new_inside
      | no ne ↦ rw (at_old i (omega arith)) (v.inside i (omega arith))
    ];
    apart = λ i j li lj ne. elim (ℕ_discrete i p.num_mappings) [
      | yes e ↦ rw (e, at_new, at_old j (omega arith)) (new_apart j (omega arith))
      | no n1 ↦ elim (ℕ_discrete j p.num_mappings) [
        | yes e ↦
            rw (e, at_new, at_old i (omega arith))
              (Apart-sym (mapping junk a r) (p.memory_mappings i) (new_apart i (omega arith)))
        | no n2 ↦
            rw (at_old i (omega arith), at_old j (omega arith))
              (v.apart i j (omega arith) (omega arith) ne)
      ]
    ];
  }
    where
      maps : ℕ → MemMapping
      maps = update p.memory_mappings p.num_mappings (mapping junk a r)

      at_new : maps p.num_mappings ≡ mapping junk a r
      at_new = update_self p.memory_mappings p.num_mappings (mapping junk a r)

      at_old : (i : ℕ) → i < p.num_mappings → maps i ≡ p.memory_mappings i
      at_old i lt = update-below p.memory_mappings p.num_mappings i (mapping junk a r) lt

      new_inside : IsInside (mapping junk a r)
      new_inside = record {
        aligned = low.aligned;
        above = low.above;
        nonempty = pos;
        below = low.fits;
      }

      new_apart : (j : ℕ) → j < p.num_mappings → Apart (mapping junk a r) (p.memory_mappings j)
      new_apart j lt =
          Apart-of_clear (mapping junk a r) (p.memory_mappings j) new_inside (v.inside j lt)
            (low.clear j lt)

-- Without MAP_FIXED, and with a slot free, sys_mmap returns and keeps the mappings inside the area
-- and apart.
pub sys_mmap-IsPlaced :
    (junk : ℕ) (a : MmapArgs) (p : Proc)
    → a.length < 2 ^ 32
    → p.num_mappings < max_mappings
    → flag a.flags map_fixed ≡ false
    → IsPlaced p
    → (r : ℕ) × (p' : Proc) × (sys_mmap junk (some a) p ≡ some (r, p')) × IsPlaced p'
sys_mmap-IsPlaced junk a p word room free v =
    let (r, p', e, o) = sys_mmap-Outcome junk a p word room in (r, p', e, keep r p' o)
  where
    keep : (r : ℕ) (p' : Proc) → Outcome junk a p r p' → IsPlaced p'
    keep r p' (refused _) = v
    keep r p' (full _ _ _) = v
    keep r p' (fixed _ fix) = absurd (true≢false (sym fix ∙ free))
    keep r p' (found r' ok _ low) =
        let (pos, small) = good-length p a word ok in
        added-IsPlaced junk a p r' pos small room low v
