-- ===== src/Munmap/Shift.antt =====
-- Taking a mapping out of the array moves those behind it one place down.
use osp.Prelude.{
  ℕ, zero, suc, ◌+◌, ◌-◌, ◌<◌, ◌≡◌, false, ◌&&◌, arith, ltb, leb, if◌then◌else◌, update, ◌∙◌,
}
use osp.Proc.{MemMapping, Proc}
use osp.Mmap.Layout.{IsPlaced}
use osp.Munmap.{shift, remove_mapping}

shift-at :
    (n k j : ℕ) (maps : ℕ → MemMapping)
    → shift maps k n j ≡ (if leb k j && ltb j (k + n) then maps (j + 1) else maps j)
unfolding shift
shift-at zero k j maps = let out : (leb k j && ltb j (k + 0)) ≡ false = ground arith in rw out
shift-at (suc n) k j maps = rw (shift-at n (k + 1) j (update maps k (maps (k + 1)))) (ground arith)

-- The mapping with index `i` is gone, those before it stay, and those behind it move down by one.
pub remove_mapping-at :
    (i j : ℕ) (p : Proc)
    → i < p.num_mappings
    → j < p.num_mappings - 1
    → (remove_mapping i p).memory_mappings j
      ≡ (if ltb j i then p.memory_mappings j else p.memory_mappings (j + 1))
unfolding remove_mapping
remove_mapping-at i j p lt lj =
    rw (shift-at (p.num_mappings - 1 - i) i j p.memory_mappings) (ground arith)

-- The other mappings stay where they are.
pub remove_mapping-IsPlaced :
    (p : Proc) → 0 < p.num_mappings → IsPlaced p → IsPlaced (remove_mapping 0 p)
unfolding remove_mapping
remove_mapping-IsPlaced p pos v = record {
  few = omega (arith, v.few);
  inside = λ i lt. rw (moved i lt) (v.inside (i + 1) (omega arith));
  apart = λ i j li lj ne.
      rw (moved i li, moved j lj)
        (v.apart (i + 1) (j + 1) (omega arith) (omega arith) (omega arith));
}
  where
    moved :
        (i : ℕ)
        → i < p.num_mappings - 1
        → shift p.memory_mappings 0 (p.num_mappings - 1 - 0) i ≡ p.memory_mappings (i + 1)
    moved i lt = let up : ltb i 0 ≡ false = ground arith in remove_mapping-at 0 i p pos lt ∙ rw up
