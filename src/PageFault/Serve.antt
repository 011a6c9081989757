-- ===== src/PageFault/Serve.antt =====
-- The way through page_fault_handler to the mapping that holds the address, and its branches.
use osp.Prelude.{
  ℕ, zero, suc, ◌+◌, ◌≤◌, ◌<◌, ◌≡◌, refl, inl, inr, true, false, none, some, arith, ◌==◌, update,
  Bool-cases, ap,
}
use native.Mathlib.Decide.{ℕ_discrete}
use osp.Mmu.{pgsize, v2p, pdx, flag}
use osp.Kalloc.{Kmem, fill_page, kalloc, kfree}
use osp.Kalloc.FreeList.{IsPage}
use osp.Proc.{MemMapping, Proc}
use osp.Mmap.{map_anonymous, map_growsup, slt}
use osp.Munmap.{Files}
use osp.Vm.{find_pte, mappages, zero_page}
use osp.Vm.Lookup.{has_table, pte_at}
use osp.PageFault.{
  is_cow, holds, fill, fault_inode, grow, map_or_free, fault_page, serve, fault_loop, lazy_fault,
  fault_at, page_fault_handler,
}

-- Mapping `i` is the first in the table that holds the address.
pub record Holds (p : Proc) (va i : ℕ) : Type 0 where
  pub below : i < p.num_mappings
  pub hit : holds va (p.memory_mappings i) ≡ true
  pub first : (j : ℕ) → j < i → holds va (p.memory_mappings j) ≡ false

-- An anonymous mapping that does not grow.
abbrev pub IsPlain : MemMapping → Type 0
IsPlain m =
    (flag m.flags map_anonymous ≡ true) × (flag m.flags map_growsup ≡ false) × (slt 0 m.fd ≡ false)

module _ {S : Type 0} (fs : Files S) (kernel_end : ℕ) (junk : ℕ → ℕ) (va i : ℕ) (p : Proc) (s : S)
    (h : Holds p va i) where
  fault_loop-serve :
      (n j : ℕ) (k : Kmem)
      → j ≤ i
      → i < j + n
      → fault_loop fs kernel_end junk va j n k p s ≡ serve fs kernel_end junk va i k p s
  unfolding fault_loop
  fault_loop-serve zero j k lo hi = absurd (omega arith)
  fault_loop-serve (suc n) j k lo hi = elim (ℕ_discrete j i) [
    | yes e ↦
        let hit : holds va (p.memory_mappings j) ≡ true = rw e h.hit in
        rw hit (ap (λ l. serve fs kernel_end junk va l k p s) e)
    | no ne ↦
        let miss : holds va (p.memory_mappings j) ≡ false = h.first j (omega arith) in
        rw miss (fault_loop-serve n (j + 1) k (omega arith) (omega arith))
  ]

  lazy_fault-serve :
      (k : Kmem) → lazy_fault fs kernel_end junk va k p s ≡ serve fs kernel_end junk va i k p s
  unfolding lazy_fault
  lazy_fault-serve k = fault_loop-serve p.num_mappings 0 k (omega arith) (omega (arith, h.below))

  -- The handler gets here where the page is not a copy-on-write page.
  pub handler-serve :
      (k : Kmem)
      → is_cow (pte_at k.mem p.pgdir va) ≡ false
      → page_fault_handler fs kernel_end junk va k p s ≡ serve fs kernel_end junk va i k p s
  unfolding page_fault_handler fault_at find_pte
  handler-serve k nc = elim (Bool-cases (has_table k.mem p.pgdir (pdx va))) [
    | inl t ↦ rw (t, rw t at nc) (lazy_fault-serve k)
    | inr f ↦ rw f (lazy_fault-serve k)
  ]

  module _ (pl : IsPlain (p.memory_mappings i)) where
    pub serve-plain :
        (k : Kmem)
        → ((kalloc k).0 == 0) ≡ false
        → serve fs kernel_end junk va i k p s
          ≡ fault_page fs kernel_end junk va (p.memory_mappings i) 0 (kalloc k).0 (kalloc k).1 p s
    unfolding serve fault_inode grow
    serve-plain k live = rw (live, pl.1, pl.2)

    pub fault_page-plain :
        (k1 k2 : Kmem) (page : ℕ)
        → map_or_free kernel_end p.pgdir va page (record k1 { mem = zero_page page k1.mem })
          ≡ some k2
        → fault_page fs kernel_end junk va (p.memory_mappings i) 0 page k1 p s ≡ some (1, k2, p, s)
    unfolding fault_page fill
    fault_page-plain k1 k2 page e = rw (pl.0, e)

pub kfree-IsPage :
    (kernel_end v : ℕ) (k : Kmem)
    → IsPage kernel_end v
    → (k' : Kmem) × (kfree kernel_end v k ≡ some k')
unfolding kfree
kfree-IsPage kernel_end v k pg = (
  record k { mem = update (fill_page v k.mem) v k.freelist; freelist = v },
  ground (arith, pg.aligned, pg.above, pg.below),
)

module _ (kernel_end pgdir va page : ℕ) (k : Kmem) where
  pub map_or_free-done :
      (k1 : Kmem)
      → mappages pgdir va pgsize (v2p page) 6 k ≡ some (true, k1)
      → map_or_free kernel_end pgdir va page k ≡ some k1
  unfolding map_or_free
  map_or_free-done k1 e = rw e

  pub map_or_free-short :
      (k1 k2 : Kmem)
      → mappages pgdir va pgsize (v2p page) 6 k ≡ some (false, k1)
      → kfree kernel_end page k1 ≡ some k2
      → map_or_free kernel_end pgdir va page k ≡ some k2
  unfolding map_or_free
  map_or_free-short k1 k2 e f = rw (e, f)

module _ {S : Type 0} (fs : Files S) (kernel_end : ℕ) (junk : ℕ → ℕ) where
  fault_page-null :
      (va page : ℕ) (m : MemMapping) (k : Kmem) (p : Proc) (s : S)
      → flag m.flags map_anonymous ≡ false
      → fault_page fs kernel_end junk va m 0 page k p s ≡ none
  unfolding fault_page fill
  fault_page-null va page m k p s e = rw e

  pub serve-null :
      (va i : ℕ) (k : Kmem) (p : Proc) (s : S)
      → flag (p.memory_mappings i).flags map_anonymous ≡ false
      → flag (p.memory_mappings i).flags map_growsup ≡ false
      → (p.memory_mappings i).fd ≡ 0
      → serve fs kernel_end junk va i k p s ≡ none
  unfolding serve fault_inode grow
  serve-null va i k p s a g z = elim (Bool-cases ((kalloc k).0 == 0)) [
    | inl e ↦ rw (z, e) refl
    | inr e ↦
        rw (z, e, g) (fault_page-null va (kalloc k).0 (p.memory_mappings i) (kalloc k).1 p s a)
  ]
