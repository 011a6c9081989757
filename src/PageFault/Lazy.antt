-- ===== src/PageFault/Lazy.antt =====
-- A fault on a page that no mapping has a frame for yet.
use osp.Prelude.{
  ℕ, ◌+◌, ◌-◌, ◌*◌, ◌/◌, ◌%◌, ◌^◌, ◌≤◌, ◌<◌, ◌≡◌, ◌≢◌, refl, ◌⊎◌, inl, inr, Bool, true, false, ◌&&◌,
  none, some, List, [], ◌∷◌, arith, ltb, leb, ◌==◌, if◌then◌else◌, ◌∙◌, ap,
}
use osp.Mmu.{pgsize, kernbase, v2p, pgrounddown, flag}
use osp.Kalloc.{Kmem, kalloc, kfree}
use osp.Kalloc.FreeList.{Free, kalloc-pop}
use osp.Proc.{Proc}
use osp.Mmap.{map_anonymous, map_growsup}
use osp.Munmap.{Files}
use osp.Vm.{mappages, zero_page, entry}
use osp.Vm.Lookup.{pte_at, IsPgdir}
use osp.Vm.Range.{mapped, mapped-in}
use osp.Vm.Mappages.{Maps, IsUnmapped, mappages-Maps}
use osp.Vm.Frame.{fill-Chain, fill-IsPgdir, fill-pte_at}
use osp.PageFault.{is_cow, map_or_free, page_fault_handler}
use osp.PageFault.Serve.{
  Holds, IsPlain, handler-serve, serve-plain, fault_page-plain, serve-null, kfree-IsPage,
  map_or_free-done, map_or_free-short,
}

-- The number of pages that a page-sized range from `va` touches, less one: 0 or 1.
abbrev pub more_pages : ℕ → ℕ
more_pages va = (va + pgsize - 1) / pgsize - va / pgsize

-- After the fault: the pages of the range lead to the frames from that of `x` on.
pub record Backed (kernel_end pgdir va x : ℕ) (k k' : Kmem) (ys : List ℕ) : Type 0 where
  pub tree : IsPgdir kernel_end k'.mem pgdir ys
  pub free : Free kernel_end k' ys
  pub map :
      (w : ℕ)
      → w < 2 ^ 32
      → pte_at k'.mem pgdir w ≡ mapped pgdir (more_pages va) (pgrounddown va) (v2p x) 6 k.mem w

-- mappages failed: no page is left, but `x`, which is freed again.
pub record GaveBack (kernel_end pgdir va x : ℕ) (k k' : Kmem) : Type 0 where
  pub before : Kmem
  pub fails :
      mappages pgdir va pgsize (v2p x) 6 (record (kalloc k).1 { mem = zero_page x k.mem })
      ≡ some (false, before)
  pub none_left : Free kernel_end before []
  pub freed : kfree kernel_end x before ≡ some k'

abbrev pub Served : ℕ → ℕ → ℕ → ℕ → Kmem → Kmem → Type 0
Served kernel_end pgdir va x k k' =
    ((ys : List ℕ) × Backed kernel_end pgdir va x k k' ys) ⊎ GaveBack kernel_end pgdir va x k k'

module _ (kernel_end pgdir va x : ℕ) (xs : List ℕ) (k : Kmem) (high : kernbase ≤ kernel_end)
    (f : Free kernel_end k (x ∷ xs)) (v : IsPgdir kernel_end k.mem pgdir (x ∷ xs))
    (small : va + pgsize < 2 ^ 32)
    (un : IsUnmapped kernel_end pgdir (more_pages va) (pgrounddown va) k) where
  abbrev zeroed : Kmem
  zeroed = record (kalloc k).1 { mem = zero_page x k.mem }

  outside : (a : ℕ) → (a < x) ⊎ (x + pgsize ≤ a) → zero_page x k.mem a ≡ k.mem a
  outside a (inl o) = let e : leb x a ≡ false = ground arith in rw e
  outside a (inr o) = let e : ltb a (x + pgsize) ≡ false = ground arith in rw e (ground arith)

  zeroed-Free : Free kernel_end zeroed xs
  zeroed-Free =
      let (_, rest, mem_eq) = kalloc-pop kernel_end k x xs (omega arith) f in
      fill-Chain kernel_end pgdir k.mem (zero_page x k.mem) x xs f.1 outside (kalloc k).1.freelist
        f.2 (rw mem_eq at rest)

  zeroed-pte_at : (w : ℕ) → pte_at (zero_page x k.mem) pgdir w ≡ pte_at k.mem pgdir w
  zeroed-pte_at = fill-pte_at kernel_end pgdir k.mem (zero_page x k.mem) x xs f.1 outside v

  zeroed-Maps :
      (done : Bool) × (k' : Kmem) × (ys : List ℕ) × (mappages pgdir va pgsize (v2p x) 6 zeroed
        ≡ some (done, k'))
      × Maps kernel_end pgdir (more_pages va) (pgrounddown va) (v2p x) 6 zeroed done k' ys
  zeroed-Maps =
      mappages-Maps kernel_end pgdir va pgsize (v2p x) 6 zeroed xs high (omega arith) small
        (omega (arith, f.1.below)) zeroed-Free
        (fill-IsPgdir kernel_end pgdir k.mem (zero_page x k.mem) x xs f.1 outside v)
        (λ w lw lo hi. rw (zeroed-pte_at w) (un w lw lo hi))

  map_or_free-Served :
      (k' : Kmem) × (map_or_free kernel_end pgdir va x zeroed ≡ some k')
      × Served kernel_end pgdir va x k k'
  map_or_free-Served = by_case zeroed-Maps
    where
      by_case :
          ((done : Bool) × (k' : Kmem) × (ys : List ℕ) × (mappages pgdir va pgsize (v2p x) 6 zeroed
              ≡ some (done, k'))
            × Maps kernel_end pgdir (more_pages va) (pgrounddown va) (v2p x) 6 zeroed done k' ys)
          → (k' : Kmem) × (map_or_free kernel_end pgdir va x zeroed ≡ some k')
            × Served kernel_end pgdir va x k k'
      by_case (true, k', ys, e, m) = (
        k',
        map_or_free-done kernel_end pgdir va x zeroed k' e,
        inl (
          ys,
          record {
            tree = m.tree;
            free = m.free;
            map = λ w lw.
                m.inside refl w lw
                ∙ ap
                    (λ o.
                      if leb (pgrounddown va / pgsize) (w / pgsize)
                        && leb (w / pgsize) (pgrounddown va / pgsize + more_pages va)
                      then entry (v2p x + (w / pgsize - pgrounddown va / pgsize) * pgsize) 6
                      else o)
                    (zeroed-pte_at w);
          },
        ),
      )
      by_case (false, k1, ys, e, m) =
          let (k2, g) = kfree-IsPage kernel_end x k1 f.1 in
          (
            k2,
            map_or_free-short kernel_end pgdir va x zeroed k1 k2 e g,
            inr (record {
              before = k1;
              fails = e;
              none_left = rw (m.short refl) at m.free;
              freed = g;
            }),
          )

-- A fault on an address that an anonymous mapping without MAP_GROWSUP holds, the first in the table to
-- do so, where the range [va, va + PGSIZE) has no present page, the entry is not copy-on-write, and a
-- page `x` is free: the handler returns 1 and changes neither the process nor the file layer. Either
-- the pages that the range touches lead to the frames from that of `x` on, user-writable, and no other
-- page is mapped otherwise than before; or mappages found no free page for a page table, and `x` is
-- freed again.
pub handler-Served :
    {S : Type 0} (fs : Files S) (kernel_end : ℕ) (junk : ℕ → ℕ) (va i x : ℕ) (xs : List ℕ)
    (k : Kmem) (p : Proc) (s : S)
    → kernbase ≤ kernel_end
    → Free kernel_end k (x ∷ xs)
    → IsPgdir kernel_end k.mem p.pgdir (x ∷ xs)
    → va + pgsize < 2 ^ 32
    → IsUnmapped kernel_end p.pgdir (more_pages va) (pgrounddown va) k
    → is_cow (pte_at k.mem p.pgdir va) ≡ false
    → Holds p va i
    → IsPlain (p.memory_mappings i)
    → (k' : Kmem) × (page_fault_handler fs kernel_end junk va k p s ≡ some (1, k', p, s))
      × Served kernel_end p.pgdir va x k k'
handler-Served fs kernel_end junk va i x xs k p s high f v small un nc h pl =
    let (got, _, mem_eq) = kalloc-pop kernel_end k x xs (omega arith) f in
    let live : ((kalloc k).0 == 0) ≡ false = rw got (ground (arith, f.1.above)) in
    let (k', run, served) = map_or_free-Served kernel_end p.pgdir va x xs k high f v small un in
    (
      k',
      handler-serve fs kernel_end junk va i p s h k nc
          ∙ serve-plain fs kernel_end junk va i p s h pl k live
          ∙ rw got
              (fault_page-plain fs kernel_end junk va i p s h pl (kalloc k).1 k' x (rw mem_eq run)),
      served,
    )

Backed-next :
    (kernel_end pgdir va x : ℕ) (k k' : Kmem) (ys : List ℕ)
    → va % pgsize ≢ 0
    → va + pgsize < 2 ^ 32
    → Backed kernel_end pgdir va x k k' ys
    → pte_at k'.mem pgdir (va + pgsize) ≡ entry (v2p x + pgsize) 6
Backed-next kernel_end pgdir va x k k' ys ne small b =
    b.map (va + pgsize) small
    ∙ mapped-in pgdir (more_pages va) (pgrounddown va) (v2p x) 6 k.mem (va + pgsize) (omega arith)
        (omega arith)
    ∙ ap (λ o. entry o 6) (omega arith)

module _ {S : Type 0} (fs : Files S) (kernel_end : ℕ) (junk : ℕ → ℕ) where
  -- A fault in a mapping of the file with descriptor 0, not a growing one, panics: the handler takes
  -- the inode only of a positive descriptor.
  pub handler_descriptor_zero :
      (va i : ℕ) (k : Kmem) (p : Proc) (s : S)
      → is_cow (pte_at k.mem p.pgdir va) ≡ false
      → Holds p va i
      → flag (p.memory_mappings i).flags map_anonymous ≡ false
      → flag (p.memory_mappings i).flags map_growsup ≡ false
      → (p.memory_mappings i).fd ≡ 0
      → page_fault_handler fs kernel_end junk va k p s ≡ none
  handler_descriptor_zero va i k p s nc h a g z =
      handler-serve fs kernel_end junk va i p s h k nc
      ∙ serve-null fs kernel_end junk va i k p s a g z
