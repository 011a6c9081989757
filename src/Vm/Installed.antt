-- ===== src/Vm/Installed.antt =====
-- The entries that mappages makes: present, with the frame and the permissions asked for.
use osp.Prelude.{
  ℕ, ◌+◌, ◌-◌, ◌*◌, ◌/◌, ◌%◌, ◌^◌, ◌≤◌, ◌<◌, ◌≡◌, Bool, true, some, List, arith, ◌∙◌, Bool-cases,
  inl, inr,
}
use osp.Mmu.{pgsize, kernbase, pgrounddown, or_low-page, flag, pte_p}
use osp.Kalloc.{Kmem}
use osp.Kalloc.FreeList.{Free}
use osp.Vm.{entry, mappages}
use osp.Vm.Lookup.{pte_at, IsPgdir}
use osp.Vm.Range.{mapped-in}
use osp.Vm.Mappages.{Maps, IsUnmapped, mappages-Maps}

-- A present entry (bit 0) for a page frame, with the other flags of `perm`.
pub record IsInstalled (frame perm e : ℕ) : Type 0 where
  pub present : e % 2 ≡ 1
  pub address : e / 4096 * 4096 ≡ frame
  pub flags : e % 4096 / 2 ≡ perm / 2

entry-IsInstalled :
    (pa perm : ℕ) → pa % pgsize ≡ 0 → perm < 4096 → IsInstalled pa perm (entry pa perm)
entry-IsInstalled pa perm al small =
    rw (or_low-page pa perm al) (elim (Bool-cases (flag (pa + perm) pte_p)) [
      | inl y ↦
          let odd : perm % 2 ≡ 1 = ground arith in
          rw y (record { present = omega arith; address = omega arith; flags = omega arith })
      | inr n ↦
          let even : perm % 2 ≡ 0 = ground arith in
          rw n (record { present = omega arith; address = omega arith; flags = omega arith })
    ])

-- The pages of the range, from the one of `a` on, have consecutive frames from `pa` on.
abbrev pub AreInstalled : ℕ → ℕ → ℕ → ℕ → ℕ → Kmem → Type 0
AreInstalled pgdir n a pa perm k =
    (w : ℕ)
    → w < 2 ^ 32
    → a / pgsize ≤ w / pgsize
    → w / pgsize ≤ a / pgsize + n
    → IsInstalled (pa + (w / pgsize - a / pgsize) * pgsize) perm (pte_at k.mem pgdir w)

-- mappages of a positive size with a page frame `pa` and twelve bits of flags, at an address range that
-- does not wrap and where no page is mapped already, returns without a panic. If it succeeds, the pages
-- from the one of `va` to the one of the last byte are present, with consecutive frames from `pa` on
-- and the flags asked for; if it fails, no free page is left. In both cases no address outside of these
-- pages is mapped otherwise than before, and the directory stays a tree of different pages, none of
-- them free.
pub mappages-AreInstalled :
    (kernel_end pgdir va size pa perm : ℕ) (k : Kmem) (xs : List ℕ)
    → kernbase ≤ kernel_end
    → 0 < size
    → va + size < 2 ^ 32
    → pa + size + pgsize < 2 ^ 32
    → pa % pgsize ≡ 0
    → perm < 4096
    → Free kernel_end k xs
    → IsPgdir kernel_end k.mem pgdir xs
    → IsUnmapped kernel_end pgdir ((va + size - 1) / pgsize - va / pgsize) (pgrounddown va) k
    → (done : Bool) × (k' : Kmem) × (ys : List ℕ) × (mappages pgdir va size pa perm k
        ≡ some (done, k'))
      × Maps kernel_end pgdir
          ((va + size - 1) / pgsize - va / pgsize)
          (pgrounddown va)
          pa
          perm
          k
          done
          k'
          ys
      × (done ≡ true
          → AreInstalled pgdir ((va + size - 1) / pgsize - va / pgsize) (pgrounddown va) pa perm k')
mappages-AreInstalled kernel_end pgdir va size pa perm k xs high pos small ps al few f v un =
    let n = (va + size - 1) / pgsize - va / pgsize in
    let a = pgrounddown va in
    let (done, k', ys, run, maps) =
      mappages-Maps kernel_end pgdir va size pa perm k xs high pos small ps f v un in
    (
      done,
      k',
      ys,
      run,
      maps,
      λ q w lw lo hi.
          rw (maps.inside q w lw ∙ mapped-in pgdir n a pa perm k.mem w lo hi)
            (entry-IsInstalled (pa + (w / pgsize - a / pgsize) * pgsize) perm (omega arith) few),
    )
