-- ===== src/Tests/Vm.antt =====
-- The theorems on vm.c at an empty page directory with one free page.
use osp.Prelude.{ℕ, ◌≡◌, refl, Bool, false, true, some, List, [], ◌∷◌, arith, true≢false, sym}
use osp.Kalloc.{Kmem}
use osp.Kalloc.FreeList.{Free}
use osp.Vm.{mappages}
use osp.Vm.Lookup.{IsPgdir}
use osp.Vm.Mappages.{Maps}
use osp.Vm.Installed.{AreInstalled, mappages-AreInstalled}

abbrev kend : ℕ
kend = 0x8010_0000

abbrev dir : ℕ
dir = 0x8010_3000

abbrev page0 : ℕ
page0 = 0x8010_1000

abbrev k0 : Kmem
k0 = record { mem = λ _. 0; freelist = page0; use_lock = false }

k0-Free : Free kend k0 (page0 ∷ [])
k0-Free = (refl, omega arith, tt, refl)

k0-IsPgdir : IsPgdir kend k0.mem dir (page0 ∷ [])
k0-IsPgdir = record {
  page = omega arith;
  taken = omega arith;
  tables = λ d lt h. absurd (true≢false (sym h));
  apart = λ d e ld le h _ _. absurd (true≢false (sym h));
}

mappages-AreInstalled_example :
    (done : Bool) × (k' : Kmem) × (ys : List ℕ) × (mappages dir 0x6000_0FFF 2 0x8000 6 k0
      ≡ some (done, k'))
    × Maps kend dir 1 0x6000_0000 0x8000 6 k0 done k' ys
    × (done ≡ true → AreInstalled dir 1 0x6000_0000 0x8000 6 k')
mappages-AreInstalled_example =
    mappages-AreInstalled kend dir 0x6000_0FFF 2 0x8000 6 k0 (page0 ∷ []) (omega arith)
      (omega arith) (omega arith) (omega arith) refl (omega arith) k0-Free k0-IsPgdir
      (λ w _ _ _. refl)
