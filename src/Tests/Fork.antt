-- ===== src/Tests/Fork.antt =====
-- The theorem on sharing a page: the parent has one page at 0x60000000, the child none.
use osp.Prelude.{
  ℕ, ◌+◌, ◌*◌, ◌<◌, ◌≡◌, ◌≢◌, ◌⊎◌, refl, true, false, none, some, List, [], ◌∷◌, arith, ◌==◌,
  if◌then◌else◌, sym, ◌∙◌,
}
use osp.Mmu.{pte_p, flag}
use osp.Kalloc.{Kmem}
use osp.Kalloc.FreeList.{Free}
use osp.Fork.{share_page}
use osp.Fork.Share.{ArePgdirs}
use osp.Fork.Page.{Shares, share_page-Shares}

abbrev kend : ℕ
kend = 0x8010_0000

abbrev page0 : ℕ
page0 = 0x8010_1000

abbrev parent : ℕ
parent = 0x8010_3000

abbrev tab : ℕ
tab = 0x8010_4000

abbrev child : ℕ
child = 0x8010_5000

abbrev mem0 : ℕ → ℕ
mem0 a = if a == parent + 4 * 0x180 then 0x10_4007 else if a == tab then 0x30_0007 else 0

abbrev k0 : Kmem
k0 = record { mem = mem0; freelist = page0; use_lock = false }

k0-Free : Free kend k0 (page0 ∷ [])
k0-Free = (refl, omega arith, tt, refl)

only_table : (d : ℕ) → d < 1024 → flag (mem0 (parent + 4 * d)) pte_p ≡ true → d ≡ 0x180
only_table d lt h = ground arith

no_table : (d : ℕ) → d < 1024 → flag (mem0 (child + 4 * d)) pte_p ≢ true
no_table d lt h = ground arith

mem0-ArePgdirs : ArePgdirs kend mem0 parent child (page0 ∷ [])
mem0-ArePgdirs = record {
  parents = record {
    page = omega arith;
    taken = omega arith;
    tables = λ d lt h.
        let e = only_table d lt h in
        rw e (omega arith, omega arith, (omega arith, (omega arith, tt)));
    apart = λ d e ld le h g n. absurd (n (only_table d ld h ∙ sym (only_table e le g)));
  };
  childs = record {
    page = omega arith;
    taken = omega arith;
    tables = λ d lt h. absurd (no_table d lt h);
    apart = λ d e ld le h g n. absurd (no_table d ld h);
  };
  apart = λ d e ld le h g. absurd (no_table e le g);
}

share_page-Shares_example :
    ((k' : Kmem) × (ys : List ℕ) × (share_page parent child 0x6000_0000 k0 ≡ some k')
      × Shares kend parent child 0x6000_0000 k0 k' ys)
    ⊎ ((page0 ∷ []) ≡ []) × (share_page parent child 0x6000_0000 k0 ≡ none)
share_page-Shares_example =
    share_page-Shares kend parent child 0x6000_0000 k0 (page0 ∷ []) (omega arith) mem0-ArePgdirs
      k0-Free (omega arith) refl
