-- ===== src/Fork/Page.antt =====
-- What sharing a page leaves in both address spaces.
use osp.Prelude.{
  ℕ, ◌+◌, ◌*◌, ◌/◌, ◌%◌, ◌^◌, ◌≤◌, ◌<◌, ◌≡◌, refl, ◌⊎◌, inl, inr, true, false, Option, none, some,
  List, [], arith, ◌==◌, if◌then◌else◌, update, Bool-cases, ◌∙◌, sym, ap, true≢false,
}
use osp.Mmu.{pgsize, kernbase, pdx, ptx, pte_p, pte_w, pte_cow, pte_addr, flag, clear_bit}
use osp.PageFault.{is_cow}
use osp.Kalloc.{Kmem}
use osp.Kalloc.FreeList.{Free}
use osp.Vm.{find_pte, make_pte}
use osp.Vm.Lookup.{table, has_table, pte_at, IsPgdir}
use osp.Vm.Entry.{IsPte, Frames, Makes, Lacks, make_pte-Makes, write_pte-pte_at}
use osp.Vm.Mappages.{IsPte-Wrote}
use osp.PageFault.Cow.{find_pte-some}
use osp.Fork.{share_entry, copy_entry, share_at, share_page}
use osp.Fork.Share.{
  ArePgdirs, drop_page, k1, child1, child1-pte_at, free1, parent2-pte_at, value, parent3-pte_at,
}

-- The shared entry is copy-on-write and leads to the same frame.
share_entry-is_cow : (e : ℕ) → is_cow (share_entry e) ≡ true
share_entry-is_cow e =
    let off : flag (clear_bit e pte_w) pte_w ≡ false = ground arith in
    let c : flag (share_entry e) pte_cow ≡ true = ground arith in
    let w : flag (share_entry e) pte_w ≡ false = ground (arith, off) in rw (c, w) refl

share_entry-pte_addr : (e : ℕ) → pte_addr (share_entry e) ≡ pte_addr e
share_entry-pte_addr e = ground arith

-- Of the flags it changes the bits 1 (PTE_W) and 11 (PTE_COW) only: these are the bits 0 and 2 to 10.
share_entry-present : (e : ℕ) → share_entry e % 2 ≡ e % 2
share_entry-present e = ground arith

share_entry-flags : (e : ℕ) → share_entry e % 2048 / 4 ≡ e % 2048 / 4
share_entry-flags e = ground arith

module _ (kernel_end parent child va : ℕ) where
  -- Parent and child have the same entry for the page, present, read-only and copy-on-write, with the
  -- frame and the other flags the parent's entry had; all other entries are what they were.
  pub record Shares (k k' : Kmem) (ys : List ℕ) : Type 0 where
    pub tree : IsPgdir kernel_end k'.mem child ys
    pub free : Free kernel_end k' ys
    pub parents :
        (w : ℕ)
        → w < 2 ^ 32
        → pte_at k'.mem parent w ≡ (
            if w / pgsize == va / pgsize
            then share_entry (pte_at k.mem parent va)
            else pte_at k.mem parent w)
    pub cow : is_cow (share_entry (pte_at k.mem parent va)) ≡ true
    pub frame : pte_addr (share_entry (pte_at k.mem parent va)) ≡ pte_addr (pte_at k.mem parent va)
    pub present : share_entry (pte_at k.mem parent va) % 2 ≡ 1
    pub flags : share_entry (pte_at k.mem parent va) % 2048 / 4 ≡ pte_at k.mem parent va % 2048 / 4
    pub childs :
        (w : ℕ)
        → w < 2 ^ 32
        → pte_at k'.mem child w ≡ (
            if w / pgsize == va / pgsize
            then share_entry (pte_at k.mem parent va)
            else pte_at k.mem child w)

  share_at-present :
      (k : Kmem) (pte e : ℕ) (r : Option ℕ × Kmem)
      → k.mem pte ≡ e
      → flag e pte_p ≡ true
      → make_pte child va (record k { mem = update k.mem pte (share_entry e) }) ≡ r
      → share_at child va k (some pte) ≡ copy_entry pte r
  unfolding share_at
  share_at-present k pte e r a b c = rw (a, b, c)

  share_page-found :
      (k : Kmem) (pte : ℕ)
      → find_pte k.mem parent va ≡ some pte
      → share_page parent child va k ≡ share_at child va k (some pte)
  unfolding share_page
  share_page-found k pte e = rw e

  present-has :
      (k : Kmem)
      → flag (pte_at k.mem parent va) pte_p ≡ true
      → has_table k.mem parent (pdx va) ≡ true
  present-has k p = elim (Bool-cases (has_table k.mem parent (pdx va))) [
    | inl t ↦ t
    | inr n ↦ absurd (true≢false (sym p ∙ rw n))
  ]

  module _ (k : Kmem) (xs : List ℕ) (v : ArePgdirs kernel_end k.mem parent child xs)
      (f : Free kernel_end k xs) (lt : va < 2 ^ 32)
      (p : flag (pte_at k.mem parent va) pte_p ≡ true) where
    h : has_table k.mem parent (pdx va) ≡ true
    h = present-has k p

    abbrev pte : ℕ
    pte = table k.mem parent (pdx va) + 4 * ptx va

    runs :
        (r : Option ℕ × Kmem)
        → make_pte child va (k1 kernel_end parent child va k xs v f lt h) ≡ r
        → share_page parent child va k ≡ copy_entry pte r
    runs r e =
        share_page-found k pte (find_pte-some k.mem parent va h)
        ∙ share_at-present k pte (pte_at k.mem parent va) r (sym (rw h)) p e

    abbrev kmem1 : Kmem
    kmem1 = k1 kernel_end parent child va k xs v f lt h

    shared-Shares :
        (q : ℕ) (k2 : Kmem) (ys : List ℕ) (i : IsPte kernel_end child va kmem1 q k2 ys)
        → Frames kernel_end child va kmem1 k2 xs
        → Shares k (record k2 { mem = update k2.mem q (k2.mem pte) }) ys
    shared-Shares q k2 ys i fr =
        let e = k2.mem pte in
        let entry = value kernel_end parent child va k xs v f lt h q k2 ys i fr in
        let w = IsPte-Wrote kernel_end child va q e kmem1 k2 ys lt i in
        record {
          tree = w.tree;
          free = w.free;
          parents = λ x lx.
              ap (λ y. pte_at (update k2.mem y e) parent x) i.place
              ∙ parent3-pte_at kernel_end parent child va k xs v f lt h q k2 ys i fr x
              ∙ parent2-pte_at kernel_end parent child va k xs v f lt h q k2 ys i fr x
              ∙ write_pte-pte_at kernel_end parent k.mem va (share_entry (pte_at k.mem parent va))
                  xs (drop_page kernel_end k.mem parent child xs v.parents) h x lx lt;
          cow = share_entry-is_cow (pte_at k.mem parent va);
          frame = share_entry-pte_addr (pte_at k.mem parent va);
          present = share_entry-present (pte_at k.mem parent va) ∙ ground (arith, p);
          flags = share_entry-flags (pte_at k.mem parent va);
          childs = λ x lx.
              w.map x lx
              ∙ ap (λ y. if x / pgsize == va / pgsize then y else pte_at kmem1.mem child x) entry
              ∙ ap
                  (λ y.
                    if x / pgsize == va / pgsize then share_entry (pte_at k.mem parent va) else y)
                  (child1-pte_at kernel_end parent child va k xs v f lt h x);
        }

  -- A present page of a private mapping in the loop of fork, for two directories whose trees share no
  -- page: either both address spaces get the parent's entry, which leads to the same frame, made
  -- read-only and copy-on-write with its other flags as they were, and every other entry of both stays;
  -- or the child has no page table for it and no page is free, and fork panics.
  pub share_page-Shares :
      (k : Kmem) (xs : List ℕ)
      → kernbase ≤ kernel_end
      → ArePgdirs kernel_end k.mem parent child xs
      → Free kernel_end k xs
      → va < 2 ^ 32
      → flag (pte_at k.mem parent va) pte_p ≡ true
      → ((k' : Kmem) × (ys : List ℕ) × (share_page parent child va k ≡ some k') × Shares k k' ys)
        ⊎ (xs ≡ []) × (share_page parent child va k ≡ none)
  share_page-Shares k xs high v f lt p = by_case (
      make_pte-Makes kernel_end child va (kmem1 k xs v f lt p) xs high
        (free1 kernel_end parent child va k xs v f lt (h k xs v f lt p))
        (child1 kernel_end parent child va k xs v f lt (h k xs v f lt p)))
    where
      by_case :
          Makes kernel_end child va (kmem1 k xs v f lt p) xs
            ⊎ Lacks kernel_end child va (kmem1 k xs v f lt p) xs
          → ((k' : Kmem) × (ys : List ℕ) × (share_page parent child va k ≡ some k')
              × Shares k k' ys)
            ⊎ (xs ≡ []) × (share_page parent child va k ≡ none)
      by_case (inl (q, k2, ys, e, i, _, fr)) = inl (
        record k2 { mem = update k2.mem q (k2.mem (pte k xs v f lt p)) },
        ys,
        runs k xs v f lt p (some q, k2) e,
        shared-Shares k xs v f lt p q k2 ys i fr,
      )
      by_case (inr (none_left, _, e)) = inr (none_left, runs k xs v f lt p (none, _) e)
