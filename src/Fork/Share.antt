-- ===== src/Fork/Share.antt =====
-- One page of a private mapping, shared between parent and child.
use osp.Prelude.{
  ℕ, ◌+◌, ◌*◌, ◌^◌, ◌≤◌, ◌<◌, ◌≡◌, ◌≢◌, refl, ◌⊎◌, inl, inr, true, List, ◌∷◌, arith, update,
  update_self, update-ne, ◌∙◌, sym,
}
use osp.Mmu.{pgsize, pdx, ptx}
use osp.Kalloc.{Kmem}
use osp.Kalloc.FreeList.{IsPage, NotIn, Free}
use osp.Vm.Lookup.{table, has_table, pte_at, pte_at-agree, IsPgdir}
use osp.Vm.Entry.{IsPte, Frames, write_pte, write_pte-dir, write_pte-IsPgdir, write_pte-Free}
use osp.Vm.Frame.{fill-dir, fill-IsPgdir, fill-pte_at}
use osp.Fork.{share_entry}

module _ (kernel_end : ℕ) where
  -- A page outside of a tree that is not counted as such any more.
  pub drop_page :
      (mem : ℕ → ℕ) (pgdir z : ℕ) (xs : List ℕ)
      → IsPgdir kernel_end mem pgdir (z ∷ xs)
      → IsPgdir kernel_end mem pgdir xs
  drop_page mem pgdir z xs v = record {
    page = v.page;
    taken = v.taken.1;
    tables = λ d lt h. let (pg, n, m) = v.tables d lt h in (pg, n, m.1);
    apart = v.apart;
  }

  -- A further page outside of a tree.
  add_page :
      (mem : ℕ → ℕ) (pgdir z : ℕ) (xs : List ℕ)
      → z ≢ pgdir
      → ((d : ℕ) → d < 1024 → has_table mem pgdir d ≡ true → z ≢ table mem pgdir d)
      → IsPgdir kernel_end mem pgdir xs
      → IsPgdir kernel_end mem pgdir (z ∷ xs)
  add_page mem pgdir z xs n m v = record {
    page = v.page;
    taken = (n, v.taken);
    tables = λ d lt h. let (pg, a, b) = v.tables d lt h in (pg, a, (m d lt h, b));
    apart = v.apart;
  }

  -- The trees of two directories have no page in common, and none that is free.
  pub record ArePgdirs (mem : ℕ → ℕ) (parent child : ℕ) (xs : List ℕ) : Type 0 where
    pub parents : IsPgdir kernel_end mem parent (child ∷ xs)
    pub childs : IsPgdir kernel_end mem child (parent ∷ xs)
    pub apart :
        (d e : ℕ)
        → d < 1024
        → e < 1024
        → has_table mem parent d ≡ true
        → has_table mem child e ≡ true
        → table mem parent d ≢ table mem child e

  module _ (parent child va : ℕ) (k : Kmem) (xs : List ℕ) (v : ArePgdirs k.mem parent child xs)
      (f : Free kernel_end k xs) (lt : va < 2 ^ 32)
      (h : has_table k.mem parent (pdx va) ≡ true) where
    abbrev pub tab : ℕ
    tab = table k.mem parent (pdx va)

    abbrev pub shared : ℕ
    shared = share_entry (pte_at k.mem parent va)

    -- The memory with the parent's entry changed.
    abbrev pub mem1 : ℕ → ℕ
    mem1 = write_pte kernel_end parent k.mem va shared

    abbrev pub k1 : Kmem
    k1 = record k { mem = mem1 }

    tab-IsPage : IsPage kernel_end tab × (tab ≢ parent) × NotIn tab (child ∷ xs)
    tab-IsPage = v.parents.tables (pdx va) (omega arith) h

    elsewhere : (a : ℕ) → (a < tab) ⊎ (tab + pgsize ≤ a) → mem1 a ≡ k.mem a
    elsewhere a (inl o) = update-ne k.mem (tab + 4 * ptx va) shared a (omega arith)
    elsewhere a (inr o) = update-ne k.mem (tab + 4 * ptx va) shared a (omega arith)

    outside_child : IsPgdir kernel_end k.mem child (tab ∷ xs)
    outside_child =
        add_page k.mem child tab xs (λ e. tab-IsPage.2.0 (sym e))
          (λ d ld hd. v.apart (pdx va) d (omega arith) ld h hd)
          (drop_page k.mem child parent xs v.childs)

    pub child1 : IsPgdir kernel_end mem1 child xs
    child1 = fill-IsPgdir kernel_end child k.mem mem1 tab xs tab-IsPage.0 elsewhere outside_child

    child1-dir : (d : ℕ) → d < 1024 → mem1 (child + 4 * d) ≡ k.mem (child + 4 * d)
    child1-dir = fill-dir kernel_end child k.mem mem1 tab xs tab-IsPage.0 elsewhere outside_child

    pub child1-pte_at : (w : ℕ) → pte_at mem1 child w ≡ pte_at k.mem child w
    child1-pte_at =
        fill-pte_at kernel_end child k.mem mem1 tab xs tab-IsPage.0 elsewhere outside_child

    parent1 : IsPgdir kernel_end mem1 parent (child ∷ xs)
    parent1 = write_pte-IsPgdir kernel_end parent k.mem va shared (child ∷ xs) v.parents h

    parent1-dir : (d : ℕ) → d < 1024 → mem1 (parent + 4 * d) ≡ k.mem (parent + 4 * d)
    parent1-dir = write_pte-dir kernel_end parent k.mem va shared (child ∷ xs) v.parents h

    pub free1 : Free kernel_end k1 xs
    free1 =
        write_pte-Free kernel_end parent k.mem va shared xs
          (drop_page k.mem parent child xs v.parents) h k refl f

    -- What walkpgdir leaves for the child.
    module _ (q : ℕ) (k2 : Kmem) (ys : List ℕ) (i : IsPte kernel_end child va k1 q k2 ys)
        (fr : Frames kernel_end child va k1 k2 xs) where
      parent2-dir : (d : ℕ) → d < 1024 → k2.mem (parent + 4 * d) ≡ k.mem (parent + 4 * d)
      parent2-dir d ld =
          fr.keep parent (4 * d) parent1.page (omega arith) (λ e. parent1.taken.0 (sym e))
            parent1.taken.1
          ∙ parent1-dir d ld

      parent2-table :
          (d o : ℕ)
          → d < 1024
          → o < pgsize
          → has_table k.mem parent d ≡ true
          → k2.mem (table k.mem parent d + o) ≡ mem1 (table k.mem parent d + o)
      parent2-table d o ld lo hd =
          let (pg, n, m) = v.parents.tables d ld hd in
          fr.keep (table k.mem parent d) o pg lo (λ e. m.0 (sym e)) m.1

      pub parent2-pte_at : (w : ℕ) → pte_at k2.mem parent w ≡ pte_at mem1 parent w
      parent2-pte_at w =
          let s = parent1-dir (pdx w) (omega arith) in
          pte_at-agree kernel_end mem1 k2.mem parent w (parent2-dir (pdx w) (omega arith) ∙ sym s)
            (λ hw.
              rw s (parent2-table (pdx w) (4 * ptx w) (omega arith) (omega arith) (rw s at hw)))

      -- The child's entry becomes the parent's.
      pub value : k2.mem (tab + 4 * ptx va) ≡ shared
      value =
          parent2-table (pdx va) (4 * ptx va) (omega arith) (omega arith) h
          ∙ update_self k.mem (tab + 4 * ptx va) shared

      abbrev pub child_tab : ℕ
      child_tab = table k2.mem child (pdx va)

      child_tab-IsPage : IsPage kernel_end child_tab
      child_tab-IsPage = (i.tree.tables (pdx va) (omega arith) i.has).0

      child_tab-other :
          (y : ℕ)
          → NotIn y xs
          → (has_table k.mem child (pdx va) ≡ true → table k.mem child (pdx va) ≢ y)
          → child_tab ≢ y
      child_tab-other y out old =
          let s = child1-dir (pdx va) (omega arith) in
          fr.fresh y out (λ hc. rw s (old (rw s at hc)))

      abbrev pub mem3 : ℕ → ℕ
      mem3 = update k2.mem (child_tab + 4 * ptx va) (k2.mem (tab + 4 * ptx va))

      pub parent3-pte_at : (w : ℕ) → pte_at mem3 parent w ≡ pte_at k2.mem parent w
      parent3-pte_at w =
          let s = parent2-dir (pdx w) (omega arith) in
          pte_at-agree kernel_end k2.mem mem3 parent w
            (update-ne k2.mem (child_tab + 4 * ptx va) (k2.mem (tab + 4 * ptx va))
              (parent + 4 * pdx w)
              (λ e. not_parent (omega (arith, child_tab-IsPage.aligned, parent1.page.aligned))))
            (λ hw.
              update-ne k2.mem (child_tab + 4 * ptx va) (k2.mem (tab + 4 * ptx va))
                (table k2.mem parent (pdx w) + 4 * ptx w) (not_table (rw s at hw)))
        where
          not_parent : child_tab ≢ parent
          not_parent =
              child_tab-other parent parent1.taken.1
                (λ hc e. (v.childs.tables (pdx va) (omega arith) hc).2.0 (sym e))

          not_table :
              has_table k.mem parent (pdx w) ≡ true
              → child_tab + 4 * ptx va ≢ table k2.mem parent (pdx w) + 4 * ptx w
          not_table hw =
              let s = parent2-dir (pdx w) (omega arith) in
              let (pg, n, m) = v.parents.tables (pdx w) (omega arith) hw in
              let ne =
                child_tab-other (table k.mem parent (pdx w)) m.1
                  (λ hc e. v.apart (pdx w) (pdx va) (omega arith) (omega arith) hw hc (sym e)) in
              rw s (λ e. ne (omega (arith, child_tab-IsPage.aligned, pg.aligned)))
