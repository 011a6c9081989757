-- ===== src/Vm/Entry.antt =====
-- walkpgdir keeps the map from addresses to entries, and a write through its pointer changes the entry
-- of that page only.
use osp.Prelude.{
  ℕ, ◌+◌, ◌*◌, ◌/◌, ◌^◌, ◌≤◌, ◌<◌, ◌≡◌, ◌≢◌, refl, ◌⊎◌, inl, inr, true, false, none, some, List, [],
  ◌∷◌, arith, ◌==◌, if◌then◌else◌, update, update_self, update-ne, Bool-cases, sym, ap,
}
use native.Mathlib.Decide.{ℕ_discrete}
use osp.Mmu.{pgsize, kernbase, pdx, ptx}
use osp.Kalloc.{Kmem, kalloc}
use osp.Kalloc.FreeList.{IsPage, NotIn, Free, kalloc-pop, kalloc-empty, Chain-agree}
use osp.Vm.{zero_page, make_pte}
use osp.Vm.Lookup.{
  other_page, table, has_table, pte_at, IsPgdir, pte_at-agree, with_table, new_has, new_table,
  with_table-pte_at, with_table-IsPgdir,
}

module _ (kernel_end pgdir : ℕ) where
  -- A pointer to the entry for `va`, in memory that maps what the memory of `k` maps.
  pub record IsPte (va : ℕ) (k : Kmem) (p : ℕ) (k' : Kmem) (ys : List ℕ) : Type 0 where
    pub tree : IsPgdir kernel_end k'.mem pgdir ys
    pub free : Free kernel_end k' ys
    pub has : has_table k'.mem pgdir (pdx va) ≡ true
    pub place : p ≡ table k'.mem pgdir (pdx va) + 4 * ptx va
    pub same : (v : ℕ) → pte_at k'.mem pgdir v ≡ pte_at k.mem pgdir v

  -- What walkpgdir leaves alone when the pages `xs` are free: the pages that are neither free nor the
  -- directory; and the page table is the old one or was free.
  pub record Frames (va : ℕ) (k k' : Kmem) (xs : List ℕ) : Type 0 where
    pub keep :
        (y o : ℕ)
        → IsPage kernel_end y
        → o < pgsize
        → y ≢ pgdir
        → NotIn y xs
        → k'.mem (y + o) ≡ k.mem (y + o)
    pub fresh :
        (y : ℕ)
        → NotIn y xs
        → (has_table k.mem pgdir (pdx va) ≡ true → table k.mem pgdir (pdx va) ≢ y)
        → table k'.mem pgdir (pdx va) ≢ y

  -- `xs` are the free pages, `ys` those that remain.
  abbrev pub Makes : ℕ → Kmem → List ℕ → Type 0
  Makes va k xs =
      (p : ℕ) × (k' : Kmem) × (ys : List ℕ) × (make_pte pgdir va k ≡ (some p, k'))
      × IsPte va k p k' ys
      × ((ys ≡ xs) ⊎ (x : ℕ) × (xs ≡ x ∷ ys))
      × Frames va k k' xs

  -- The page table is missing and no page is free.
  abbrev pub Lacks : ℕ → Kmem → List ℕ → Type 0
  Lacks va k xs =
      (xs ≡ []) × (has_table k.mem pgdir (pdx va) ≡ false) × (make_pte pgdir va k ≡ (none, k))

  make_pte_there :
      (va : ℕ) (k : Kmem) (xs : List ℕ)
      → has_table k.mem pgdir (pdx va) ≡ true
      → Free kernel_end k xs
      → IsPgdir kernel_end k.mem pgdir xs
      → Makes va k xs
  unfolding make_pte
  make_pte_there va k xs h f v = (
    table k.mem pgdir (pdx va) + 4 * ptx va,
    k,
    xs,
    rw h,
    record { tree = v; free = f; has = h; place = refl; same = λ w. refl },
    inl refl,
    record { keep = λ y o py lt n m. refl; fresh = λ y n m. m h },
  )

  make_pte_lacks :
      (va : ℕ) (k : Kmem)
      → has_table k.mem pgdir (pdx va) ≡ false
      → Free kernel_end k []
      → make_pte pgdir va k ≡ (none, k)
  unfolding make_pte
  make_pte_lacks va k h f = rw (h, kalloc-empty kernel_end k f)

  make_pte_new :
      (va x : ℕ) (k : Kmem) (xs : List ℕ)
      → kernbase ≤ kernel_end
      → has_table k.mem pgdir (pdx va) ≡ false
      → Free kernel_end k (x ∷ xs)
      → IsPgdir kernel_end k.mem pgdir (x ∷ xs)
      → Makes va k (x ∷ xs)
  unfolding make_pte
  make_pte_new va x k xs high h f v =
      let (got, rest, mem_eq) = kalloc-pop kernel_end k x xs (omega arith) f in
      let live : (x == 0) ≡ false = ground (arith, f.1.above) in
      let mem' = with_table kernel_end k.mem pgdir va x in
      let ne : x ≢ pgdir = v.taken.0 in
      (
        x + 4 * ptx va,
        record (kalloc k).1 { mem = mem' },
        xs,
        rw (h, got, live, mem_eq),
        record {
          tree = with_table-IsPgdir kernel_end k.mem pgdir va x f.1 v.page high ne xs h f.2 v;
          free =
              Chain-agree kernel_end (zero_page x k.mem) mem' (kalloc k).1.freelist pgdir xs
                (λ y py n. ground (arith, py.aligned, v.page.aligned)) v.taken.1
                (Chain-agree kernel_end k.mem (zero_page x k.mem) (kalloc k).1.freelist x xs
                  (λ y py n. ground (arith, py.aligned, f.1.aligned)) f.2 (rw mem_eq at rest));
          has = new_has kernel_end k.mem pgdir va x f.1 v.page high ne;
          place = rw (new_table kernel_end k.mem pgdir va x f.1 v.page high ne);
          same = λ w.
              with_table-pte_at kernel_end k.mem pgdir va x f.1 v.page high ne w h
                λ d lt hd. let (py, n1, n2) = v.tables d lt hd in (py, (λ e. n2.0 (sym e)), n1);
        },
        inr (x, refl),
        record {
          keep = λ y o py lt n m.
              other_page kernel_end k.mem pgdir va x f.1 v.page high ne y o py lt (λ e. m.0 (sym e))
                n;
          fresh = λ y n m. rw (new_table kernel_end k.mem pgdir va x f.1 v.page high ne) n.0;
        },
      )

  -- walkpgdir with `alloc` returns a pointer to the entry for the address, and takes at most one free
  -- page for it; the directory stays a tree of different pages, and no address is mapped otherwise
  -- than before. Only where the page table is missing and no page is free it returns 0, and changes
  -- nothing.
  pub make_pte-Makes :
      (va : ℕ) (k : Kmem) (xs : List ℕ)
      → kernbase ≤ kernel_end
      → Free kernel_end k xs
      → IsPgdir kernel_end k.mem pgdir xs
      → Makes va k xs ⊎ Lacks va k xs
  make_pte-Makes va k xs high f v = by_case xs f v (Bool-cases (has_table k.mem pgdir (pdx va)))
    where
      by_case :
          (zs : List ℕ)
          → Free kernel_end k zs
          → IsPgdir kernel_end k.mem pgdir zs
          → (has_table k.mem pgdir (pdx va) ≡ true) ⊎ (has_table k.mem pgdir (pdx va) ≡ false)
          → Makes va k zs ⊎ Lacks va k zs
      by_case zs g w (inl h) = inl (make_pte_there va k zs h g w)
      by_case [] g w (inr h) = inr (refl, h, make_pte_lacks va k h g)
      by_case (z ∷ zs) g w (inr h) = inl (make_pte_new va z k zs high h g w)

  -- Memory after a write of `e` to the entry for `va`.
  abbrev pub write_pte : (ℕ → ℕ) → ℕ → ℕ → ℕ → ℕ
  write_pte mem va e = update mem (table mem pgdir (pdx va) + 4 * ptx va) e

  module _ (mem : ℕ → ℕ) (va e : ℕ) (xs : List ℕ) (v : IsPgdir kernel_end mem pgdir xs)
      (h : has_table mem pgdir (pdx va) ≡ true) where
    here :
        IsPage kernel_end (table mem pgdir (pdx va))
        × (table mem pgdir (pdx va) ≢ pgdir)
        × NotIn (table mem pgdir (pdx va)) xs
    here = v.tables (pdx va) (omega arith) h

    pub write_pte-dir :
        (d : ℕ) → d < 1024 → write_pte mem va e (pgdir + 4 * d) ≡ mem (pgdir + 4 * d)
    write_pte-dir d lt =
        let (pt, n, _) = here in
        update-ne mem (table mem pgdir (pdx va) + 4 * ptx va) e (pgdir + 4 * d)
          (λ q. n (omega (arith, pt.aligned, v.page.aligned)))

    pub write_pte-IsPgdir : IsPgdir kernel_end (write_pte mem va e) pgdir xs
    write_pte-IsPgdir = record {
      page = v.page;
      taken = v.taken;
      tables = λ d lt hd. let same = write_pte-dir d lt in rw same (v.tables d lt (rw same at hd));
      apart = λ d f ld lf hd hf n.
          let s = write_pte-dir d ld in
          let t = write_pte-dir f lf in rw (s, t) (v.apart d f ld lf (rw s at hd) (rw t at hf) n);
    }

    write_pte_self : pte_at (write_pte mem va e) pgdir va ≡ e
    write_pte_self =
        rw (write_pte-dir (pdx va) (omega arith))
          (rw h (update_self mem (table mem pgdir (pdx va) + 4 * ptx va) e))

    write_pte-ne :
        (w : ℕ)
        → w < 2 ^ 32
        → va < 2 ^ 32
        → w / pgsize ≢ va / pgsize
        → pte_at (write_pte mem va e) pgdir w ≡ pte_at mem pgdir w
    write_pte-ne w lw lv n =
        pte_at-agree kernel_end mem (write_pte mem va e) pgdir w
          (write_pte-dir (pdx w) (omega arith))
          λ hw.
            update-ne mem (table mem pgdir (pdx va) + 4 * ptx va) e
              (table mem pgdir (pdx w) + 4 * ptx w) (different hw)
      where
        different :
            has_table mem pgdir (pdx w) ≡ true
            → table mem pgdir (pdx va) + 4 * ptx va ≢ table mem pgdir (pdx w) + 4 * ptx w
        different hw = elim (ℕ_discrete (pdx va) (pdx w)) [
          | yes q ↦ λ eq.
              let t : table mem pgdir (pdx va) ≡ table mem pgdir (pdx w) = ap (table mem pgdir) q in
              let same_ptx : ptx va ≡ ptx w = omega arith in n (omega (arith, q, same_ptx))
          | no m ↦ λ eq.
              v.apart (pdx va) (pdx w) (omega arith) (omega arith) h hw m
                (omega (arith, here.0.aligned, (v.tables (pdx w) (omega arith) hw).0.aligned))
        ]

    pub write_pte-Free :
        (k : Kmem)
        → k.mem ≡ mem
        → Free kernel_end k xs
        → Free kernel_end (record k { mem = write_pte mem va e }) xs
    write_pte-Free k q f =
        Chain-agree kernel_end k.mem (write_pte mem va e) k.freelist (table mem pgdir (pdx va)) xs
          (λ y py n. rw q (
            update-ne mem (table mem pgdir (pdx va) + 4 * ptx va) e y
              (λ t. n (omega (arith, here.0.aligned, py.aligned)))))
          here.2 f

    -- A write through the pointer changes the entry of that page, and of no other.
    pub write_pte-pte_at :
        (w : ℕ)
        → w < 2 ^ 32
        → va < 2 ^ 32
        → pte_at (write_pte mem va e) pgdir w
          ≡ (if w / pgsize == va / pgsize then e else pte_at mem pgdir w)
    write_pte-pte_at w lw lv = elim (ℕ_discrete (w / pgsize) (va / pgsize)) [
      | yes q ↦
          let hit : (w / pgsize == va / pgsize) ≡ true = ground arith in
          let d : pdx w ≡ pdx va = omega arith in
          let t : ptx w ≡ ptx va = omega arith in rw (hit, d, t) write_pte_self
      | no n ↦
          let miss : (w / pgsize == va / pgsize) ≡ false = ground arith in
          rw miss (write_pte-ne w lw lv n)
    ]
