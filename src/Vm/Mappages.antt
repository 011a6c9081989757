-- ===== src/Vm/Mappages.antt =====
-- mappages: the pages of the range get consecutive frames, and no other address is mapped pgdir anew.
use osp.Prelude.{
  ℕ, zero, suc, ◌+◌, ◌-◌, ◌*◌, ◌/◌, ◌%◌, ◌^◌, ◌≤◌, ◌<◌, ◌≡◌, ◌≢◌, refl, ◌⊎◌, inl, inr, Bool, true,
  false, none, some, List, [], arith, ◌==◌, if◌then◌else◌, update, ◌∙◌, sym, ap,
}
use osp.Mmu.{pgsize, kernbase, pgrounddown, flag, pte_p}
use osp.Kalloc.{Kmem}
use osp.Kalloc.FreeList.{Free}
use osp.Vm.{make_pte, entry, map_loop, mappages, map_fuel}
use osp.Vm.Lookup.{pte_at, IsPgdir}
use osp.Vm.Range.{mapped, mapped-out, mapped-suc, mapped-zero}
use osp.Vm.Entry.{
  IsPte, Makes, Lacks, make_pte-Makes, write_pte-IsPgdir, write_pte-Free, write_pte-pte_at,
}

module _ (pgdir last perm : ℕ) where
  map_loop-done :
      (fuel a pa p : ℕ) (k k1 : Kmem)
      → make_pte pgdir a k ≡ (some p, k1)
      → flag (k1.mem p) pte_p ≡ false
      → a ≡ last
      → map_loop (suc fuel) pgdir a last pa perm k
        ≡ some (true, record k1 { mem = update k1.mem p (entry pa perm) })
  unfolding map_loop
  map_loop-done fuel a pa p k k1 e free_ q =
      let hit : (a == last) ≡ true = ground arith in rw e (rw (free_, hit))

  map_loop-more :
      (fuel a pa p b pb : ℕ) (k k1 : Kmem)
      → make_pte pgdir a k ≡ (some p, k1)
      → flag (k1.mem p) pte_p ≡ false
      → a ≢ last
      → (a + pgsize) % 2 ^ 32 ≡ b
      → (pa + pgsize) % 2 ^ 32 ≡ pb
      → map_loop (suc fuel) pgdir a last pa perm k
        ≡ map_loop fuel pgdir b last pb perm (record k1 { mem = update k1.mem p (entry pa perm) })
  unfolding map_loop
  map_loop-more fuel a pa p b pb k k1 e free_ q eb epb =
      let miss : (a == last) ≡ false = ground arith in rw e (rw (free_, miss, eb, epb))

  map_loop-stop :
      (fuel a pa : ℕ) (k : Kmem)
      → make_pte pgdir a k ≡ (none, k)
      → map_loop (suc fuel) pgdir a last pa perm k ≡ some (false, k)
  unfolding map_loop
  map_loop-stop fuel a pa k e = rw e

module _ (kernel_end pgdir : ℕ) where
  -- One entry is written: the state after it.
  pub record Wrote (va e : ℕ) (k k' : Kmem) (ys : List ℕ) : Type 0 where
    pub tree : IsPgdir kernel_end k'.mem pgdir ys
    pub free : Free kernel_end k' ys
    pub map :
        (w : ℕ)
        → w < 2 ^ 32
        → pte_at k'.mem pgdir w ≡ (if w / pgsize == va / pgsize then e else pte_at k.mem pgdir w)

  pointee :
      (va p : ℕ) (k k1 : Kmem) (ys : List ℕ)
      → IsPte kernel_end pgdir va k p k1 ys
      → k1.mem p ≡ pte_at k.mem pgdir va
  pointee va p k k1 ys i = ap k1.mem i.place ∙ sym (rw i.has) ∙ i.same va

  pub IsPte-Wrote :
      (va p e : ℕ) (k k1 : Kmem) (ys : List ℕ)
      → va < 2 ^ 32
      → IsPte kernel_end pgdir va k p k1 ys
      → Wrote va e k (record k1 { mem = update k1.mem p e }) ys
  IsPte-Wrote va p e k k1 ys lt i = rw i.place (record {
    tree = write_pte-IsPgdir kernel_end pgdir k1.mem va e ys i.tree i.has;
    free = write_pte-Free kernel_end pgdir k1.mem va e ys i.tree i.has k1 refl i.free;
    map = λ w lw.
        write_pte-pte_at kernel_end pgdir k1.mem va e ys i.tree i.has w lw lt
        ∙ ap (λ o. if w / pgsize == va / pgsize then e else o) (i.same w);
  })

  -- What a run over `n + 1` pages leaves: all mapped, or no free page for a page table; the addresses
  -- outside of the range are as they were.
  pub record Maps (n a pa perm : ℕ) (k : Kmem) (done : Bool) (k' : Kmem) (ys : List ℕ)
      : Type 0 where
    pub tree : IsPgdir kernel_end k'.mem pgdir ys
    pub free : Free kernel_end k' ys
    pub short : done ≡ false → ys ≡ []
    pub inside :
        done ≡ true
        → (w : ℕ) → w < 2 ^ 32
        → pte_at k'.mem pgdir w ≡ mapped pgdir n a pa perm k.mem w
    pub outside :
        (w : ℕ)
        → w < 2 ^ 32
        → (w / pgsize < a / pgsize) ⊎ (a / pgsize + n < w / pgsize)
        → pte_at k'.mem pgdir w ≡ pte_at k.mem pgdir w

  -- No page of the range is mapped.
  abbrev pub IsUnmapped : ℕ → ℕ → Kmem → Type 0
  IsUnmapped n a k =
      (w : ℕ)
      → w < 2 ^ 32
      → a / pgsize ≤ w / pgsize
      → w / pgsize ≤ a / pgsize + n
      → flag (pte_at k.mem pgdir w) pte_p ≡ false

  abbrev IsOutside : ℕ → ℕ → ℕ → Type 0
  IsOutside n a w = (w / pgsize < a / pgsize) ⊎ (a / pgsize + n < w / pgsize)

  widen_elsewhere : (m a w : ℕ) → IsOutside (suc m) a w → IsOutside m (a + pgsize) w
  widen_elsewhere m a w (inl h) = inl (omega arith)
  widen_elsewhere m a w (inr h) = inr (omega arith)

  keep_elsewhere :
      (n a w x y : ℕ) → IsOutside n a w → (if w / pgsize == a / pgsize then x else y) ≡ y
  keep_elsewhere n a w x y (inl h) =
      let ne : (w / pgsize == a / pgsize) ≡ false = ground arith in rw ne
  keep_elsewhere n a w x y (inr h) =
      let ne : (w / pgsize == a / pgsize) ≡ false = ground arith in rw ne

  -- What holds of the loop with a given fuel.
  abbrev IsMapper : ℕ → ℕ → ℕ → Type 0
  IsMapper fuel perm last =
      (n a pa : ℕ) (k : Kmem) (xs : List ℕ)
      → n < fuel
      → a % pgsize ≡ 0
      → last ≡ a + n * pgsize
      → last < 2 ^ 32
      → pa + n * pgsize < 2 ^ 32
      → Free kernel_end k xs
      → IsPgdir kernel_end k.mem pgdir xs
      → IsUnmapped n a k
      → (done : Bool) × (k' : Kmem) × (ys : List ℕ) × (map_loop fuel pgdir a last pa perm k
          ≡ some (done, k'))
        × Maps n a pa perm k done k' ys

  round-Maps :
      (fuel perm last : ℕ)
      → IsMapper fuel perm last
      → kernbase ≤ kernel_end
      → (n a pa : ℕ) (k : Kmem) (xs : List ℕ) → n < suc fuel
      → a % pgsize ≡ 0
      → last ≡ a + n * pgsize
      → last < 2 ^ 32
      → pa + n * pgsize < 2 ^ 32
      → Free kernel_end k xs
      → IsPgdir kernel_end k.mem pgdir xs
      → IsUnmapped n a k
      → Makes kernel_end pgdir a k xs ⊎ Lacks kernel_end pgdir a k xs
      → (done : Bool) × (k' : Kmem) × (ys : List ℕ) × (map_loop (suc fuel) pgdir a last pa perm k
          ≡ some (done, k'))
        × Maps n a pa perm k done k' ys
  round-Maps fuel perm last rest high n a pa k xs hf al el small ps f v un (inr (none_left, _, e)) =
      (
        false,
        k,
        xs,
        map_loop-stop pgdir last perm fuel a pa k e,
        record {
          tree = v;
          free = f;
          short = λ _. none_left;
          inside = λ q. cc;
          outside = λ w lw o. refl;
        },
      )
  round-Maps fuel perm last rest high zero a pa k xs hf al el small ps f v un
        (inl (p, k1, ys, e, i, _, _)) =
      let free_ : flag (k1.mem p) pte_p ≡ false =
        rw (pointee a p k k1 ys i) (un a (omega arith) (omega arith) (omega arith)) in
      let w = IsPte-Wrote a p (entry pa perm) k k1 ys (omega arith) i in
      (
        true,
        record k1 { mem = update k1.mem p (entry pa perm) },
        ys,
        map_loop-done pgdir last perm fuel a pa p k k1 e free_ (omega arith),
        record {
          tree = w.tree;
          free = w.free;
          short = λ q. cc;
          inside = λ q x lx. w.map x lx ∙ mapped-zero pgdir a pa perm k.mem x;
          outside = λ x lx o.
              w.map x lx
              ∙ mapped-zero pgdir a pa perm k.mem x
              ∙ mapped-out pgdir 0 a pa perm k.mem x o;
        },
      )
  round-Maps fuel perm last rest high (suc m) a pa k xs hf al el small ps f v un
        (inl (p, k1, ys, e, i, _, _)) =
      let free_ : flag (k1.mem p) pte_p ≡ false =
        rw (pointee a p k k1 ys i) (un a (omega arith) (omega arith) (omega arith)) in
      let w = IsPte-Wrote a p (entry pa perm) k k1 ys (omega arith) i in
      let k2 = record k1 { mem = update k1.mem p (entry pa perm) } in
      let (done, k', zs, run, maps) =
        rest m (a + pgsize) (pa + pgsize) k2 ys (omega arith) (omega arith) (omega arith) small
          (omega arith) w.free w.tree
          (λ x lx lo hi.
            let ne : (x / pgsize == a / pgsize) ≡ false = ground arith in
            rw (w.map x lx, ne) (un x lx (omega arith) (omega arith))) in
      (
        done,
        k',
        zs,
        map_loop-more pgdir last perm fuel a pa p (a + pgsize) (pa + pgsize) k k1 e free_
              (omega arith) (omega arith) (omega arith)
            ∙ run,
        record {
          tree = maps.tree;
          free = maps.free;
          short = maps.short;
          inside = λ q x lx.
              maps.inside q x lx ∙ mapped-suc pgdir m a pa perm k.mem k2.mem x al (w.map x lx);
          outside = λ x lx o.
              maps.outside x lx (widen_elsewhere m a x o)
              ∙ w.map x lx
              ∙ keep_elsewhere (suc m) a x _ _ o;
        },
      )

  map_loop-Maps : (fuel perm last : ℕ) → kernbase ≤ kernel_end → IsMapper fuel perm last
  map_loop-Maps zero perm last high n a pa k xs hf al el small ps f v un = absurd (omega arith)
  map_loop-Maps (suc fuel) perm last high n a pa k xs hf al el small ps f v un =
      round-Maps fuel perm last (map_loop-Maps fuel perm last high) high n a pa k xs hf al el small
        ps f v un (make_pte-Makes kernel_end pgdir a k xs high f v)

  -- mappages of a positive size, at an address range that does not wrap and where no page is mapped
  -- already, returns without a panic. If it succeeds, the pages from the one of `va` to the one of the
  -- last byte have consecutive frames from `pa` on, with the permissions asked for; if it fails, no
  -- free page is left. In both cases no address outside of these pages is mapped pgdir otherwise than
  -- before, and the directory stays a tree of different pages, none of them free.
  pub mappages-Maps :
      (va size pa perm : ℕ) (k : Kmem) (xs : List ℕ)
      → kernbase ≤ kernel_end
      → 0 < size
      → va + size < 2 ^ 32
      → pa + size + pgsize < 2 ^ 32
      → Free kernel_end k xs
      → IsPgdir kernel_end k.mem pgdir xs
      → IsUnmapped ((va + size - 1) / pgsize - va / pgsize) (pgrounddown va) k
      → (done : Bool) × (k' : Kmem) × (ys : List ℕ) × (mappages pgdir va size pa perm k
          ≡ some (done, k'))
        × Maps ((va + size - 1) / pgsize - va / pgsize) (pgrounddown va) pa perm k done k' ys
  unfolding mappages
  mappages-Maps va size pa perm k xs high pos small ps f v un =
      let last_eq : pgrounddown ((va + size + 2 ^ 32 - 1) % 2 ^ 32) ≡ pgrounddown (va + size - 1) =
        omega arith in
      rw last_eq (
        map_loop-Maps map_fuel perm (pgrounddown (va + size - 1)) high
          ((va + size - 1) / pgsize - va / pgsize) (pgrounddown va) pa k xs (omega arith)
          (omega arith) (omega arith) (omega arith) (omega arith) f v un)
