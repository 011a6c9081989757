-- ===== src/Vm/Free/Fuel.antt =====
-- xv6-public/vm.c: the rounds that deallocuvm is given are enough.
use osp.Prelude.{
  ℕ, zero, suc, ◌+◌, ◌*◌, ◌%◌, ◌^◌, ◌≤◌, ◌<◌, ◌≡◌, refl, true, Option, none, some, leb,
  if◌then◌else◌, arith, Bool-cases, Option-cases, inl, inr,
}
use osp.Mmu.{pgsize, kernbase, flag, pte_p, pgroundup}
use osp.Kalloc.{Kmem}
use osp.Vm.{find_pte}
use osp.Vm.Free.{next_table, free_entry, dealloc_step, dealloc_loop, deallocuvm}

module _ (kernel_end pgdir oldsz : ℕ) (low : oldsz ≤ kernbase) where
  -- Two rests of the loop that agree behind the page `a`.
  dealloc_step-agree :
      (next next' : ℕ → Kmem → Option Kmem) (a : ℕ) (p : Option ℕ) (k : Kmem)
      → ((k' : Kmem) → next (next_table a) k' ≡ next' (next_table a) k')
      → ((k' : Kmem) → next ((a + pgsize) % 2 ^ 32) k' ≡ next' ((a + pgsize) % 2 ^ 32) k')
      → dealloc_step kernel_end next a p k ≡ dealloc_step kernel_end next' a p k
  dealloc_step-agree next next' a none k t s = t k
  dealloc_step-agree next next' a (some p) k t s =
      elim (Option-cases (if flag (k.mem p) pte_p then free_entry kernel_end p k else some k)) [
        | inl e ↦ rw e refl
        | inr (k1, e) ↦ rw e (s k1)
      ]

  dealloc_loop_enough :
      (fuel more a : ℕ) (k : Kmem)
      → a % pgsize ≡ 0
      → oldsz ≤ a + fuel * pgsize
      → fuel ≤ more
      → dealloc_loop kernel_end (suc fuel) pgdir oldsz a k
        ≡ dealloc_loop kernel_end (suc more) pgdir oldsz a k
  unfolding dealloc_loop
  dealloc_loop_enough zero more a k al h le = let e : leb oldsz a ≡ true = ground arith in rw e refl
  dealloc_loop_enough (suc fuel) zero a k al h le = absurd (omega arith)
  dealloc_loop_enough (suc fuel) (suc more) a k al h le = elim (Bool-cases (leb oldsz a)) [
    | inl y ↦ rw y refl
    | inr n ↦
        let lt : a < oldsz = ground arith in
        let al' : next_table a % pgsize ≡ 0 = omega arith in
        let h' : oldsz ≤ next_table a + fuel * pgsize = omega arith in
        rw n (
          dealloc_step-agree (dealloc_loop kernel_end (suc fuel) pgdir oldsz)
            (dealloc_loop kernel_end (suc more) pgdir oldsz) a (find_pte k.mem pgdir a) k
            (λ k'. dealloc_loop_enough fuel more (next_table a) k' al' h' (omega arith))
            (λ k'.
              dealloc_loop_enough fuel more ((a + pgsize) % 2 ^ 32) k' (omega arith) (omega arith)
                (omega arith)))
  ]

  -- For an address space below KERNBASE, more rounds than deallocuvm has change nothing, whatever the
  -- tables hold: where it returns nothing, a page could not be freed.
  pub deallocuvm_enough :
      (more newsz : ℕ) (k : Kmem)
      → 0xF_FFFF ≤ more
      → deallocuvm kernel_end pgdir oldsz newsz k ≡ (
          if leb oldsz newsz
          then some k
          else dealloc_loop kernel_end (suc more) pgdir oldsz (pgroundup newsz) k)
  unfolding deallocuvm
  deallocuvm_enough more newsz k le =
      rw (dealloc_loop_enough 0xF_FFFF more (pgroundup newsz) k (omega arith) (omega arith) le) refl
