-- ===== src/Munmap/Loop.antt =====
-- What the loop of sys_munmap writes back, and that it ends.
use osp.Prelude.{
  ℕ, zero, suc, ◌+◌, ◌-◌, ◌*◌, ◌%◌, ◌^◌, ◌≤◌, ◌<◌, ◌≡◌, refl, ap, Bool, true, false, none, some,
  List, [], ◌∷◌, arith, ltb, leb, if◌then◌else◌, Option-cases, inl, inr,
}
use osp.Mmu.{pgsize}
use osp.Proc.{MemMapping}
use osp.Mmap.{slt}
use osp.Munmap.{Files, is_file_shared, present_page, write_page, unmap_page, unmap_loop}

slt_zero : (n : ℕ) → slt n 0 ≡ leb (2 ^ 31) (n % 2 ^ 32)
slt_zero n = ground arith

module _ (mem : ℕ → ℕ) (pgdir : ℕ) where
  -- The present pages among `n` pages from `va` up, each with its kernel address.
  unfoldable pub present_pages : ℕ → ℕ → List (ℕ × ℕ)
  present_pages zero va = []
  present_pages (suc n) va = elim (present_page mem pgdir va) [
    | none ↦ present_pages n (va + pgsize)
    | some pa ↦ (va, pa) ∷ present_pages n (va + pgsize)
  ]

module _ {S : Type 0} (fs : Files S) (mem : ℕ → ℕ) (pgdir : ℕ) (m : MemMapping) (ip : ℕ) where
  -- The rounds of the loop in order: `n` pages from `va` up, until a write fails.
  pub rounds : ℕ → ℕ → S → Bool × S
  rounds zero va s = (false, s)
  rounds (suc n) va s =
      let (failed, s') = unmap_page fs mem pgdir m ip va s in
      let rest = rounds n (va + pgsize) s' in if failed then (true, s') else rest

  -- With fuel for its `n` pages the loop returns what the rounds do.
  pub unmap_loop-rounds :
      (n fuel va stop : ℕ) (s : S)
      → n < fuel
      → stop + pgsize ≤ 2 ^ 32
      → stop ≤ va + n * pgsize
      → va + n * pgsize < stop + pgsize
      → unmap_loop fs fuel mem pgdir m ip va stop s ≡ some (rounds n va s)
  unfolding unmap_loop rounds
  unmap_loop-rounds n zero va stop s h h1 h2 h3 = absurd (omega arith)
  unmap_loop-rounds zero (suc fuel) va stop s h h1 h2 h3 =
      let out : ltb va stop ≡ false = ground arith in rw out
  unmap_loop-rounds (suc n) (suc fuel) va stop s h h1 h2 h3 =
      let inside : ltb va stop ≡ true = ground arith in
      let step : (va + pgsize) % 2 ^ 32 ≡ va + pgsize = omega arith in
      rw (inside, step)
        (rw
          (unmap_loop-rounds n fuel (va + pgsize) stop (unmap_page fs mem pgdir m ip va s).1
            (omega arith) h1 (omega arith) (omega arith))
          (if_some _ _ (unmap_page fs mem pgdir m ip va s).0))
    where
      if_some :
          {A : Type 0} (x y : A) (b : Bool)
          → (if b then some x else some y) ≡ some (if b then x else y)
      if_some x y true = refl
      if_some x y false = refl

  -- Each of the pages is written to the file at its offset in the mapping, in a transaction of its
  -- own, up to the first that writei refuses with a negative result: whether there is one.
  unfoldable pub write_pages : List (ℕ × ℕ) → S → Bool × S
  write_pages [] s = (false, s)
  write_pages ((va, pa) ∷ rest) s =
      let (n, s1) =
        fs.writei ip (λ i. mem (pa + i)) ((va + 2 ^ 32 - m.addr) % 2 ^ 32) 4096
          (fs.ilock ip (fs.begin_op s)) in
      let s2 = fs.end_op (fs.iunlock ip s1) in
      let others = write_pages rest s2 in if leb (2 ^ 31) (n % 2 ^ 32) then (true, s2) else others

  unmap_page-private :
      (va : ℕ) (s : S) → is_file_shared m ≡ false → unmap_page fs mem pgdir m ip va s ≡ (false, s)
  unfolding unmap_page
  unmap_page-private va s h =
      elim (present_page mem pgdir va)
        as (λ o.
          (elim o [
            | none ↦ (false, s)
            | some pa ↦
                if is_file_shared m
                then write_page fs ip (λ i. mem (pa + i)) ((va + 2 ^ 32 - m.addr) % 2 ^ 32) s
                else (false, s)
          ])
          ≡ (false, s)) [ none ↦ refl | some pa ↦ rw h ]

  -- A mapping that is private or anonymous is not written back.
  pub rounds_private : is_file_shared m ≡ false → (n va : ℕ) (s : S) → rounds n va s ≡ (false, s)
  unfolding rounds
  rounds_private h zero va s = refl
  rounds_private h (suc n) va s =
      rw (unmap_page-private va s h) (rounds_private h n (va + pgsize) s)

  unmap_page-absent :
      (va : ℕ) (s : S)
      → present_page mem pgdir va ≡ none
      → unmap_page fs mem pgdir m ip va s ≡ (false, s)
  unfolding unmap_page
  unmap_page-absent va s e = rw (e, unmap_page)

  unmap_page-shared :
      (va pa : ℕ) (s : S)
      → is_file_shared m ≡ true
      → present_page mem pgdir va ≡ some pa
      → unmap_page fs mem pgdir m ip va s
        ≡ write_page fs ip (λ i. mem (pa + i)) ((va + 2 ^ 32 - m.addr) % 2 ^ 32) s
  unfolding unmap_page
  unmap_page-shared va pa s h e = rw (e, unmap_page) (rw h)

  abbrev wrote : ℕ → ℕ → S → ℕ × S
  wrote va pa s =
      fs.writei ip (λ i. mem (pa + i)) ((va + 2 ^ 32 - m.addr) % 2 ^ 32) 4096
        (fs.ilock ip (fs.begin_op s))

  abbrev left : ℕ → ℕ → S → S
  left va pa s = fs.end_op (fs.iunlock ip (wrote va pa s).1)

  -- A shared file mapping has its present pages written back in order, until one fails.
  pub rounds_shared :
      is_file_shared m ≡ true
      → (n va : ℕ) (s : S) → rounds n va s ≡ write_pages (present_pages mem pgdir n va) s
  unfolding rounds present_pages write_pages write_page
  rounds_shared h zero va s = refl
  rounds_shared h (suc n) va s = elim (Option-cases (present_page mem pgdir va)) [
    | inl e ↦
        rw (unmap_page-absent va s e) (rw (e, present_pages) (rounds_shared h n (va + pgsize) s))
    | inr (pa, e) ↦ rw (unmap_page-shared va pa s h e) (
        rw (e, present_pages)
          (rw (slt_zero (wrote va pa s).0) (
            ap (λ r. if leb (2 ^ 31) ((wrote va pa s).0 % 2 ^ 32) then (true, left va pa s) else r)
              (rounds_shared h n (va + pgsize) (left va pa s)))))
  ]
