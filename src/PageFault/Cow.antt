-- ===== src/PageFault/Cow.antt =====
-- A write fault on a copy-on-write page.
use osp.Prelude.{
  ℕ, ◌+◌, ◌-◌, ◌*◌, ◌/◌, ◌%◌, ◌^◌, ◌≤◌, ◌<◌, ◌≡◌, refl, subst, ◌⊎◌, inl, inr, true, false, ◌&&◌,
  Option, some, List, ◌∷◌, arith, ltb, leb, ◌==◌, if◌then◌else◌, update, update-ne, Bool-cases, ◌∙◌,
  sym, ap, true≢false,
}
use osp.Mmu.{
  pgsize, kernbase, v2p, p2v, pdx, ptx, pte_addr, pte_flags, pte_w, pte_cow, flag, or_low-page,
}
use osp.Kalloc.{Kmem, kalloc}
use osp.Kalloc.FreeList.{Free, kalloc-pop}
use osp.Proc.{Proc}
use osp.Munmap.{Files}
use osp.Vm.{find_pte, copy_page}
use osp.Vm.Lookup.{table, has_table, pte_at, IsPgdir}
use osp.Vm.Entry.{write_pte, write_pte-IsPgdir, write_pte-Free, write_pte-pte_at}
use osp.Vm.Frame.{fill-Chain, fill-dir, fill-IsPgdir, fill-pte_at}
use osp.PageFault.{is_cow, fault_at, cow_entry, cow_fault, page_fault_handler}

flags_split : (e : ℕ) → is_cow e ≡ true → (flag e pte_cow ≡ true) × (flag e pte_w ≡ false)
flags_split e h = ground arith

-- The frame of the new page, and the old flags with PTE_W in the place of PTE_COW.
cow_entry_sum :
    (x e : ℕ)
    → x % pgsize ≡ 0
    → is_cow e ≡ true
    → cow_entry x e ≡ v2p x + (e % pgsize + pte_w - pte_cow)
cow_entry_sum x e al h =
    let (c, w) = flags_split e h in
    let lo = or_low-page (v2p x) (pte_flags e) (omega arith) in
    let w' : flag (v2p x + pte_flags e) pte_w ≡ false = ground arith in
    let c' : flag (v2p x + pte_flags e + pte_w) pte_cow ≡ true = ground arith in
    rw (lo, w', c') (ground arith)

module _ (kernel_end pgdir : ℕ) where
  -- The page at `va` has become a copy of its own, in the page `x`; `xs` are the pages still free.
  pub record Copied (va x : ℕ) (xs : List ℕ) (k k' : Kmem) : Type 0 where
    pub tree : IsPgdir kernel_end k'.mem pgdir xs
    pub free : Free kernel_end k' xs
    pub map :
        (w : ℕ)
        → w < 2 ^ 32
        → pte_at k'.mem pgdir w ≡ (
            if w / pgsize == va / pgsize
            then v2p x + (pte_at k.mem pgdir va % pgsize + pte_w - pte_cow)
            else pte_at k.mem pgdir w)
    pub content :
        (i : ℕ) → i < pgsize → k'.mem (x + i) ≡ k.mem (p2v (pte_addr (pte_at k.mem pgdir va)) + i)

  has_entry :
      (mem : ℕ → ℕ) (va : ℕ)
      → is_cow (pte_at mem pgdir va) ≡ true
      → has_table mem pgdir (pdx va) ≡ true
  has_entry mem va h = elim (Bool-cases (has_table mem pgdir (pdx va))) [
    | inl t ↦ t
    | inr f ↦ absurd (true≢false (sym h ∙ rw f))
  ]

  entry_at :
      (mem : ℕ → ℕ) (va : ℕ)
      → has_table mem pgdir (pdx va) ≡ true
      → mem (table mem pgdir (pdx va) + 4 * ptx va) ≡ pte_at mem pgdir va
  entry_at mem va h = sym (rw h)

  module _ (va x : ℕ) (xs : List ℕ) (k : Kmem) (high : kernbase ≤ kernel_end)
      (f : Free kernel_end k (x ∷ xs)) (v : IsPgdir kernel_end k.mem pgdir (x ∷ xs))
      (lt : va < 2 ^ 32) (cow : is_cow (pte_at k.mem pgdir va) ≡ true) where
    has : has_table k.mem pgdir (pdx va) ≡ true
    has = has_entry k.mem va cow

    abbrev copied : ℕ → ℕ
    copied = copy_page x (p2v (pte_addr (pte_at k.mem pgdir va))) k.mem

    outside : (a : ℕ) → (a < x) ⊎ (x + pgsize ≤ a) → copied a ≡ k.mem a
    outside a (inl o) = let e : leb x a ≡ false = ground arith in rw e
    outside a (inr o) = let e : ltb a (x + pgsize) ≡ false = ground arith in rw e (ground arith)

    dir_same : copied (pgdir + 4 * pdx va) ≡ k.mem (pgdir + 4 * pdx va)
    dir_same = fill-dir kernel_end pgdir k.mem copied x xs f.1 outside v (pdx va) (omega arith)

    tree_copied : IsPgdir kernel_end copied pgdir xs
    tree_copied = fill-IsPgdir kernel_end pgdir k.mem copied x xs f.1 outside v

    has_copied : has_table copied pgdir (pdx va) ≡ true
    has_copied = rw dir_same has

    table_same : table copied pgdir (pdx va) ≡ table k.mem pgdir (pdx va)
    table_same = ap (λ e. p2v (pte_addr e)) dir_same

    abbrev pte : ℕ
    pte = table k.mem pgdir (pdx va) + 4 * ptx va

    entry_copied : copied pte ≡ pte_at k.mem pgdir va
    entry_copied =
        ap (λ t. copied (t + 4 * ptx va)) (sym table_same)
        ∙ entry_at copied va has_copied
        ∙ fill-pte_at kernel_end pgdir k.mem copied x xs f.1 outside v va

    abbrev result : Kmem
    result = record (kalloc k).1 { mem = update copied pte (cow_entry x (pte_at k.mem pgdir va)) }

    cow_fault-result : cow_fault pte k ≡ some result
    unfolding cow_fault
    cow_fault-result =
        let (got, _, mem_eq) = kalloc-pop kernel_end k x xs (omega arith) f in
        let live : (x == 0) ≡ false = ground (arith, f.1.above) in
        rw (got, live, mem_eq)
          (ap
              (λ e.
                done (copy_page x (p2v (pte_addr e)) k.mem)
                  (copy_page x (p2v (pte_addr e)) k.mem pte))
              (entry_at k.mem va has)
            ∙ ap (done copied) entry_copied)
      where
        done : (ℕ → ℕ) → ℕ → Option Kmem
        done mem e = some (record (kalloc k).1 { mem = update mem pte (cow_entry x e) })

    as_write :
        write_pte kernel_end pgdir copied va (cow_entry x (pte_at k.mem pgdir va)) ≡ result.mem
    as_write =
        ap (λ t. update copied (t + 4 * ptx va) (cow_entry x (pte_at k.mem pgdir va))) table_same

    -- The new page is outside of the page tables.
    result-content :
        (i : ℕ)
        → i < pgsize
        → result.mem (x + i) ≡ k.mem (p2v (pte_addr (pte_at k.mem pgdir va)) + i)
    result-content i small =
        let (pt, _, out) = v.tables (pdx va) (omega arith) has in
        let inside : (leb x (x + i) && ltb (x + i) (x + pgsize)) ≡ true = ground arith in
        update-ne copied pte (cow_entry x (pte_at k.mem pgdir va)) (x + i)
          (λ e. out.0 (omega (arith, pt.aligned, f.1.aligned)))
        ∙ rw inside (ap (λ d. k.mem (p2v (pte_addr (pte_at k.mem pgdir va)) + d)) (omega arith))

    result-Copied : Copied va x xs k result
    result-Copied =
        let e = cow_entry x (pte_at k.mem pgdir va) in
        let (_, rest, mem_eq) = kalloc-pop kernel_end k x xs (omega arith) f in
        record {
          tree =
              subst (λ m. IsPgdir kernel_end m pgdir xs) as_write
                (write_pte-IsPgdir kernel_end pgdir copied va e xs tree_copied has_copied);
          free =
              subst (λ m. Free kernel_end (record (kalloc k).1 { mem = m }) xs) as_write
                (write_pte-Free kernel_end pgdir copied va e xs tree_copied has_copied
                  (record (kalloc k).1 { mem = copied }) refl
                  (fill-Chain kernel_end pgdir k.mem copied x xs f.1 outside (kalloc k).1.freelist
                    f.2 (rw mem_eq at rest)));
          map = λ w lw.
              sym (ap (λ m. pte_at m pgdir w) as_write)
              ∙ write_pte-pte_at kernel_end pgdir copied va e xs tree_copied has_copied w lw lt
              ∙ rw
                  (
                    fill-pte_at kernel_end pgdir k.mem copied x xs f.1 outside v w,
                    cow_entry_sum x (pte_at k.mem pgdir va) f.1.aligned cow,
                  )
                  refl;
          content = result-content;
        }

pub find_pte-some :
    (mem : ℕ → ℕ) (pgdir va : ℕ)
    → has_table mem pgdir (pdx va) ≡ true
    → find_pte mem pgdir va ≡ some (table mem pgdir (pdx va) + 4 * ptx va)
unfolding find_pte
find_pte-some mem pgdir va h = rw h

handler-cow :
    {S : Type 0} (fs : Files S) (kernel_end : ℕ) (junk : ℕ → ℕ) (va q : ℕ) (k k1 : Kmem) (p : Proc)
    (s : S)
    → find_pte k.mem p.pgdir va ≡ some q
    → is_cow (k.mem q) ≡ true
    → cow_fault q k ≡ some k1
    → page_fault_handler fs kernel_end junk va k p s ≡ some (1, k1, p, s)
unfolding page_fault_handler fault_at
handler-cow fs kernel_end junk va q k k1 p s a b c = rw (a, b, c)

-- A fault on a page that is copy-on-write, with a page `x` free: the handler returns 1. The address
-- then leads to `x`, which holds what the old page held, with the old flags but PTE_W in the place of
-- PTE_COW; every other page is mapped as before, `x` is no longer free, and neither the process nor
-- the file layer has changed.
pub handler-Copied :
    {S : Type 0} (fs : Files S) (kernel_end : ℕ) (junk : ℕ → ℕ) (va x : ℕ) (xs : List ℕ) (k : Kmem)
    (p : Proc) (s : S)
    → kernbase ≤ kernel_end
    → Free kernel_end k (x ∷ xs)
    → IsPgdir kernel_end k.mem p.pgdir (x ∷ xs)
    → va < 2 ^ 32
    → is_cow (pte_at k.mem p.pgdir va) ≡ true
    → (k' : Kmem) × (page_fault_handler fs kernel_end junk va k p s ≡ some (1, k', p, s))
      × Copied kernel_end p.pgdir va x xs k k'
handler-Copied fs kernel_end junk va x xs k p s high f v lt cow =
    let h = has kernel_end p.pgdir va x xs k high f v lt cow in
    let run = cow_fault-result kernel_end p.pgdir va x xs k high f v lt cow in
    let e : is_cow (k.mem (table k.mem p.pgdir (pdx va) + 4 * ptx va)) ≡ true =
      rw (entry_at kernel_end p.pgdir k.mem va h) cow in
    (
      result kernel_end p.pgdir va x xs k high f v lt cow,
      handler-cow fs kernel_end junk va _ k _ p s (find_pte-some k.mem p.pgdir va h) e run,
      result-Copied kernel_end p.pgdir va x xs k high f v lt cow,
    )
