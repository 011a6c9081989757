-- ===== src/Vm/Free.antt =====
-- xv6-public/vm.c: deallocuvm and freevm, which give back the pages of an address space.
pub mod Fuel
use osp.Prelude.{
  ℕ, zero, suc, ◌+◌, ◌*◌, ◌%◌, ◌^◌, Option, none, some, leb, ◌==◌, if◌then◌else◌, ◌>>=◌, update,
}
use osp.Mmu.{pgsize, kernbase, p2v, pdx, pte_addr, flag, pte_p, pgroundup}
use osp.Kalloc.{Kmem, kfree}
use osp.Vm.{find_pte}

-- `PGADDR(PDX(a) + 1, 0, 0) - PGSIZE`, and the PGSIZE that the loop adds.
abbrev pub next_table : ℕ → ℕ
next_table a = (pdx a + 1) * 2 ^ 22 % 2 ^ 32

module _ (kernel_end : ℕ) where
  -- The page of a present entry, at `p`, is freed; the entry is cleared.
  abbrev pub free_entry : ℕ → Kmem → Option Kmem
  free_entry p k =
      if pte_addr (k.mem p) == 0
      then none
      else (kfree kernel_end (p2v (pte_addr (k.mem p))) k >>= λ k1.
          some (record k1 { mem = update k1.mem p 0 }))

  -- One round of the loop of deallocuvm, with what walkpgdir returns; `next` is the rest of the loop.
  abbrev pub dealloc_step : (ℕ → Kmem → Option Kmem) → ℕ → Option ℕ → Kmem → Option Kmem
  dealloc_step next a none k = next (next_table a) k
  dealloc_step next a (some p) k =
      (if flag (k.mem p) pte_p then free_entry p k else some k) >>= next ((a + pgsize) % 2 ^ 32)

  unfoldable pub dealloc_loop : ℕ → ℕ → ℕ → ℕ → Kmem → Option Kmem
  dealloc_loop zero pgdir oldsz a k = none
  dealloc_loop (suc fuel) pgdir oldsz a k =
      if leb oldsz a
      then some k
      else dealloc_step (dealloc_loop fuel pgdir oldsz) a (find_pte k.mem pgdir a) k

  -- One round for each page of the address space. The size that it returns is left out.
  unfoldable pub deallocuvm : ℕ → ℕ → ℕ → Kmem → Option Kmem
  deallocuvm pgdir oldsz newsz k =
      if leb oldsz newsz then some k else dealloc_loop 0x10_0000 pgdir oldsz (pgroundup newsz) k

  -- The loop of freevm over the directory, `n` entries from `i` on.
  unfoldable pub free_tables : ℕ → ℕ → ℕ → Kmem → Option Kmem
  free_tables zero pgdir i k = some k
  free_tables (suc n) pgdir i k =
      (if flag (k.mem (pgdir + 4 * i)) pte_p
        then kfree kernel_end (p2v (pte_addr (k.mem (pgdir + 4 * i)))) k
        else some k)
      >>= free_tables n pgdir (i + 1)

  unfoldable pub freevm : ℕ → Kmem → Option Kmem
  freevm pgdir k =
      if pgdir == 0
      then none
      else (deallocuvm pgdir kernbase 0 k >>= λ k1.
          free_tables 1024 pgdir 0 k1 >>= λ k2. kfree kernel_end pgdir k2)
