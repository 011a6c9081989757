-- ===== src/Fork.antt =====
-- xv6-public/proc.c, the part of fork that shares the pages of private mappings. `none` is the panic.
pub mod Share
pub mod Page
use osp.Prelude.{
  ℕ, zero, suc, ◌+◌, ◌/◌, ◌%◌, ◌^◌, Bool, Option, none, some, ltb, if◌then◌else◌, ◌>>=◌, update,
}
use osp.Mmu.{pgsize, pte_p, pte_w, pte_cow, flag, set_bit, clear_bit}
use osp.Kalloc.{Kmem}
use osp.Proc.{MemMapping}
use osp.Vm.{find_pte, make_pte}
use osp.Mmap.{map_private}

-- `*pte &= ~PTE_W; *pte |= PTE_COW`.
abbrev pub share_entry : ℕ → ℕ
share_entry e = set_bit (clear_bit e pte_w) pte_cow

-- `*child_pte = *pte`, with what walkpgdir returns.
abbrev pub copy_entry : ℕ → Option ℕ × Kmem → Option Kmem
copy_entry pte (none, k) = none
copy_entry pte (some child_pte, k) = some (record k { mem = update k.mem child_pte (k.mem pte) })

-- The body of the loop over the pages, with the parent's entry.
unfoldable pub share_at : ℕ → ℕ → Kmem → Option ℕ → Option Kmem
share_at child va k none = some k
share_at child va k (some pte) =
    if flag (k.mem pte) pte_p
    then copy_entry pte
        (make_pte child va (record k { mem = update k.mem pte (share_entry (k.mem pte)) }))
    else some k

unfoldable pub share_page : ℕ → ℕ → ℕ → Kmem → Option Kmem
share_page parent child va k = share_at child va k (find_pte k.mem parent va)

-- The loop over the pages of a mapping; `none` is also fuel that ran out.
unfoldable pub share_loop : ℕ → ℕ → ℕ → ℕ → ℕ → Kmem → Option Kmem
share_loop zero parent child va stop k = none
share_loop (suc fuel) parent child va stop k =
    let rest =
      share_page parent child va k >>= share_loop fuel parent child ((va + pgsize) % 2 ^ 32) stop in
    if ltb va stop then rest else some k

-- The loop over the parent's mappings: `n` of them from index `i` on.
unfoldable pub share_mappings : ℕ → ℕ → (ℕ → MemMapping) → ℕ → ℕ → Kmem → Option Kmem
share_mappings parent child maps i zero k = some k
share_mappings parent child maps i (suc n) k = do
  let m = maps i
  k1 ←
      if flag m.flags map_private
      then share_loop (m.length / pgsize + 2) parent child m.addr ((m.addr + m.length) % 2 ^ 32) k
      else some k
  share_mappings parent child maps (i + 1) n k1
