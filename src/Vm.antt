-- ===== src/Vm.antt =====
-- xv6-public/vm.c: page tables in the kernel's memory.
-- A page table entry is a word of `Kmem.mem`; a pointer to it is its address, `none` the pointer 0.
pub mod Lookup
pub mod Entry
pub mod Range
pub mod Mappages
pub mod Frame
pub mod Free
pub mod Installed
use osp.Prelude.{
  Bool, true, false, zero, suc, ◌-◌, ◌/◌, ◌%◌, ◌^◌, ℕ, ◌+◌, ◌*◌, Option, none, some, ltb, leb, ◌==◌,
  if◌then◌else◌, ◌&&◌, update,
}
use osp.Mmu.{
  pgsize, v2p, p2v, pdx, ptx, pte_addr, flag, set_bit, or_low, pgrounddown, pte_p, pte_w, pte_u,
}
use osp.Kalloc.{Kmem, kalloc}

-- `memset(v, 0, PGSIZE)`.
abbrev pub zero_page : ℕ → (ℕ → ℕ) → ℕ → ℕ
zero_page v mem a = if leb v a && ltb a (v + pgsize) then 0 else mem a

-- `&pgdir[PDX(va)]`.
abbrev pub pde_ptr : ℕ → ℕ → ℕ
pde_ptr pgdir va = pgdir + 4 * pdx va

-- `walkpgdir(pgdir, va, 0)`, which only reads.
unfoldable pub find_pte : (ℕ → ℕ) → ℕ → ℕ → Option ℕ
find_pte mem pgdir va =
    let pde = mem (pde_ptr pgdir va) in
    if flag pde pte_p then some (p2v (pte_addr pde) + 4 * ptx va) else none

-- `walkpgdir(pgdir, va, 1)`, which makes the page table that it misses.
unfoldable pub make_pte : ℕ → ℕ → Kmem → Option ℕ × Kmem
make_pte pgdir va k =
    let pde = k.mem (pde_ptr pgdir va) in
    let (pgtab, k1) = kalloc k in
    if flag pde pte_p
    then (some (p2v (pte_addr pde) + 4 * ptx va), k)
    else if pgtab == 0
    then (none, k1)
    else (
      some (pgtab + 4 * ptx va),
      record k1 {
        mem =
            update (zero_page pgtab k1.mem) (pde_ptr pgdir va)
              (set_bit (set_bit (set_bit (v2p pgtab) pte_p) pte_w) pte_u);
      },
    )

-- `pa | perm | PTE_P`.
abbrev pub entry : ℕ → ℕ → ℕ
entry pa perm = set_bit (or_low pa perm) pte_p

-- One round of the loop of mappages for the page `a`, with what walkpgdir returns; `next` is the rest
-- of the loop. `none` is the panic on a page that is mapped already.
abbrev pub map_step :
    (Kmem → Option (Bool × Kmem)) → ℕ → ℕ → ℕ → Option ℕ × Kmem → Option (Bool × Kmem)
map_step next a last e (none, k1) = some (false, k1)
map_step next a last e (some p, k1) =
    if flag (k1.mem p) pte_p
    then none
    else if a == last
    then some (true, record k1 { mem = update k1.mem p e })
    else next (record k1 { mem = update k1.mem p e })

-- The loop: whether all pages are mapped. `none` is the panic, or fuel that ran out.
unfoldable pub map_loop : ℕ → ℕ → ℕ → ℕ → ℕ → ℕ → Kmem → Option (Bool × Kmem)
map_loop zero pgdir a last pa perm k = none
map_loop (suc fuel) pgdir a last pa perm k =
    map_step (map_loop fuel pgdir ((a + pgsize) % 2 ^ 32) last ((pa + pgsize) % 2 ^ 32) perm) a last
      (entry pa perm) (make_pte pgdir a k)

-- One round for each page of the address space.
abbrev pub map_fuel : ℕ
map_fuel = 0x10_0000

unfoldable pub mappages : ℕ → ℕ → ℕ → ℕ → ℕ → Kmem → Option (Bool × Kmem)
mappages pgdir va size pa perm k =
    map_loop map_fuel pgdir (pgrounddown va) (pgrounddown ((va + size + 2 ^ 32 - 1) % 2 ^ 32)) pa
      perm k

-- `memmove` of a page onto another.
abbrev pub copy_page : ℕ → ℕ → (ℕ → ℕ) → ℕ → ℕ
copy_page dst src mem a = if leb dst a && ltb a (dst + pgsize) then mem (src + (a - dst)) else mem a
