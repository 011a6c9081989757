-- ===== src/PageFault.antt =====
-- xv6-public/proc.c: page_fault_handler.
-- The result of a part that panics is `none`.
pub mod Cow
pub mod Serve
pub mod Lazy
use osp.Prelude.{
  ℕ, zero, suc, ◌+◌, ◌-◌, ◌%◌, ◌^◌, Bool, true, false, not, ◌&&◌, Option, none, some, ltb, leb,
  ◌==◌, if◌then◌else◌, ◌>>=◌, update,
}
use osp.Mmu.{
  pgsize, v2p, p2v, pgroundup, pgrounddown, pte_addr, pte_flags, pte_w, pte_u, pte_cow, flag,
  set_bit, clear_bit, or_low,
}
use osp.Kalloc.{Kmem, kalloc, kfree}
use osp.Proc.{MemMapping, Proc}
use osp.Vm.{zero_page, find_pte, mappages, copy_page}
use osp.Mmap.{map_anonymous, map_growsup, minus_one, slt}
use osp.Munmap.{Files}

-- The test for a fault on a copy-on-write page.
abbrev pub is_cow : ℕ → Bool
is_cow e = flag e pte_cow && not (flag e pte_w)

-- `V2P(mem) | PTE_FLAGS(*pte) | PTE_W`, then without PTE_COW.
abbrev pub cow_entry : ℕ → ℕ → ℕ
cow_entry new e = clear_bit (set_bit (or_low (v2p new) (pte_flags e)) pte_w) pte_cow

-- The page gets a copy of its own.
unfoldable pub cow_fault : ℕ → Kmem → Option Kmem
cow_fault pte k =
    let (new, k1) = kalloc k in
    let mem = copy_page new (p2v (pte_addr (k1.mem pte))) k1.mem in
    if new == 0 then none else some (record k1 { mem = update mem pte (cow_entry new (mem pte)) })

abbrev pub holds : ℕ → MemMapping → Bool
holds va m = leb m.addr va && ltb va (pgroundup ((m.addr + m.length) % 2 ^ 32))

-- The start of the first mapping in the table from `last` on, 0xFFFFFFFF if there is none: `n` mappings
-- from index `j` on.
unfoldable pub next_start : (ℕ → MemMapping) → ℕ → ℕ → ℕ → ℕ
next_start maps last j zero = 0xFFFF_FFFF
next_start maps last j (suc n) =
    if leb last (maps j).addr && ltb (maps j).addr 0xFFFF_FFFF
    then (maps j).addr
    else next_start maps last (j + 1) n

-- MAP_GROWSUP: the mapping `i` gets a page more, `none` where another one is too near.
unfoldable pub grow : ℕ → Proc → Option Proc
unfolding next_start
grow i p =
    let m = p.memory_mappings i in
    let last = (pgroundup ((m.addr + m.length) % 2 ^ 32) + pgsize) % 2 ^ 32 in
    let next = next_start p.memory_mappings last 0 p.num_mappings in
    if not (flag m.flags map_growsup)
    then some p
    else if leb ((next + 2 ^ 32 - last) % 2 ^ 32) pgsize
    then none
    else some (record p {
      memory_mappings =
          update p.memory_mappings i (record m { length = (m.length + pgsize) % 2 ^ 32 });
    })

-- `memmove(mem, buffer, PGSIZE)`.
abbrev pub store_page : ℕ → (ℕ → ℕ) → (ℕ → ℕ) → ℕ → ℕ
store_page v buffer mem a = if leb v a && ltb a (v + pgsize) then buffer (a - v) else mem a

-- mappages, and the page freed where that fails.
unfoldable pub map_or_free : ℕ → ℕ → ℕ → ℕ → Kmem → Option Kmem
map_or_free kernel_end pgdir va page k = do
  (done, k1) ← mappages pgdir va pgsize (v2p page) (pte_w + pte_u) k
  if done then some k1 else kfree kernel_end page k1

-- The result, the memory, the process and the file layer's state.
abbrev pub Fault : Type 0 → Type 0
Fault S = Option (ℕ × Kmem × Proc × S)

module _ {S : Type 0} (fs : Files S) (kernel_end : ℕ) where
  -- `ip`, NULL where the code does not set it.
  unfoldable pub fault_inode : MemMapping → Proc → S → Option ℕ
  fault_inode m p s =
      if slt 0 m.fd
      then (if p.ofile m.fd == 0 then none else some (fs.file_ip s (p.ofile m.fd)))
      else some 0

  -- The page's new contents: from the file, or zero. `junk` is what the buffer holds on the stack;
  -- `ilock` panics on a null pointer.
  unfoldable pub fill : (ℕ → ℕ) → ℕ → MemMapping → ℕ → ℕ → (ℕ → ℕ) → S → Option ((ℕ → ℕ) × S)
  fill junk va m ip page mem s =
      let off = (pgrounddown va + 2 ^ 32 - m.addr) % 2 ^ 32 in
      let (_, buffer, s1) = fs.readi ip junk off pgsize (fs.ilock ip (fs.begin_op s)) in
      if flag m.flags map_anonymous
      then some (zero_page page mem, s)
      else if ip == 0
      then none
      else some (store_page page buffer mem, fs.end_op (fs.iunlock ip s1))

  -- The rest of the handler for a page taken for the mapping `i`, before its growth `m`.
  unfoldable pub fault_page : (ℕ → ℕ) → ℕ → MemMapping → ℕ → ℕ → Kmem → Proc → S → Fault S
  fault_page junk va m ip page k p s = do
    (mem, s1) ← fill junk va m ip page k.mem s
    k1 ← map_or_free kernel_end p.pgdir va page (record k { mem = mem })
    some (1, k1, p, s1)

  -- The body of the loop for the mapping that holds the address.
  unfoldable pub serve : (ℕ → ℕ) → ℕ → ℕ → Kmem → Proc → S → Fault S
  serve junk va i k p s = do
    let m = p.memory_mappings i
    ip ← fault_inode m p s
    let page = (kalloc k).0
    let k1 = (kalloc k).1
    if page == 0 then none else elim (grow i p) [
      | none ↦ some (minus_one, k1, p, s)
      | some p1 ↦ fault_page junk va m ip page k1 p1 s
    ]

  -- The loop: `n` mappings from index `i` on.
  unfoldable pub fault_loop : (ℕ → ℕ) → ℕ → ℕ → ℕ → Kmem → Proc → S → Fault S
  unfolding serve
  fault_loop junk va i zero k p s = some (minus_one, k, p, s)
  fault_loop junk va i (suc n) k p s =
      let rest = fault_loop junk va (i + 1) n k p s in
      if holds va (p.memory_mappings i) then serve junk va i k p s else rest

  unfoldable pub lazy_fault : (ℕ → ℕ) → ℕ → Kmem → Proc → S → Fault S
  unfolding fault_loop
  lazy_fault junk va k p s = fault_loop junk va 0 p.num_mappings k p s

  -- The handler, with what walkpgdir returns.
  unfoldable pub fault_at : (ℕ → ℕ) → ℕ → Kmem → Proc → S → Option ℕ → Fault S
  fault_at junk va k p s none = lazy_fault junk va k p s
  fault_at junk va k p s (some pte) =
      if is_cow (k.mem pte)
      then (cow_fault pte k >>= λ k1. some (1, k1, p, s))
      else lazy_fault junk va k p s

  unfoldable pub page_fault_handler : (ℕ → ℕ) → ℕ → Kmem → Proc → S → Fault S
  unfolding fault_at
  page_fault_handler junk va k p s = fault_at junk va k p s (find_pte k.mem p.pgdir va)
