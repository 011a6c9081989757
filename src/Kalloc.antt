-- ===== src/Kalloc.antt =====
-- xv6-public/kalloc.c, the allocator of physical pages.
-- The free list is threaded through the free pages themselves, so the model keeps the memory: the
-- word at each kernel virtual address. `none` is `panic("kfree")`. The parameter `kernel_end` is the
-- linker's symbol `end`. Each function runs under `kmem.lock`, hence is one step.
pub mod FreeList
pub mod Freerange
pub mod Client
use osp.Prelude.{
  ℕ, zero, suc, ◌+◌, ◌-◌, ◌*◌, ◌/◌, ◌%◌, ◌^◌, Bool, true, false, ◌&&◌, ◌||◌, not, Option, none,
  some, ltb, leb, ◌==◌, if◌then◌else◌, ◌>>=◌, update,
}
use osp.Mmu.{pgsize, phystop, v2p, pgroundup}

-- The words of `struct { lock; use_lock; freelist }`, and the memory that the pages lie in.
pub record Kmem : Type 0 where
  pub mem : ℕ → ℕ
  pub freelist : ℕ
  pub use_lock : Bool

-- `memset(v, 1, PGSIZE)`: each byte of the page becomes 1.
abbrev pub fill_page : ℕ → (ℕ → ℕ) → ℕ → ℕ
fill_page v mem a = if leb v a && ltb a (v + pgsize) then 0x0101_0101 else mem a

module _ (kernel_end : ℕ) where
  unfoldable pub kfree : ℕ → Kmem → Option Kmem
  kfree v k =
      if not (v % pgsize == 0) || ltb v kernel_end || leb phystop (v2p v)
      then none
      else some (record k { mem = update (fill_page v k.mem) v k.freelist; freelist = v })

  unfoldable pub freerange_loop : ℕ → ℕ → ℕ → Kmem → Option Kmem
  unfolding kfree
  freerange_loop zero p vend k = none
  freerange_loop (suc fuel) p vend k =
      let next = kfree p k >>= freerange_loop fuel ((p + pgsize) % 2 ^ 32) vend in
      if leb ((p + pgsize) % 2 ^ 32) vend then next else some k

  unfoldable pub freerange : ℕ → ℕ → Kmem → Option Kmem
  unfolding freerange_loop
  freerange vstart vend k = freerange_loop 0x10_0001 (pgroundup vstart) vend k

  unfoldable pub kinit1 : ℕ → ℕ → Kmem → Option Kmem
  unfolding freerange
  kinit1 vstart vend k = freerange vstart vend (record k { use_lock = false })

  unfoldable pub kinit2 : ℕ → ℕ → Kmem → Option Kmem
  unfolding freerange
  kinit2 vstart vend k = do k' ← freerange vstart vend k; some (record k' { use_lock = true })

unfoldable pub kalloc : Kmem → ℕ × Kmem
kalloc k = let r = k.freelist in if r == 0 then (r, k) else (r, record k { freelist = k.mem r })
