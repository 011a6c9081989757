-- ===== src/Mmu.antt =====
-- xv6-public/mmu.h and memlayout.h: addresses, page numbers and page table flags of `uint` values.
use Prim.Native.Nat.{bit_or, bit_or-bitwise}
use osp.Prelude.{ℕ, ◌+◌, ◌-◌, ◌*◌, ◌/◌, ◌%◌, ◌^◌, ◌≡◌, Bool, ◌==◌, if◌then◌else◌, arith}

abbrev pub u32 : ℕ
u32 = 2 ^ 32

abbrev pub pgsize : ℕ
pgsize = 4096

abbrev pub kernbase : ℕ
kernbase = 0x8000_0000

abbrev pub phystop : ℕ
phystop = 0xE00_0000

-- Both wrap, as operations on `uint`.
abbrev pub v2p : ℕ → ℕ
v2p a = (a + 2 ^ 32 - kernbase) % 2 ^ 32

abbrev pub p2v : ℕ → ℕ
p2v a = (a + kernbase) % 2 ^ 32

-- The mask `~(PGSIZE - 1)` clears the twelve low bits.
abbrev pub pgroundup : ℕ → ℕ
pgroundup sz = (sz + pgsize - 1) % 2 ^ 32 / pgsize * pgsize

abbrev pub pgrounddown : ℕ → ℕ
pgrounddown a = a / pgsize * pgsize

abbrev pub pdx : ℕ → ℕ
pdx va = va / 2 ^ 22 % 1024

abbrev pub ptx : ℕ → ℕ
ptx va = va / 2 ^ 12 % 1024

abbrev pub pte_addr : ℕ → ℕ
pte_addr pte = pte / 4096 * 4096

abbrev pub pte_flags : ℕ → ℕ
pte_flags pte = pte % 4096

-- `x & m`, as a test, for a mask `m` of one bit.
abbrev pub flag : ℕ → ℕ → Bool
flag x m = x / m % 2 == 1

-- `x | m` and `x & ~m` for a mask of one bit.
abbrev pub set_bit : ℕ → ℕ → ℕ
set_bit x m = if flag x m then x else x + m

abbrev pub clear_bit : ℕ → ℕ → ℕ
clear_bit x m = if flag x m then x - m else x

abbrev pub pte_p : ℕ
pte_p = 1

abbrev pub pte_w : ℕ
pte_w = 2

abbrev pub pte_u : ℕ
pte_u = 4

abbrev pub pte_cow : ℕ
pte_cow = 0x800

-- `x | m` for a mask `m` of the twelve low bits.
abbrev pub or_low : ℕ → ℕ → ℕ
or_low x m = pte_addr x + bit_or (x % 4096) m

-- For a page address this is a sum.
pub or_low-page : (pa m : ℕ) → pa % pgsize ≡ 0 → or_low pa m ≡ pa + m
or_low-page pa m h = rw (h, bit_or-bitwise 0 m) (omega arith)
