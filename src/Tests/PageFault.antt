-- ===== src/Tests/PageFault.antt =====
-- The theorems on page_fault_handler: a lazy fault, and a copy-on-write fault.
use osp.Prelude.{
  ℕ, ◌+◌, ◌-◌, ◌*◌, ◌^◌, ◌<◌, ◌∙◌, ◌≡◌, refl, true, false, some, [], ◌∷◌, arith, true≢false, sym,
  ◌==◌, if◌then◌else◌,
}
use osp.Mmu.{flag, pte_p}
use osp.Kalloc.{Kmem}
use osp.Kalloc.FreeList.{Free}
use osp.Proc.{MemMapping, running, Proc}
use osp.Munmap.{Files}
use osp.Vm.Lookup.{IsPgdir}
use osp.PageFault.{page_fault_handler}
use osp.PageFault.Cow.{Copied, handler-Copied}
use osp.PageFault.Serve.{Holds}
use osp.PageFault.Lazy.{Served, handler-Served}

abbrev kend : ℕ
kend = 0x8010_0000

abbrev dir : ℕ
dir = 0x8010_3000

abbrev page0 : ℕ
page0 = 0x8010_1000

-- The page table of the second memory.
abbrev tab : ℕ
tab = 0x8010_4000

abbrev k0 : Kmem
k0 = record { mem = λ _. 0; freelist = page0; use_lock = false }

-- The page at 0x60000000 has the frame 0x300000 and is copy-on-write.
abbrev cow_mem : ℕ → ℕ
cow_mem a = if a == dir + 4 * 0x180 then 0x10_4007 else if a == tab then 0x30_0805 else 0

abbrev k1 : Kmem
k1 = record k0 { mem = cow_mem }

abbrev anon : MemMapping
anon = record {
  addr = 0x6000_0000;
  length = 4000;
  flags = 6;
  fd = 2 ^ 32 - 1;
  original_length = 4000;
  allocated = 0;
}

abbrev proc : MemMapping → Proc
proc m = record {
  sz = 4096;
  pgdir = dir;
  kstack = 0x8021_0000;
  state = running;
  pid = 1;
  parent = 0;
  tf = 0;
  context = 0;
  chan = 0;
  killed = 0;
  ofile = λ _. 0x8030_0000;
  cwd = 0;
  name = [];
  memory_mappings = λ _. m;
  num_mappings = 1;
}

abbrev files : Files ℕ
files = record {
  file_ip = λ s f. 7;
  begin_op = λ s. s;
  end_op = λ s. s;
  ilock = λ ip s. s;
  iunlock = λ ip s. s;
  writei = λ ip buffer off n s. (n, s + n);
  readi = λ ip buffer off n s. (n, λ i. off + i, s);
}

k0-Free : Free kend k0 (page0 ∷ [])
k0-Free = (refl, omega arith, tt, refl)

k0-IsPgdir : IsPgdir kend k0.mem dir (page0 ∷ [])
k0-IsPgdir = record {
  page = omega arith;
  taken = omega arith;
  tables = λ d lt h. absurd (true≢false (sym h));
  apart = λ d e ld le h _ _. absurd (true≢false (sym h));
}

k1-Free : Free kend k1 (page0 ∷ [])
k1-Free = (refl, omega arith, tt, refl)

only_table : (d : ℕ) → d < 1024 → flag (cow_mem (dir + 4 * d)) pte_p ≡ true → d ≡ 0x180
only_table d lt h = ground arith

k1-IsPgdir : IsPgdir kend k1.mem dir (page0 ∷ [])
k1-IsPgdir = record {
  page = omega arith;
  taken = omega arith;
  tables =
      λ d lt h. let e = only_table d lt h in rw e (omega arith, omega arith, (omega arith, tt));
  apart = λ d e ld le h g n. absurd (n (only_table d ld h ∙ sym (only_table e le g)));
}

anon-Holds : Holds (proc anon) 0x6000_0004 0
anon-Holds = record { below = omega arith; hit = refl; first = λ j lt. absurd (omega arith) }

handler-Copied_example :
    (k' : Kmem) × (page_fault_handler files kend (λ _. 0) 0x6000_0008 k1 (proc anon) 0
      ≡ some (1, k', proc anon, 0))
    × Copied kend dir 0x6000_0008 page0 [] k1 k'
handler-Copied_example =
    handler-Copied files kend (λ _. 0) 0x6000_0008 page0 [] k1 (proc anon) 0 (omega arith) k1-Free
      k1-IsPgdir (omega arith) refl

handler-Served_example :
    (k' : Kmem) × (page_fault_handler files kend (λ _. 0) 0x6000_0004 k0 (proc anon) 0
      ≡ some (1, k', proc anon, 0))
    × Served kend dir 0x6000_0004 page0 k0 k'
handler-Served_example =
    handler-Served files kend (λ _. 0) 0x6000_0004 0 page0 [] k0 (proc anon) 0 (omega arith) k0-Free
      k0-IsPgdir (omega arith) (λ w _ _ _. refl) refl anon-Holds (refl, refl, refl)
