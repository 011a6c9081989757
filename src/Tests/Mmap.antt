-- ===== src/Tests/Mmap.antt =====
-- The theorems on sys_mmap and sys_munmap at a process with a mapping or two.
use osp.Prelude.{ℕ, ◌^◌, ◌-◌, ◌+◌, ◌<◌, ◌≡◌, refl, some, arith, [], ltb, if◌then◌else◌}
use osp.Proc.{MemMapping, running, Proc}
use osp.Mmap.{mmap_area_start, minus_one, MmapArgs, find_available_address, sys_mmap}
use osp.Mmap.Find.{Found, find_available_address-Found}
use osp.Mmap.Layout.{IsPlaced, sys_mmap-IsPlaced}
use osp.Munmap.{Files, sys_munmap}
use osp.Munmap.Calls.{munmap_elsewhere}

abbrev blank : MemMapping
blank = record { addr = 0; length = 0; flags = 0; fd = 0; original_length = 0; allocated = 0 }

-- An anonymous shared mapping of 4000 bytes at the start of the area.
abbrev anon : MemMapping
anon = record blank { addr = 0x6000_0000; length = 4000; flags = 6; fd = 2 ^ 32 - 1 }

-- A shared mapping of file descriptor 3.
abbrev filed : MemMapping
filed = record blank { addr = 0x6000_0000; length = 8192; flags = 2; fd = 3 }

abbrev proc : ℕ → MemMapping → Proc
proc n m = record {
  sz = 4096;
  pgdir = 0x8020_0000;
  kstack = 0x8021_0000;
  state = running;
  pid = 1;
  parent = 0;
  tf = 0;
  context = 0;
  chan = 0;
  killed = 0;
  ofile = λ _. 0x8030_0000;
  cwd = 0;
  name = [];
  memory_mappings = λ _. m;
  num_mappings = n;
}

-- What test_4.c asks for, and the same at a fixed address.
abbrev args : MmapArgs
args = record { addr = 0; length = 4000; prot = 3; flags = 6; fd = 2 ^ 32 - 1; offset = 0 }

abbrev fixed_args : MmapArgs
fixed_args = record args { addr = 0x6000_0000; flags = 14 }

second_page : find_available_address (proc 1 anon) 4000 ≡ some 0x6000_1000
unfolding find_available_address
second_page = refl

find_available_address-Found_example :
    (r : ℕ) × (find_available_address (proc 1 anon) 4000 ≡ some r)
    × Found (proc 1 anon) 4000 mmap_area_start r
find_available_address-Found_example =
    find_available_address-Found (proc 1 anon) 4000 (omega arith) (omega arith)

one-IsPlaced : IsPlaced (proc 1 anon)
one-IsPlaced = record {
  few = omega arith;
  inside = λ i lt. omega arith;
  apart = λ i j li lj ne. absurd (omega arith);
}

sys_mmap-IsPlaced_example :
    (r : ℕ) × (p' : Proc) × (sys_mmap 0 (some args) (proc 1 anon) ≡ some (r, p')) × IsPlaced p'
sys_mmap-IsPlaced_example =
    sys_mmap-IsPlaced 0 args (proc 1 anon) (omega arith) (omega arith) refl one-IsPlaced

-- A file layer that counts the bytes written.
abbrev files : Files ℕ
files = record {
  file_ip = λ s f. 7;
  begin_op = λ s. s;
  end_op = λ s. s;
  ilock = λ ip s. s;
  iunlock = λ ip s. s;
  writei = λ ip buffer off n s. (n, s + n);
  readi = λ ip buffer off n s. (n, buffer, s);
}

-- Page table and page entries that are all present.
abbrev all_present : ℕ → ℕ
all_present a = 0x40_0007

-- A file layer whose inode refuses writes behind offset 4096.
abbrev short_files : Files ℕ
short_files = record files {
  writei = λ ip buffer off n s. if ltb 4096 (off + n) then (minus_one, s) else (n, s + n);
}

munmap_elsewhere_example :
    (p' : Proc) × (sys_munmap files (some (0x6000_1000, 4000)) (λ _. 0) (proc 2 anon) 0
      ≡ some (minus_one, p', 0))
    × (p'.num_mappings + 1 ≡ 2)
    × ((i : ℕ) → i < p'.num_mappings → p'.memory_mappings i ≡ anon)
munmap_elsewhere_example =
    munmap_elsewhere files 0x6000_1000 4000 (λ _. 0) (proc 2 anon) 0 (omega arith) refl
