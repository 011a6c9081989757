-- ===== src/Proc.antt =====
-- xv6-public/proc.h: the process structure.
use osp.Prelude.{ℕ, List}

-- `struct mem_mapping`; the `int` fields are their bit patterns.
pub record MemMapping : Type 0 where
  pub addr : ℕ
  pub length : ℕ
  pub flags : ℕ
  pub fd : ℕ
  pub original_length : ℕ
  pub allocated : ℕ

pub data Procstate : Type 0 where
  unused embryo sleeping runnable running zombie : Procstate

abbrev pub nproc : ℕ
nproc = 64

abbrev pub nofile : ℕ
nofile = 16

-- The size of the array `memoryMappings`.
abbrev pub max_mappings : ℕ
max_mappings = 32

-- `struct proc`. Pointers are numbers and 0 is NULL; that to `ptable.proc[i]` is `i + 1`. The arrays
-- are functions of the index.
pub record Proc : Type 0 where
  pub sz : ℕ
  pub pgdir : ℕ
  pub kstack : ℕ
  pub state : Procstate
  pub pid : ℕ
  pub parent : ℕ
  pub tf : ℕ
  pub context : ℕ
  pub chan : ℕ
  pub killed : ℕ
  pub ofile : ℕ → ℕ
  pub cwd : ℕ
  pub name : List ℕ
  pub memory_mappings : ℕ → MemMapping
  pub num_mappings : ℕ
