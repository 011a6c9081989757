-- ===== src/Munmap.antt =====
-- xv6-public/sysproc.c: sys_munmap.
-- The file layer enters through the record `Files`: its state, and what is called of it.
pub mod Loop
pub mod Shift
pub mod Calls
use osp.Prelude.{
  ℕ, zero, suc, ◌+◌, ◌-◌, ◌*◌, ◌/◌, ◌%◌, ◌^◌, Bool, true, false, not, ◌&&◌, ◌||◌, Option, none,
  some, ltb, leb, ◌==◌, if◌then◌else◌, ◌>>=◌, update,
}
use osp.Mmu.{pgsize, p2v, pte_addr, pte_p, flag}
use osp.Proc.{MemMapping, Proc}
use osp.Vm.{find_pte}
use osp.Mmap.{map_shared, map_anonymous, minus_one, slt}

-- `f->ip` for a `struct file` pointer, and the calls of fs.c and log.c. `writei` gets the page as its
-- words, and returns the bytes written or a negative `int`; `readi` returns the buffer it was given as
-- it has filled it, behind the same result.
pub record Files (S : Type 0) : Type 0 where
  pub file_ip : S → ℕ → ℕ
  pub begin_op : S → S
  pub end_op : S → S
  pub ilock : ℕ → S → S
  pub iunlock : ℕ → S → S
  pub writei : ℕ → (ℕ → ℕ) → ℕ → ℕ → S → ℕ × S
  pub readi : ℕ → (ℕ → ℕ) → ℕ → ℕ → S → ℕ × (ℕ → ℕ) × S

abbrev pub is_file_shared : MemMapping → Bool
is_file_shared m = flag m.flags map_shared && not (flag m.flags map_anonymous)

-- `addr` and `length` lie in the mapping, by `uint` sums.
abbrev pub covers : ℕ → ℕ → MemMapping → Bool
covers addr length m =
    leb m.addr addr && leb ((addr + length) % 2 ^ 32) ((m.addr + m.length) % 2 ^ 32)

-- The loop that moves the mappings behind index `i` one place down.
unfoldable pub shift : (ℕ → MemMapping) → ℕ → ℕ → ℕ → MemMapping
shift maps k zero = maps
shift maps k (suc n) = shift (update maps k (maps (k + 1))) (k + 1) n

unfoldable pub remove_mapping : ℕ → Proc → Proc
unfolding shift
remove_mapping i p = record p {
  memory_mappings = shift p.memory_mappings i (p.num_mappings - 1 - i);
  num_mappings = p.num_mappings - 1;
}

-- The kernel address of the page at `va`, if one is present.
unfoldable pub present_page : (ℕ → ℕ) → ℕ → ℕ → Option ℕ
present_page mem pgdir va = do
  pte ← find_pte mem pgdir va
  if flag (mem pte) pte_p then some (p2v (pte_addr (mem pte))) else none

module _ {S : Type 0} (fs : Files S) where
  -- One page is written back, in a transaction of its own; true if `writei` failed.
  unfoldable pub write_page : ℕ → (ℕ → ℕ) → ℕ → S → Bool × S
  write_page ip buffer off s =
      let (n, s1) = fs.writei ip buffer off pgsize (fs.ilock ip (fs.begin_op s)) in
      (slt n 0, fs.end_op (fs.iunlock ip s1))

  -- One round of the `while`: a present page of a shared file mapping is written back. True if that
  -- failed.
  unfoldable pub unmap_page : (ℕ → ℕ) → ℕ → MemMapping → ℕ → ℕ → S → Bool × S
  unmap_page mem pgdir m ip va s = elim (present_page mem pgdir va) [
    | none ↦ (false, s)
    | some pa ↦
        if is_file_shared m
        then write_page ip (λ i. mem (pa + i)) ((va + 2 ^ 32 - m.addr) % 2 ^ 32) s
        else (false, s)
  ]

  -- The `while` over the pages: true if a write failed. `none` is fuel that ran out.
  unfoldable pub unmap_loop : ℕ → (ℕ → ℕ) → ℕ → MemMapping → ℕ → ℕ → ℕ → S → Option (Bool × S)
  unfolding unmap_page
  unmap_loop zero mem pgdir m ip va stop s = none
  unmap_loop (suc fuel) mem pgdir m ip va stop s =
      let (failed, s') = unmap_page mem pgdir m ip va s in
      let next = unmap_loop fuel mem pgdir m ip ((va + pgsize) % 2 ^ 32) stop s' in
      if ltb va stop then (if failed then some (true, s') else next) else some (false, s)

  -- `ip`, NULL where the code does not set it; `none` is the panic on a file that is closed.
  unfoldable pub backing_inode : MemMapping → Proc → S → Option ℕ
  backing_inode m p s =
      if is_file_shared m && not (slt m.fd 0)
      then (if p.ofile m.fd == 0 then none else some (fs.file_ip s (p.ofile m.fd)))
      else some 0

  -- The body of the loop where the first mapping covers the request.
  unfoldable pub unmap_first : ℕ → ℕ → (ℕ → ℕ) → Proc → S → Option (ℕ × Proc × S)
  unfolding backing_inode
  unmap_first addr length mem p s = do
    let m = p.memory_mappings 0
    ip ← backing_inode m p s
    (failed, s') ←
        unmap_loop (length / pgsize + 2) mem p.pgdir m ip addr ((addr + length) % 2 ^ 32) s
    some (if failed then (minus_one, p, s') else (0, remove_mapping 0 p, s'))

  -- The loop over the mappings: its body ends by `break`, so that it looks at the first one only.
  unfoldable pub sys_munmap : Option (ℕ × ℕ) → (ℕ → ℕ) → Proc → S → Option (ℕ × Proc × S)
  sys_munmap none mem p s = some (minus_one, p, s)
  sys_munmap (some (addr, length)) mem p s =
      if p.num_mappings == 0
      then some (minus_one, p, s)
      else if covers addr length (p.memory_mappings 0)
      then unmap_first addr length mem p s
      else some (minus_one, remove_mapping 0 p, s)
