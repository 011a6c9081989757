-- ===== src/Munmap/Calls.antt =====
-- What a call of sys_munmap does, on each of its paths.
use osp.Prelude.{
  ℕ, ◌+◌, ◌-◌, ◌/◌, ◌%◌, ◌^◌, ◌≤◌, ◌<◌, ◌≡◌, true, false, some, arith, ltb, ◌==◌, if◌then◌else◌,
  ◌∙◌,
}
use osp.Mmu.{pgsize}
use osp.Proc.{MemMapping, Proc}
use osp.Mmap.{minus_one}
use osp.Munmap.{
  Files, is_file_shared, covers, remove_mapping, backing_inode, unmap_first, sys_munmap,
}
use osp.Munmap.Loop.{rounds, unmap_loop-rounds, rounds_private}
use osp.Munmap.Shift.{remove_mapping-at}

-- Pages that a range of `length` bytes takes.
abbrev pub page_count : ℕ → ℕ
page_count length = (length + pgsize - 1) / pgsize

module _ {S : Type 0} (fs : Files S) (addr length : ℕ) (mem : ℕ → ℕ) (p : Proc) (s : S) where
  abbrev head : MemMapping
  head = p.memory_mappings 0

  sys_munmap-covered :
      0 < p.num_mappings
      → covers addr length head ≡ true
      → sys_munmap fs (some (addr, length)) mem p s ≡ unmap_first fs addr length mem p s
  unfolding sys_munmap
  sys_munmap-covered pos c = let live : (p.num_mappings == 0) ≡ false = ground arith in rw (live, c)

  -- The first mapping is unmapped by its rounds, for as long as no `uint` sum wraps.
  unmap_first-rounds :
      (ip : ℕ)
      → addr + length + pgsize ≤ 2 ^ 32
      → backing_inode fs head p s ≡ some ip
      → unmap_first fs addr length mem p s ≡ (
          let (failed, s') = rounds fs mem p.pgdir head ip (page_count length) addr s in
          some (if failed then (minus_one, p, s') else (0, remove_mapping 0 p, s')))
  unfolding unmap_first
  unmap_first-rounds ip small e =
      let whole : (addr + length) % 2 ^ 32 ≡ addr + length = omega arith in
      rw (e, whole)
        (rw (
          unmap_loop-rounds fs mem p.pgdir head ip (page_count length) (length / pgsize + 2) addr
            (addr + length) s (omega arith) small (omega arith) (omega arith)))

  backing_private : is_file_shared head ≡ false → backing_inode fs head p s ≡ some 0
  unfolding backing_inode
  backing_private h = rw h

  -- A request inside the first mapping, which is private or anonymous: the result is 0, that mapping
  -- is gone as a whole, also where the request is a part of it, and the file layer is not touched.
  pub munmap_private :
      0 < p.num_mappings
      → covers addr length head ≡ true
      → is_file_shared head ≡ false
      → addr + length + pgsize ≤ 2 ^ 32
      → sys_munmap fs (some (addr, length)) mem p s ≡ some (0, remove_mapping 0 p, s)
  munmap_private pos c h small =
      sys_munmap-covered pos c
      ∙ unmap_first-rounds 0 small (backing_private h)
      ∙ rw (rounds_private fs mem p.pgdir head 0 h (page_count length) addr s)

  -- A request outside the first mapping: the result is -1, and yet the first mapping is lost. The
  -- others move down by one, whether or not one of them is the one that the caller means.
  pub munmap_elsewhere :
      0 < p.num_mappings
      → covers addr length head ≡ false
      → (p' : Proc) × (sys_munmap fs (some (addr, length)) mem p s ≡ some (minus_one, p', s))
        × (p'.num_mappings + 1 ≡ p.num_mappings)
        × ((i : ℕ) → i < p'.num_mappings → p'.memory_mappings i ≡ p.memory_mappings (i + 1))
  unfolding sys_munmap remove_mapping
  munmap_elsewhere pos c = (
    remove_mapping 0 p,
    (let live : (p.num_mappings == 0) ≡ false = ground arith in rw (live, c)),
    omega arith,
    λ i lt. let up : ltb i 0 ≡ false = ground arith in remove_mapping-at 0 i p pos lt ∙ rw up,
  )
