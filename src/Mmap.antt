-- ===== src/Mmap.antt =====
-- xv6-public/sysproc.c, the bookkeeping of sys_mmap: find_available_address and sys_mmap.
-- An `int` or `uint` is its bit pattern below 2 ^ 32, and -1 is 2 ^ 32 - 1.
pub mod Valid
pub mod Find
pub mod Place
pub mod Layout
use osp.Prelude.{
  ℕ, zero, suc, ◌+◌, ◌-◌, ◌%◌, ◌^◌, Bool, true, false, not, ◌&&◌, ◌||◌, Option, none, some, ltb,
  leb, ◌==◌, if◌then◌else◌, ◌>>=◌, update,
}
use osp.Mmu.{pgsize, pgroundup, flag}
use osp.Proc.{MemMapping, Proc, nofile, max_mappings}

abbrev pub mmap_area_start : ℕ
mmap_area_start = 0x6000_0000

abbrev pub mmap_area_end : ℕ
mmap_area_end = 0x8000_0000

abbrev pub map_private : ℕ
map_private = 1

abbrev pub map_shared : ℕ
map_shared = 2

abbrev pub map_anonymous : ℕ
map_anonymous = 4

abbrev pub map_fixed : ℕ
map_fixed = 8

abbrev pub map_growsup : ℕ
map_growsup = 16

abbrev pub minus_one : ℕ
minus_one = 2 ^ 32 - 1

-- `(int)a < (int)b`.
abbrev pub slt : ℕ → ℕ → Bool
slt a b = ltb ((a + 2 ^ 31) % 2 ^ 32) ((b + 2 ^ 31) % 2 ^ 32)

-- The test of one mapping against the candidate `[addr, addr + length)`.
abbrev pub clashes : ℕ → ℕ → MemMapping → Bool
clashes addr length m =
    ltb m.addr ((addr + length) % 2 ^ 32) && ltb addr ((m.addr + pgroundup m.length) % 2 ^ 32)

-- The inner `for`: `n` mappings from index `i` on.
unfoldable pub overlap : (ℕ → MemMapping) → ℕ → ℕ → ℕ → ℕ → Bool
overlap maps addr length i zero = false
overlap maps addr length i (suc n) =
    if clashes addr length (maps i) then true else overlap maps addr length (i + 1) n

-- The outer `while`; `none` is fuel that ran out.
unfoldable pub find_loop : ℕ → Proc → ℕ → ℕ → Option ℕ
unfolding overlap
find_loop zero p length addr = none
find_loop (suc fuel) p length addr =
    let next = find_loop fuel p length ((addr + pgsize) % 2 ^ 32) in
    let hit = overlap p.memory_mappings addr length 0 p.num_mappings in
    if leb ((addr + length) % 2 ^ 32) mmap_area_end
    then (if hit then next else some addr)
    else some 0

-- One round for each page of the area, and one that leaves.
abbrev pub find_fuel : ℕ
find_fuel = 0x2_0002

unfoldable pub find_available_address : Proc → ℕ → Option ℕ
unfolding find_loop
find_available_address p length = find_loop find_fuel p length mmap_area_start

pub record MmapArgs : Type 0 where
  pub addr : ℕ
  pub length : ℕ
  pub prot : ℕ
  pub flags : ℕ
  pub fd : ℕ
  pub offset : ℕ

-- The checks of sys_mmap in the order of the code: true where it returns -1.
unfoldable pub bad_args : Proc → MmapArgs → Bool
bad_args p a =
    (a.length == 0 || slt a.length 0)
    || (not (a.addr == 0)
        && (slt a.addr mmap_area_start
            || slt (mmap_area_end - pgsize) a.addr
            || not (a.addr % pgsize == 0)))
    || not (flag a.flags map_shared || flag a.flags map_private)
    || (flag a.flags map_anonymous && (not (a.fd == minus_one) || not (a.offset == 0)))
    || (flag a.flags map_fixed && (a.addr == 0 || not (a.addr % pgsize == 0)))
    || (not (flag a.flags map_anonymous)
        && (slt a.fd 0 || not (slt a.fd nofile) || p.ofile a.fd == 0))

-- `memoryMappings[num_mappings++] = new_mapping`; a write past the array is `none`.
unfoldable pub add_mapping : MemMapping → Proc → Option Proc
add_mapping m p =
    if ltb p.num_mappings max_mappings
    then some (record p {
      memory_mappings = update p.memory_mappings p.num_mappings m;
      num_mappings = p.num_mappings + 1;
    })
    else none

-- The part of sys_mmap behind the checks. `junk` is the field `allocated`, which the code leaves as
-- it finds it on the stack.
unfoldable pub place : ℕ → MmapArgs → Proc → Option (ℕ × Proc)
place junk a p = do
  new_address ← if flag a.flags map_fixed then some a.addr else find_available_address p a.length
  let m : MemMapping = record {
    addr = new_address;
    length = a.length;
    flags = a.flags;
    fd = a.fd;
    original_length = a.length;
    allocated = junk;
  }
  if not (flag a.flags map_fixed) && new_address == 0
      then some (minus_one, p)
      else (add_mapping m p >>= λ p'. some (new_address, p'))

-- The result and the process after the call; `none` is undefined behaviour. `args` is what `argint`
-- fetches, `none` where it returns -1.
unfoldable pub sys_mmap : ℕ → Option MmapArgs → Proc → Option (ℕ × Proc)
sys_mmap junk none p = some (minus_one, p)
sys_mmap junk (some a) p = if bad_args p a then some (minus_one, p) else place junk a p
