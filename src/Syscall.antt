-- ===== src/Syscall.antt =====
-- xv6-public/syscall.c and sysfile.c: the arguments of system calls. The memory of the process is its
-- bytes as a function of the address, `sz` its size, `esp` the saved stack pointer; `none` is the
-- result -1. A result that is stored through a pointer is returned.
pub mod Args
use osp.Prelude.{
  ℕ, zero, suc, ◌+◌, ◌-◌, ◌*◌, ◌%◌, ◌^◌, Bool, true, false, not, ◌&&◌, ◌||◌, Option, none, some,
  ltb, leb, ◌==◌, if◌then◌else◌, update, ◌>>=◌,
}
use osp.Mmap.{slt}
use osp.Proc.{nofile}

-- `*(int*)(addr)`.
abbrev pub int_at : (ℕ → ℕ) → ℕ → ℕ
int_at mem a = mem a + 2 ^ 8 * mem (a + 1) + 2 ^ 16 * mem (a + 2) + 2 ^ 24 * mem (a + 3)

unfoldable pub fetchint : ℕ → (ℕ → ℕ) → ℕ → Option ℕ
fetchint sz mem addr =
    if leb sz addr || ltb sz ((addr + 4) % 2 ^ 32) then none else some (int_at mem addr)

-- The loop of fetchstr, with `m` bytes from `s` to the end; `len` is `s - *pp`.
unfoldable pub str_loop : ℕ → (ℕ → ℕ) → ℕ → ℕ → Option ℕ
str_loop zero mem s len = none
str_loop (suc m) mem s len =
    let later = str_loop m mem (s + 1) (len + 1) in if mem s == 0 then some len else later

-- The address and the length.
unfoldable pub fetchstr : ℕ → (ℕ → ℕ) → ℕ → Option (ℕ × ℕ)
fetchstr sz mem addr =
    if leb sz addr then none else (str_loop (sz - addr) mem addr 0 >>= λ len. some (addr, len))

unfoldable pub argint : ℕ → (ℕ → ℕ) → ℕ → ℕ → Option ℕ
argint sz mem esp n = fetchint sz mem ((esp + 4 + 4 * n) % 2 ^ 32)

unfoldable pub argptr : ℕ → (ℕ → ℕ) → ℕ → ℕ → ℕ → Option ℕ
argptr sz mem esp n size = argint sz mem esp n >>= λ i.
    if slt size 0 || leb sz i || ltb sz ((i + size) % 2 ^ 32) then none else some i

unfoldable pub argstr : ℕ → (ℕ → ℕ) → ℕ → ℕ → Option (ℕ × ℕ)
argstr sz mem esp n = argint sz mem esp n >>= λ addr. fetchstr sz mem addr

-- The descriptor and the file; `ofile` is the process's table, in which 0 is no file.
unfoldable pub argfd : ℕ → (ℕ → ℕ) → ℕ → (ℕ → ℕ) → ℕ → Option (ℕ × ℕ)
argfd sz mem esp ofile n = argint sz mem esp n >>= λ fd.
    if slt fd 0 || not (slt fd nofile) || ofile fd == 0 then none else some (fd, ofile fd)

-- The loop of fdalloc: `m` descriptors from `fd` on.
unfoldable pub free_fd : ℕ → ℕ → (ℕ → ℕ) → Option ℕ
free_fd zero fd ofile = none
free_fd (suc m) fd ofile =
    let later = free_fd m (fd + 1) ofile in if ofile fd == 0 then some fd else later

unfoldable pub fdalloc : ℕ → (ℕ → ℕ) → Option (ℕ × (ℕ → ℕ))
fdalloc f ofile = free_fd nofile 0 ofile >>= λ fd. some (fd, update ofile fd f)
