-- ===== src/Cstring.antt =====
-- xv6-public/string.c and the string instructions of x86.h, on memory as a function from addresses to
-- bytes. An `int` is its bit pattern.
pub mod Move
pub mod Fill
pub mod Copy
pub mod Compare
use osp.Prelude.{
  ℕ, zero, suc, ◌+◌, ◌-◌, ◌*◌, ◌/◌, ◌%◌, ◌^◌, Bool, not, ◌&&◌, ltb, ◌==◌, if◌then◌else◌, update,
}
use osp.Mmap.{slt}
use osp.Ulib.{minus}

-- `s + 1` of a pointer.
abbrev pub next : ℕ → ℕ
next s = (s + 1) % 2 ^ 32

-- `rep stosb`.
unfoldable pub stosb : ℕ → ℕ → ℕ → (ℕ → ℕ) → ℕ → ℕ
stosb addr value zero mem = mem
stosb addr value (suc cnt) mem = stosb (next addr) value cnt (update mem addr (value % 2 ^ 8))

-- Byte `k` of a word.
abbrev pub byte : ℕ → ℕ → ℕ
byte w k = w / 2 ^ (8 * k) % 2 ^ 8

abbrev pub store_word : (ℕ → ℕ) → ℕ → ℕ → ℕ → ℕ
store_word mem addr w =
    update
      (update (update (update mem addr (byte w 0)) ((addr + 1) % 2 ^ 32) (byte w 1))
        ((addr + 2) % 2 ^ 32) (byte w 2))
      ((addr + 3) % 2 ^ 32) (byte w 3)

-- `rep stosl`.
unfoldable pub stosl : ℕ → ℕ → ℕ → (ℕ → ℕ) → ℕ → ℕ
stosl addr value zero mem = mem
stosl addr value (suc cnt) mem = stosl ((addr + 4) % 2 ^ 32) value cnt (store_word mem addr value)

-- The four shifted copies of the byte have no bit in common.
unfoldable pub memset : ℕ → ℕ → ℕ → (ℕ → ℕ) → ℕ → ℕ
memset dst c n mem =
    let b = c % 2 ^ 8 in
    if dst % 4 == 0 && n % 4 == 0
    then stosl dst (b * 2 ^ 24 + b * 2 ^ 16 + b * 2 ^ 8 + b) (n / 4) mem
    else stosb dst c n mem

unfoldable pub memcmp : ℕ → ℕ → ℕ → (ℕ → ℕ) → ℕ
memcmp s1 s2 zero mem = 0
memcmp s1 s2 (suc n) mem =
    let rest = memcmp (next s1) (next s2) n mem in
    if not (mem s1 == mem s2) then minus (mem s1) (mem s2) else rest

-- `while(n-- > 0) *--d = *--s`.
unfoldable pub back_loop : ℕ → ℕ → ℕ → (ℕ → ℕ) → ℕ → ℕ
back_loop zero d s mem = mem
back_loop (suc n) d s mem =
    let d' = (d + 2 ^ 32 - 1) % 2 ^ 32 in
    let s' = (s + 2 ^ 32 - 1) % 2 ^ 32 in back_loop n d' s' (update mem d' (mem s'))

-- `while(n-- > 0) *d++ = *s++`.
unfoldable pub forward_loop : ℕ → ℕ → ℕ → (ℕ → ℕ) → ℕ → ℕ
forward_loop zero d s mem = mem
forward_loop (suc n) d s mem =
    forward_loop n ((d + 1) % 2 ^ 32) ((s + 1) % 2 ^ 32) (update mem d (mem s))

unfoldable pub memmove : ℕ → ℕ → ℕ → (ℕ → ℕ) → ℕ → ℕ
memmove dst src n mem =
    if ltb src dst && ltb dst ((src + n) % 2 ^ 32)
    then back_loop n ((dst + n) % 2 ^ 32) ((src + n) % 2 ^ 32) mem
    else forward_loop n dst src mem

unfoldable pub strncmp : ℕ → ℕ → ℕ → (ℕ → ℕ) → ℕ
strncmp p q zero mem = 0
strncmp p q (suc n) mem =
    let rest = strncmp (next p) (next q) n mem in
    if not (mem p == 0) && mem p == mem q then rest else minus (mem p) (mem q)

-- `while(n-- > 0) *s++ = 0`.
unfoldable pub zero_loop : ℕ → ℕ → (ℕ → ℕ) → ℕ → ℕ
zero_loop s zero mem = mem
zero_loop s (suc n) mem = zero_loop (next s) n (update mem s 0)

-- The copying loop of strncpy and the zeros behind it.
unfoldable pub strncpy_loop : ℕ → ℕ → ℕ → (ℕ → ℕ) → ℕ → ℕ
unfolding zero_loop
strncpy_loop s t zero mem = mem
strncpy_loop s t (suc n) mem =
    let copied = update mem s (mem t) in
    let rest = strncpy_loop (next s) (next t) n copied in
    if mem t == 0 then zero_loop (next s) n copied else rest

unfoldable pub strncpy : ℕ → ℕ → ℕ → (ℕ → ℕ) → ℕ → ℕ
strncpy s t n mem = if slt 0 n then strncpy_loop s t n mem else mem

-- The loop of safestrcpy, with `n` rounds left, and `*s = 0` behind it.
unfoldable pub safestrcpy_loop : ℕ → ℕ → ℕ → (ℕ → ℕ) → ℕ → ℕ
safestrcpy_loop s t zero mem = update mem s 0
safestrcpy_loop s t (suc n) mem =
    let copied = update mem s (mem t) in
    let rest = safestrcpy_loop (next s) (next t) n copied in
    if mem t == 0 then update copied (next s) 0 else rest

unfoldable pub safestrcpy : ℕ → ℕ → ℕ → (ℕ → ℕ) → ℕ → ℕ
safestrcpy s t n mem = if not (slt 0 n) then mem else safestrcpy_loop s t (n - 1) mem
