-- ===== src/Syscall/Args.antt =====
-- What a system call gets as an argument lies in the memory of the process.
use osp.Prelude.{
  ℕ, zero, suc, ◌+◌, ◌-◌, ◌<◌, ◌≡◌, ◌≢◌, refl, inl, inr, Option, none, some, arith, leb, ◌==◌,
  Bool-cases, ◌>>=◌, ◌∙◌, sym, ap, subst,
}
use native.Mathlib.Decide.{ℕ_discrete}
use osp.Syscall.{str_loop, fetchstr}

-- The string at `p` ends with a NUL after `len` characters, inside the memory.
abbrev pub IsString : ℕ → (ℕ → ℕ) → ℕ → ℕ → Type 0
IsString sz mem p len = (p + len < sz) × (mem (p + len) ≡ 0) × ((k : ℕ) → k < len → mem (p + k) ≢ 0)

-- The answer of fetchstr.
abbrev pub Fetches : ℕ → (ℕ → ℕ) → ℕ → Option (ℕ × ℕ) → Type 0
Fetches sz mem addr none = (k : ℕ) → addr + k < sz → mem (addr + k) ≢ 0
Fetches sz mem addr (some (p, len)) = (p ≡ addr) × IsString sz mem p len

abbrev Scans : ℕ → (ℕ → ℕ) → ℕ → Option ℕ → Type 0
Scans sz mem addr none = (k : ℕ) → addr + k < sz → mem (addr + k) ≢ 0
Scans sz mem addr (some len) = IsString sz mem addr len

str_loop-Scans :
    (m : ℕ) (sz : ℕ) (mem : ℕ → ℕ) (addr len : ℕ)
    → addr + len + m ≡ sz
    → ((k : ℕ) → k < len → mem (addr + k) ≢ 0)
    → Scans sz mem addr (str_loop m mem (addr + len) len)
unfolding str_loop
str_loop-Scans zero sz mem addr len e f = λ k l. f k (omega arith)
str_loop-Scans (suc m) sz mem addr len e f = elim (Bool-cases (mem (addr + len) == 0)) [
  | inl y ↦ rw y (omega arith, ground arith, f)
  | inr n ↦
      let here : mem (addr + len) ≢ 0 = ground arith in
      rw n (
        subst (λ s. Scans sz mem addr (str_loop m mem s (len + 1))) (omega arith)
          (str_loop-Scans m sz mem addr (len + 1) (omega arith) (λ k l. elim (ℕ_discrete k len) [
            | yes q ↦ λ z. here (ap (λ i. mem (addr + i)) (sym q) ∙ z)
            | no ne ↦ f k (omega arith)
          ])))
]

with_address-Fetches :
    (sz : ℕ) (mem : ℕ → ℕ) (addr : ℕ) (r : Option ℕ)
    → Scans sz mem addr r
    → Fetches sz mem addr (r >>= λ len. some (addr, len))
with_address-Fetches sz mem addr none h = h
with_address-Fetches sz mem addr (some len) h = (refl, h)

-- fetchstr returns the address and the length of the string that starts there, if it ends inside the
-- memory of the process, and fails exactly if there is no NUL from the address to the end.
pub fetchstr-Fetches :
    (sz : ℕ) (mem : ℕ → ℕ) (addr : ℕ) → Fetches sz mem addr (fetchstr sz mem addr)
unfolding fetchstr
fetchstr-Fetches sz mem addr = elim (Bool-cases (leb sz addr)) [
  | inl y ↦ rw y (λ k l. absurd (ground arith))
  | inr n ↦
      let room : addr + 0 + (sz - addr) ≡ sz = ground arith in
      rw n (
        with_address-Fetches sz mem addr (str_loop (sz - addr) mem addr 0) (
          subst (λ s. Scans sz mem addr (str_loop (sz - addr) mem s 0)) (omega arith)
            (str_loop-Scans (sz - addr) sz mem addr 0 room (λ k l. absurd (omega arith)))))
]
