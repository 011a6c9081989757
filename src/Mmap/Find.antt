-- ===== src/Mmap/Find.antt =====
-- What find_available_address finds: the lowest page of the area where the request fits.
use osp.Prelude.{
  ℕ, zero, suc, ◌+◌, ◌*◌, ◌%◌, ◌^◌, ◌≤◌, ◌<◌, ◌≡◌, refl, ◌⊎◌, inl, inr, true, false, some, arith,
  leb, ◌==◌, Bool-cases, subst, true≢false,
}
use osp.Mmu.{pgsize}
use native.Mathlib.Decide.{ℕ_discrete}
use osp.Proc.{MemMapping, Proc}
use osp.Mmap.{
  mmap_area_start, mmap_area_end, clashes, overlap, find_loop, find_fuel, find_available_address,
}

-- No mapping of `p` has a byte in `[addr, addr + length)`, as the code counts them.
abbrev pub IsClear : Proc → ℕ → ℕ → Type 0
IsClear p addr length =
    (i : ℕ) → i < p.num_mappings → clashes addr length (p.memory_mappings i) ≡ false

-- Some mapping has.
abbrev pub IsTaken : Proc → ℕ → ℕ → Type 0
IsTaken p addr length =
    (i : ℕ) × (i < p.num_mappings) × (clashes addr length (p.memory_mappings i) ≡ true)

overlap-false :
    (maps : ℕ → MemMapping) (addr length i n : ℕ)
    → overlap maps addr length i n ≡ false
    → (j : ℕ) → i ≤ j
    → j < i + n
    → clashes addr length (maps j) ≡ false
unfolding overlap
overlap-false maps addr length i zero h j lo hi = absurd (omega arith)
overlap-false maps addr length i (suc n) h j lo hi =
    elim (Bool-cases (clashes addr length (maps i))) [
      | inl hit ↦ absurd (true≢false (rw hit at h))
      | inr miss ↦ elim (Bool-cases (i == j)) [
        | inl e ↦ subst (λ k. clashes addr length (maps k) ≡ false) (ground arith) miss
        | inr ne ↦
            overlap-false maps addr length (i + 1) n (rw miss at h) j (ground arith) (omega arith)
      ]
    ]

overlap-true :
    (maps : ℕ → MemMapping) (addr length i n : ℕ)
    → overlap maps addr length i n ≡ true
    → (j : ℕ) × (j < i + n) × (clashes addr length (maps j) ≡ true)
unfolding overlap
overlap-true maps addr length i zero h = cc
overlap-true maps addr length i (suc n) h = elim (Bool-cases (clashes addr length (maps i))) [
  | inl hit ↦ (i, omega arith, hit)
  | inr miss ↦
      let (j, lt, hit) = overlap-true maps addr length (i + 1) n (rw miss at h) in
      (j, omega arith, hit)
]

-- `r` is the lowest page of the area from `lo` on where the request fits.
pub record IsLowest (p : Proc) (length lo r : ℕ) : Type 0 where
  pub aligned : r % pgsize ≡ 0
  pub above : lo ≤ r
  pub fits : r + length ≤ mmap_area_end
  pub clear : IsClear p r length
  pub lowest : (a : ℕ) → a % pgsize ≡ 0 → lo ≤ a → a < r → IsTaken p a length

-- No page of the area from `lo` on will do.
abbrev pub IsFull : Proc → ℕ → ℕ → Type 0
IsFull p length lo =
    (a : ℕ) → a % pgsize ≡ 0 → lo ≤ a → a + length ≤ mmap_area_end → IsTaken p a length

abbrev pub Found : Proc → ℕ → ℕ → ℕ → Type 0
Found p length lo r = IsLowest p length lo r ⊎ ((r ≡ 0) × IsFull p length lo)

module _ (p : Proc) (length : ℕ) (pos : 0 < length) (small : length < 2 ^ 31) where
  -- A taken page in front does not change the answer.
  Found-skip :
      (lo r : ℕ)
      → lo % pgsize ≡ 0
      → IsTaken p lo length
      → Found p length (lo + pgsize) r
      → Found p length lo r
  Found-skip lo r al taken (inl f) = inl (record {
    aligned = f.aligned;
    above = omega (arith, f.above);
    fits = f.fits;
    clear = f.clear;
    lowest = λ a ha la ra. elim (ℕ_discrete a lo) [
      | yes e ↦ rw e taken
      | no ne ↦ f.lowest a ha (omega arith) ra
    ];
  })
  Found-skip lo r al taken (inr f) = inr (
    f.0,
    λ a ha la ra. elim (ℕ_discrete a lo) [ yes e ↦ rw e taken | no ne ↦ f.1 a ha (omega arith) ra ],
  )

  find_loop-Found :
      (fuel addr : ℕ)
      → addr % pgsize ≡ 0
      → mmap_area_start ≤ addr
      → addr ≤ mmap_area_end
      → mmap_area_end + pgsize < addr + fuel * pgsize
      → (r : ℕ) × (find_loop fuel p length addr ≡ some r) × Found p length addr r
  unfolding find_loop
  find_loop-Found zero addr al lo hi enough = absurd (omega arith)
  find_loop-Found (suc fuel) addr al lo hi enough =
      elim (Bool-cases (leb ((addr + length) % 2 ^ 32) mmap_area_end)) [
        | inr past ↦ (0, rw past, inr (refl, λ a ha la ra. absurd (ground arith)))
        | inl fits ↦ elim (Bool-cases (overlap p.memory_mappings addr length 0 p.num_mappings)) [
          | inr free ↦ (
            addr,
            rw (fits, free),
            inl (record {
              aligned = al;
              above = omega arith;
              fits = ground arith;
              clear = λ i lt.
                  overlap-false p.memory_mappings addr length 0 p.num_mappings free i (omega arith)
                    (omega arith);
              lowest = λ a ha la ra. absurd (omega arith);
            }),
          )
          | inl hit ↦
              let (j, lt, t) = overlap-true p.memory_mappings addr length 0 p.num_mappings hit in
              let (r, e, f) =
                find_loop-Found fuel (addr + pgsize) (omega arith) (omega arith) (ground arith)
                  (omega arith) in
              let wrap : (addr + pgsize) % 2 ^ 32 ≡ addr + pgsize = omega arith in
              (r, rw (fits, hit, wrap) e, Found-skip addr r al (j, omega arith, t) f)
        ]
      ]

  -- find_available_address returns, for every positive `int` length. Its result is either the lowest
  -- page of the area at which no mapping of the process clashes with the request, which then ends
  -- inside the area; or 0, and every page at which the request would end inside the area clashes.
  pub find_available_address-Found :
      (r : ℕ) × (find_available_address p length ≡ some r) × Found p length mmap_area_start r
  unfolding find_available_address
  find_available_address-Found =
      find_loop-Found find_fuel mmap_area_start (omega arith) (omega arith) (omega arith)
        (omega arith)
