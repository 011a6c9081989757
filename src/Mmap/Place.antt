-- ===== src/Mmap/Place.antt =====
-- Every way in which sys_mmap can end.
use osp.Prelude.{
  ℕ, ◌+◌, ◌^◌, ◌<◌, ◌≡◌, inl, inr, true, false, some, arith, ◌==◌, if◌then◌else◌, ◌>>=◌, update,
  Bool-cases, ap, ◌∙◌,
}
use osp.Mmu.{flag}
use osp.Proc.{MemMapping, Proc, max_mappings}
use osp.Mmap.{
  mmap_area_start, map_fixed, minus_one, find_available_address, MmapArgs, bad_args, add_mapping,
  place, sys_mmap,
}
use osp.Mmap.Valid.{IsValid, bad_args-false, bad_args-true}
use osp.Mmap.Find.{Found, IsFull, IsLowest, find_available_address-Found}

-- The mapping that the call records, and the process with it behind the others.
abbrev pub mapping : ℕ → MmapArgs → ℕ → MemMapping
mapping junk a r = record {
  addr = r;
  length = a.length;
  flags = a.flags;
  fd = a.fd;
  original_length = a.length;
  allocated = junk;
}

abbrev pub added : ℕ → MmapArgs → ℕ → Proc → Proc
added junk a r p = record p {
  memory_mappings = update p.memory_mappings p.num_mappings (mapping junk a r);
  num_mappings = p.num_mappings + 1;
}

pub good-length :
    (p : Proc) (a : MmapArgs)
    → a.length < 2 ^ 32
    → IsValid p a
    → (0 < a.length) × (a.length < 2 ^ 31)
good-length p a word v = let (pos, small) = v.length in (pos, omega arith)

add_mapping-some :
    (m : MemMapping) (p : Proc)
    → p.num_mappings < max_mappings
    → add_mapping m p
      ≡ some (record p {
        memory_mappings = update p.memory_mappings p.num_mappings m;
        num_mappings = p.num_mappings + 1;
      })
unfolding add_mapping
add_mapping-some m p room = ground arith

module _ (junk : ℕ) (a : MmapArgs) (p : Proc) where
  place_fixed :
      flag a.flags map_fixed ≡ true
      → place junk a p ≡ (add_mapping (mapping junk a a.addr) p >>= λ p'. some (a.addr, p'))
  unfolding place
  place_fixed fixed = rw fixed

  place_found :
      (r : ℕ)
      → flag a.flags map_fixed ≡ false
      → find_available_address p a.length ≡ some r
      → place junk a p ≡ (
          if r == 0
          then some (minus_one, p)
          else (add_mapping (mapping junk a r) p >>= λ p'. some (r, p')))
  unfolding place
  place_found r free e = rw (free, e)

-- How a call with a free slot ends: it refuses a request that is not valid; it finds no page of the area
-- from which on the request would lie in the area and be clear of the mappings; it takes the address
-- that MAP_FIXED asks for; or it takes the lowest such page.
pub data Outcome (junk : ℕ) (a : MmapArgs) (p : Proc) : ℕ → Proc → Type 0 where
  refused : ¬ IsValid p a → Outcome junk a p minus_one p
  full :
      IsValid p a
      → flag a.flags map_fixed ≡ false
      → IsFull p a.length mmap_area_start
      → Outcome junk a p minus_one p
  fixed :
      IsValid p a → flag a.flags map_fixed ≡ true → Outcome junk a p a.addr (added junk a a.addr p)
  found :
      (r : ℕ)
      → IsValid p a
      → flag a.flags map_fixed ≡ false
      → IsLowest p a.length mmap_area_start r
      → Outcome junk a p r (added junk a r p)

module _ (junk : ℕ) (a : MmapArgs) (p : Proc) where
  sys_mmap-good : bad_args p a ≡ false → sys_mmap junk (some a) p ≡ place junk a p
  unfolding sys_mmap
  sys_mmap-good ok = rw ok

  sys_mmap-bad : bad_args p a ≡ true → sys_mmap junk (some a) p ≡ some (minus_one, p)
  unfolding sys_mmap
  sys_mmap-bad bad = rw bad

  abbrev pub Returns : Type 0
  Returns =
      (r : ℕ) × (p' : Proc) × (sys_mmap junk (some a) p ≡ some (r, p')) × Outcome junk a p r p'

  mmap_fixed :
      p.num_mappings < max_mappings → bad_args p a ≡ false → flag a.flags map_fixed ≡ true → Returns
  mmap_fixed room ok fix = (
    a.addr,
    added junk a a.addr p,
    sys_mmap-good ok
        ∙ place_fixed junk a p fix
        ∙ ap (λ o. o >>= λ p'. some (a.addr, p')) (add_mapping-some (mapping junk a a.addr) p room),
    fixed (bad_args-false p a ok) fix,
  )

  mmap_found :
      a.length < 2 ^ 32
      → p.num_mappings < max_mappings
      → bad_args p a ≡ false
      → flag a.flags map_fixed ≡ false
      → Returns
  mmap_found word room ok free =
      let (pos, small) = good-length p a word (bad_args-false p a ok) in
      let (r, e, f) = find_available_address-Found p a.length pos small in by_result r e f
    where
      by_result :
          (r : ℕ)
          → find_available_address p a.length ≡ some r
          → Found p a.length mmap_area_start r
          → Returns
      by_result r e (inl low) =
          let live : (r == 0) ≡ false = ground (arith, low.above) in
          (
            r,
            added junk a r p,
            sys_mmap-good ok
                ∙ place_found junk a p r free e
                ∙ rw live (
                    ap (λ o. o >>= λ p'. some (r, p'))
                      (add_mapping-some (mapping junk a r) p room)),
            found r (bad_args-false p a ok) free low,
          )
      by_result r e (inr (zero_r, is_full)) =
          let dead : (r == 0) ≡ true = ground arith in
          (
            minus_one,
            p,
            sys_mmap-good ok ∙ place_found junk a p r free e ∙ rw dead,
            full (bad_args-false p a ok) free is_full,
          )

  pub sys_mmap-Outcome : a.length < 2 ^ 32 → p.num_mappings < max_mappings → Returns
  sys_mmap-Outcome word room = elim (Bool-cases (bad_args p a)) [
    | inl bad ↦ (minus_one, p, sys_mmap-bad bad, refused (bad_args-true p a bad))
    | inr ok ↦ elim (Bool-cases (flag a.flags map_fixed)) [
      | inl fix ↦ mmap_fixed room ok fix
      | inr free ↦ mmap_found word room ok free
    ]
  ]
