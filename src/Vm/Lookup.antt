-- ===== src/Vm/Lookup.antt =====
-- A page directory as a map from addresses to page table entries, and how the functions change it.
use osp.Prelude.{
  ℕ, ◌+◌, ◌*◌, ◌≤◌, ◌<◌, ◌≡◌, ◌≢◌, inl, inr, Bool, true, false, List, ◌∷◌, arith, if◌then◌else◌,
  update, update_self, Bool-cases, ◌∙◌, sym,
}
use native.Mathlib.Decide.{ℕ_discrete}
use osp.Mmu.{pgsize, kernbase, v2p, p2v, pdx, ptx, pte_addr, flag, set_bit, pte_p, pte_w, pte_u}
use osp.Kalloc.FreeList.{IsPage, NotIn}
use osp.Vm.{zero_page, pde_ptr}

-- The page table that the directory entry `d` points to.
abbrev pub table : (ℕ → ℕ) → ℕ → ℕ → ℕ
table mem pgdir d = p2v (pte_addr (mem (pgdir + 4 * d)))

abbrev pub has_table : (ℕ → ℕ) → ℕ → ℕ → Bool
has_table mem pgdir d = flag (mem (pgdir + 4 * d)) pte_p

-- The entry for an address: 0 where there is no page table.
abbrev pub pte_at : (ℕ → ℕ) → ℕ → ℕ → ℕ
pte_at mem pgdir va =
    if has_table mem pgdir (pdx va) then mem (table mem pgdir (pdx va) + 4 * ptx va) else 0

module _ (kernel_end : ℕ) where
  -- The directory and its page tables are different pages, and none is free.
  pub record IsPgdir (mem : ℕ → ℕ) (pgdir : ℕ) (xs : List ℕ) : Type 0 where
    pub page : IsPage kernel_end pgdir
    pub taken : NotIn pgdir xs
    pub tables :
        (d : ℕ)
        → d < 1024
        → has_table mem pgdir d ≡ true
        → IsPage kernel_end (table mem pgdir d)
          × (table mem pgdir d ≢ pgdir)
          × NotIn (table mem pgdir d) xs
    pub apart :
        (d e : ℕ)
        → d < 1024
        → e < 1024
        → has_table mem pgdir d ≡ true
        → has_table mem pgdir e ≡ true
        → d ≢ e
        → table mem pgdir d ≢ table mem pgdir e

  -- Memory that keeps the directory and its tables keeps the map.
  pub pte_at-agree :
      (mem mem' : ℕ → ℕ) (pgdir va : ℕ)
      → mem' (pgdir + 4 * pdx va) ≡ mem (pgdir + 4 * pdx va)
      → (has_table mem pgdir (pdx va) ≡ true
          → mem' (table mem pgdir (pdx va) + 4 * ptx va)
            ≡ mem (table mem pgdir (pdx va) + 4 * ptx va))
      → pte_at mem' pgdir va ≡ pte_at mem pgdir va
  pte_at-agree mem mem' pgdir va dir tab = elim (Bool-cases (has_table mem pgdir (pdx va))) [
    | inl h ↦ rw dir (rw h (tab h))
    | inr h ↦ rw dir (rw h)
  ]

  -- Memory after `x` has become the page table for `va`.
  abbrev pub with_table : (ℕ → ℕ) → ℕ → ℕ → ℕ → ℕ → ℕ
  with_table mem pgdir va x =
      update (zero_page x mem) (pde_ptr pgdir va)
        (set_bit (set_bit (set_bit (v2p x) pte_p) pte_w) pte_u)

  module _ (mem : ℕ → ℕ) (pgdir va x : ℕ) (px : IsPage kernel_end x) (pp : IsPage kernel_end pgdir)
      (high : kernbase ≤ kernel_end) (ne : x ≢ pgdir) where
    -- The page of another table is not touched.
    pub other_page :
        (y o : ℕ)
        → IsPage kernel_end y
        → o < pgsize
        → y ≢ x
        → y ≢ pgdir
        → with_table mem pgdir va x (y + o) ≡ mem (y + o)
    other_page y o py lt n1 n2 = ground (arith, py.aligned, px.aligned, pp.aligned)

    pub other_entry :
        (d : ℕ)
        → d < 1024
        → d ≢ pdx va
        → with_table mem pgdir va x (pgdir + 4 * d) ≡ mem (pgdir + 4 * d)
    other_entry d lt n = ground (arith, px.aligned, pp.aligned)

    pub new_entry :
        with_table mem pgdir va x (pgdir + 4 * pdx va)
        ≡ set_bit (set_bit (set_bit (v2p x) pte_p) pte_w) pte_u
    new_entry = update_self (zero_page x mem) (pde_ptr pgdir va) _

    pub new_has : has_table (with_table mem pgdir va x) pgdir (pdx va) ≡ true
    new_has = rw new_entry (ground (arith, px.aligned))

    pub new_table : table (with_table mem pgdir va x) pgdir (pdx va) ≡ x
    new_table = rw new_entry (ground (arith, px.aligned, px.above, px.word))

    pub new_zero : (o : ℕ) → o < pgsize → with_table mem pgdir va x (x + o) ≡ 0
    new_zero o lt = ground (arith, px.aligned, pp.aligned)

    pub with_table-pte_at :
        (v : ℕ)
        → has_table mem pgdir (pdx va) ≡ false
        → ((d : ℕ)
            → d < 1024
            → has_table mem pgdir d ≡ true
            → IsPage kernel_end (table mem pgdir d)
              × (table mem pgdir d ≢ x)
              × (table mem pgdir d ≢ pgdir))
        → pte_at (with_table mem pgdir va x) pgdir v ≡ pte_at mem pgdir v
    with_table-pte_at v missing old = elim (ℕ_discrete (pdx v) (pdx va)) [
      | yes e ↦ rw e (rw (new_has, missing, new_table) (new_zero (4 * ptx v) (omega arith)))
      | no n ↦
          pte_at-agree mem (with_table mem pgdir va x) pgdir v (other_entry (pdx v) (omega arith) n)
            λ h.
              let (py, n1, n2) = old (pdx v) (omega arith) h in
              other_page (table mem pgdir (pdx v)) (4 * ptx v) py (omega arith) n1 n2
    ]

    pub with_table-IsPgdir :
        (xs : List ℕ)
        → has_table mem pgdir (pdx va) ≡ false
        → NotIn x xs
        → IsPgdir mem pgdir (x ∷ xs)
        → IsPgdir (with_table mem pgdir va x) pgdir xs
    with_table-IsPgdir xs missing out v = record {
      page = v.page;
      taken = v.taken.1;
      tables = λ d lt h. elim (ℕ_discrete d (pdx va)) [
        | yes e ↦ rw (e, new_table) (px, ne, out)
        | no n ↦
            let same = other_entry d lt n in
            let (py, n1, n2) = v.tables d lt (rw same at h) in rw same (py, n1, n2.1)
      ];
      apart = λ d e ld le hd he n. elim (ℕ_discrete d (pdx va)) [
        | yes q ↦ elim (ℕ_discrete e (pdx va)) [
          | yes q' ↦ absurd (n (q ∙ sym q'))
          | no m ↦
              let same = other_entry e le m in
              let (_, _, n2) = v.tables e le (rw same at he) in
              rw (q, new_table, same) (λ t. n2.0 t)
        ]
        | no m ↦
            let same = other_entry d ld m in
            let (_, _, n2) = v.tables d ld (rw same at hd) in
            elim (ℕ_discrete e (pdx va)) [
              | yes q' ↦ rw (q', new_table, same) (λ t. n2.0 (sym t))
              | no m' ↦
                  let same' = other_entry e le m' in
                  rw (same, same') (v.apart d e ld le (rw same at hd) (rw same' at he) n)
            ]
      ];
    }
