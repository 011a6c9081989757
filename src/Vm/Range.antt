-- ===== src/Vm/Range.antt =====
-- A range of pages over an address map.
use osp.Prelude.{
  ℕ, suc, ◌+◌, ◌-◌, ◌*◌, ◌/◌, ◌%◌, ◌≤◌, ◌<◌, ◌≡◌, ◌⊎◌, inl, inr, true, false, ◌&&◌, arith, leb,
  ◌==◌, if◌then◌else◌, ◌∙◌, sym, ap,
}
use native.Mathlib.Decide.{ℕ_discrete, dec_lt}
use osp.Mmu.{pgsize}
use osp.Vm.{entry}
use osp.Vm.Lookup.{pte_at}

module _ (pgdir : ℕ) where
  -- The entry that `n + 1` pages from `a`, mapped to the frames from `pa` on, give an address.
  abbrev pub mapped : ℕ → ℕ → ℕ → ℕ → (ℕ → ℕ) → ℕ → ℕ
  mapped n a pa perm mem w =
      if leb (a / pgsize) (w / pgsize) && leb (w / pgsize) (a / pgsize + n)
      then entry (pa + (w / pgsize - a / pgsize) * pgsize) perm
      else pte_at mem pgdir w

  pub mapped-in :
      (n a pa perm : ℕ) (mem : ℕ → ℕ) (w : ℕ)
      → a / pgsize ≤ w / pgsize
      → w / pgsize ≤ a / pgsize + n
      → mapped n a pa perm mem w ≡ entry (pa + (w / pgsize - a / pgsize) * pgsize) perm
  mapped-in n a pa perm mem w lo hi =
      let t : (leb (a / pgsize) (w / pgsize) && leb (w / pgsize) (a / pgsize + n)) ≡ true =
        ground arith in
      rw t

  pub mapped-out :
      (n a pa perm : ℕ) (mem : ℕ → ℕ) (w : ℕ)
      → (w / pgsize < a / pgsize) ⊎ (a / pgsize + n < w / pgsize)
      → mapped n a pa perm mem w ≡ pte_at mem pgdir w
  mapped-out n a pa perm mem w out =
      let t : (leb (a / pgsize) (w / pgsize) && leb (w / pgsize) (a / pgsize + n)) ≡ false =
        ground arith in
      rw t

  -- The first page, then the others.
  pub mapped-suc :
      (m a pa perm : ℕ) (mem mem2 : ℕ → ℕ) (w : ℕ)
      → a % pgsize ≡ 0
      → pte_at mem2 pgdir w
        ≡ (if w / pgsize == a / pgsize then entry pa perm else pte_at mem pgdir w)
      → mapped m (a + pgsize) (pa + pgsize) perm mem2 w ≡ mapped (suc m) a pa perm mem w
  mapped-suc m a pa perm mem mem2 w al e = elim (dec_lt (w / pgsize) (a / pgsize)) [
    | yes below ↦
        let ne : (w / pgsize == a / pgsize) ≡ false = ground arith in
        mapped-out m (a + pgsize) (pa + pgsize) perm mem2 w (inl (omega arith))
        ∙ (rw ne at e)
        ∙ sym (mapped-out (suc m) a pa perm mem w (inl below))
    | no above ↦ elim (dec_lt (a / pgsize + suc m) (w / pgsize)) [
      | yes past ↦
          let ne : (w / pgsize == a / pgsize) ≡ false = ground arith in
          mapped-out m (a + pgsize) (pa + pgsize) perm mem2 w (inr (omega arith))
          ∙ (rw ne at e)
          ∙ sym (mapped-out (suc m) a pa perm mem w (inr past))
      | no within ↦ elim (ℕ_discrete (w / pgsize) (a / pgsize)) [
        | yes q ↦
            let eq : (w / pgsize == a / pgsize) ≡ true = ground arith in
            mapped-out m (a + pgsize) (pa + pgsize) perm mem2 w (inl (omega arith))
            ∙ (rw eq at e)
            ∙ ap (λ x. entry x perm) (omega arith)
            ∙ sym (mapped-in (suc m) a pa perm mem w (omega arith) (omega arith))
        | no n ↦
            mapped-in m (a + pgsize) (pa + pgsize) perm mem2 w (omega arith) (omega arith)
            ∙ ap (λ x. entry x perm) (omega arith)
            ∙ sym (mapped-in (suc m) a pa perm mem w (omega arith) (omega arith))
      ]
    ]
  ]

  pub mapped-zero :
      (a pa perm : ℕ) (mem : ℕ → ℕ) (w : ℕ)
      → (if w / pgsize == a / pgsize then entry pa perm else pte_at mem pgdir w)
        ≡ mapped 0 a pa perm mem w
  mapped-zero a pa perm mem w = elim (ℕ_discrete (w / pgsize) (a / pgsize)) [
    | yes q ↦
        let eq : (w / pgsize == a / pgsize) ≡ true = ground arith in
        rw eq (
          ap (λ x. entry x perm) (omega arith)
          ∙ sym (mapped-in 0 a pa perm mem w (omega arith) (omega arith)))
    | no n ↦
        let ne : (w / pgsize == a / pgsize) ≡ false = ground arith in
        rw ne (sym (mapped-out 0 a pa perm mem w (omega arith)))
  ]
