-- ===== src/Vm/Frame.antt =====
-- A page taken from the free list may be filled: that changes no address map.
use osp.Prelude.{ℕ, ◌+◌, ◌*◌, ◌≤◌, ◌<◌, ◌≡◌, ◌⊎◌, inl, inr, List, ◌∷◌, arith, sym, ◌≢◌}
use native.Mathlib.Decide.{dec_lt}
use osp.Mmu.{pgsize, pdx, ptx}
use osp.Kalloc.FreeList.{IsPage, NotIn, Chain, Chain-agree}
use osp.Vm.Lookup.{table, pte_at, pte_at-agree, IsPgdir}

module _ (kernel_end pgdir : ℕ) (mem mem' : ℕ → ℕ) (x : ℕ) (xs : List ℕ) (px : IsPage kernel_end x)
    (same : (a : ℕ) → (a < x) ⊎ (x + pgsize ≤ a) → mem' a ≡ mem a) where
  other_word : (y o : ℕ) → IsPage kernel_end y → o < pgsize → x ≢ y → mem' (y + o) ≡ mem (y + o)
  other_word y o py lt ne = same (y + o) (elim (dec_lt (y + o) x) [
    | yes l ↦ inl l
    | no g ↦ inr (omega (arith, px.aligned, py.aligned))
  ])

  pub fill-Chain : (p : ℕ) → NotIn x xs → Chain kernel_end mem p xs → Chain kernel_end mem' p xs
  fill-Chain p out c =
      Chain-agree kernel_end mem mem' p x xs
        (λ y py ne.
          let z : y + 0 ≡ y = omega arith in
          rw z at (other_word y 0 py (omega arith) (λ e. ne (sym e))))
        out c

  module _ (v : IsPgdir kernel_end mem pgdir (x ∷ xs)) where
    pub fill-dir : (d : ℕ) → d < 1024 → mem' (pgdir + 4 * d) ≡ mem (pgdir + 4 * d)
    fill-dir d lt = other_word pgdir (4 * d) v.page (omega arith) v.taken.0

    pub fill-IsPgdir : IsPgdir kernel_end mem' pgdir xs
    fill-IsPgdir = record {
      page = v.page;
      taken = v.taken.1;
      tables = λ d lt h.
          let s = fill-dir d lt in let (py, n, m) = v.tables d lt (rw s at h) in rw s (py, n, m.1);
      apart = λ d e ld le hd he n.
          let s = fill-dir d ld in
          let t = fill-dir e le in rw (s, t) (v.apart d e ld le (rw s at hd) (rw t at he) n);
    }

    pub fill-pte_at : (w : ℕ) → pte_at mem' pgdir w ≡ pte_at mem pgdir w
    fill-pte_at w = pte_at-agree kernel_end mem mem' pgdir w (fill-dir (pdx w) (omega arith)) λ h.
        let (py, _, m) = v.tables (pdx w) (omega arith) h in
        other_word (table mem pgdir (pdx w)) (4 * ptx w) py (omega arith) m.0
