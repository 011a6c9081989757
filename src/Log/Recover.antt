-- ===== src/Log/Recover.antt =====
-- Recovery from the log, at a disk that a crash has left.
use osp.Prelude.{ℕ, ◌+◌, ◌≤◌, ◌<◌, ◌≡◌, ◌≢◌, subst, ◌⊎◌, inl, inr, arith, ◌∙◌, sym, ap}
use native.Mathlib.Decide.{dec_lt}
use osp.Log.{Block, Store, write_block, install_loop}
use osp.Log.Loops.{
  write_block-ne, write_block_on, write_block_off, both, IsHome, Installs, install_loop-Installs,
}

module _ (start : ℕ) (old : ℕ → Block) where
  -- The log is empty and the disk is the old one.
  pub record Kept (d : ℕ → Block) : Type 0 where
    pub empty : d start 0 ≡ 0
    pub homes : (b : ℕ) → IsHome start b → d b ≡ old b

  module _ (G : ℕ → Block) (n : ℕ) (bl : ℕ → ℕ) where
    -- The transaction is in the log; a part of it may be installed.
    pub record Logged (d : ℕ → Block) : Type 0 where
      pub count : d start 0 ≡ n
      pub entries : (i : ℕ) → i < n → d start (i + 1) ≡ bl i
      pub copies : (i : ℕ) → i < n → d (start + i + 1) ≡ G (bl i)
      pub either : (b : ℕ) → IsHome start b → (d b ≡ old b) ⊎ (d b ≡ G b)
      pub others : (b : ℕ) → IsHome start b → ((i : ℕ) → i < n → bl i ≢ b) → d b ≡ old b

    -- The transaction is installed and the log empty.
    pub record Done (d : ℕ → Block) : Type 0 where
      pub empty : d start 0 ≡ 0
      pub installed : (i : ℕ) → i < n → d (bl i) ≡ G (bl i)
      pub others : (b : ℕ) → IsHome start b → ((i : ℕ) → i < n → bl i ≢ b) → d b ≡ old b

    module _ (few : n ≤ 30) (home : (i : ℕ) → i < n → IsHome start (bl i)) where
      -- Installing the transaction and clearing the header, from a disk where it is in the log.
      module _ (block : ℕ → ℕ) (hb : Block) (s : Store) (g : Logged s.disk)
          (same : (i : ℕ) → i < n → block i ≡ bl i) (zero_ : hb 0 ≡ 0)
          (seen : (i : ℕ) → i < n → s.view (start + i + 1) ≡ G (bl i)) where
        abbrev s3 : Store
        s3 = install_loop start block 0 n s

        abbrev s4 : Store
        s4 = write_block start hb s3

        inst : Installs start block G 0 n s s3
        inst =
            install_loop-Installs start block G n 0 s (omega arith)
              (λ i lo hi. subst (IsHome start) (sym (same i (omega arith))) (home i (omega arith)))
              (λ i lo hi. seen i (omega arith) ∙ ap G (sym (same i (omega arith))))

        others3 : (b : ℕ) → IsHome start b → ((i : ℕ) → i < n → bl i ≢ b) → s3.disk b ≡ old b
        others3 b hb_ ne =
            inst.others b (λ i lo hi e. ne i (omega arith) (sym (same i (omega arith)) ∙ e))
            ∙ g.others b hb_ ne

        pub finish-Done : n < s.left → Done s4.disk
        finish-Done more =
            let on : s4.disk start ≡ hb = write_block_on start hb s3 (omega (arith, inst.power)) in
            record {
              empty = ap (λ w. w 0) on ∙ zero_;
              installed = λ i lt.
                  write_block-ne start hb s3 (bl i) (λ e. omega (arith, home i lt, e))
                  ∙ subst (λ c. s3.disk c ≡ G c) (same i lt)
                      (inst.all (omega arith) i (omega arith) (omega arith));
              others = λ b hb_ ne.
                  write_block-ne start hb s3 b (λ e. omega (arith, hb_, e)) ∙ others3 b hb_ ne;
            }

        logged3 : Logged s3.disk
        logged3 = record {
          count = ap (λ w. w 0) (inst.log_disk start (omega arith) (omega arith)) ∙ g.count;
          entries = λ i lt.
              ap (λ w. w (i + 1)) (inst.log_disk start (omega arith) (omega arith))
              ∙ g.entries i lt;
          copies =
              λ i lt. inst.log_disk (start + i + 1) (omega arith) (omega arith) ∙ g.copies i lt;
          either = λ b hb_. both (g.either b hb_) (inst.either b);
          others = others3;
        }

        pub finish : Logged s4.disk ⊎ Done s4.disk
        finish = elim (dec_lt n s.left) [
          | yes more ↦ inr (finish-Done more)
          | no out ↦
              inl (
                subst Logged (sym (write_block_off start hb s3 (inst.power ∙ omega arith))) logged3)
        ]
