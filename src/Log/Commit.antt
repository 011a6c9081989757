-- ===== src/Log/Commit.antt =====
-- commit and the crashes after it: the transaction is on the disk as a whole or not at all.
use osp.Prelude.{
  ℕ, zero, suc, ◌+◌, ◌≤◌, ◌<◌, ◌≡◌, ◌≢◌, refl, subst, ◌⊎◌, inl, inr, true, List, [], ◌∷◌, arith,
  ◌&&◌, ltb, leb, update, update_self, update-ne, ◌∙◌, sym, ap,
}
use native.Mathlib.Decide.{dec_lt}
use osp.Mmap.{slt}
use osp.Log.{
  Block, Store, Log, rounds, write_block, install_loop, install_trans, write_blocks, write_head,
  write_log_loop, write_log, commit,
}
use osp.Log.Loops.{
  write_block-ne, write_block_on, write_block_off, write_blocks-at, IsHome, Writes,
  write_log_loop-Writes,
}
use osp.Log.Recover.{Kept, Logged, Done, finish}
use osp.Log.Reboot.{reboot, rounds_small, reboot-Kept, reboot-Done, reboot-Logged, reboot_ends}

-- Without power installing changes nothing.
install_off :
    (start : ℕ) (block : ℕ → ℕ) (m t : ℕ) (s : Store)
    → s.left ≡ 0
    → ((install_loop start block t m s).disk ≡ s.disk) × ((install_loop start block t m s).left ≡ 0)
unfolding install_loop
install_off start block zero t s e = (refl, e)
install_off start block (suc m) t s e =
    let v = s.view (start + t + 1) in
    let (d, z) = install_off start block m (t + 1) (write_block (block t) v s) (omega arith) in
    (d ∙ write_block_off (block t) v s e, z)

-- A transaction that fits, over an empty log.
pub record IsTransaction (l : Log) (s : Store) : Type 0 where
  pub some_ : 0 < l.lh.n
  pub few : l.lh.n ≤ 30
  pub home : (i : ℕ) → i < l.lh.n → IsHome l.start (l.lh.block i)
  pub empty : s.disk l.start 0 ≡ 0

module _ (l : Log) (s : Store) (v : IsTransaction l s) where
  abbrev n : ℕ
  n = l.lh.n

  abbrev s1 : Store
  s1 = write_log_loop l.start l.lh.block 0 n s

  abbrev hb2 : Block
  hb2 = write_blocks l.lh.block 0 n (update (s1.view l.start) 0 n)

  abbrev s2 : Store
  s2 = write_block l.start hb2 s1

  abbrev s3 : Store
  s3 = install_loop l.start l.lh.block 0 n s2

  abbrev hb4 : Block
  hb4 = update (s3.view l.start) 0 0

  commit_eq : (commit l s).1 ≡ write_block l.start hb4 s3
  unfolding commit write_log write_head install_trans write_blocks
  commit_eq =
      let go : slt 0 n ≡ true = ground (arith, v.some_, v.few) in
      let r : rounds n ≡ n = rounds_small n v.few in rw (go, r) refl

  logs : Writes l.start l.lh.block 0 n s s1
  logs =
      write_log_loop-Writes l.start l.lh.block n 0 s (omega (arith, v.few))
        (λ i lo hi. v.home i (omega arith))

  home_kept : (b : ℕ) → IsHome l.start b → (s1.disk b ≡ s.disk b) × (s1.view b ≡ s.view b)
  home_kept b hb = logs.others b (λ i lo hi e. omega (arith, hb, v.few, e))

  start_kept : s1.disk l.start ≡ s.disk l.start
  start_kept = (logs.others l.start (λ i lo hi e. omega (arith, e))).0

  -- The power fails before the header is written.
  early : s.left ≤ n → Kept l.start s.disk (commit l s).1.disk
  early le =
      let z1 : s1.left ≡ 0 = omega (arith, logs.power) in
      let e2 = write_block_off l.start hb2 s1 z1 in
      let (e3, z3) = install_off l.start l.lh.block n 0 s2 (omega (arith, z1)) in
      let same : (commit l s).1.disk ≡ s1.disk =
        ap (λ x. x.disk) commit_eq ∙ write_block_off l.start hb4 s3 z3 ∙ e3 ∙ e2 in
      record {
        empty = ap (λ x. x l.start 0) same ∙ ap (λ w. w 0) start_kept ∙ v.empty;
        homes = λ b hb. ap (λ x. x b) same ∙ (home_kept b hb).0;
      }

  module _ (late : n < s.left) where
    on : s2.disk l.start ≡ hb2
    on = write_block_on l.start hb2 s1 (omega (arith, logs.power))

    logged2 : Logged l.start s.disk s.view n l.lh.block s2.disk
    logged2 = record {
      count =
          ap (λ w. w 0) on
          ∙ write_blocks-at l.lh.block n 0 (update (s1.view l.start) 0 n) 0
          ∙ update_self (s1.view l.start) 0 n;
      entries = λ i lt.
          let t : (ltb 0 (i + 1) && leb (i + 1) (0 + n)) ≡ true = ground arith in
          ap (λ w. w (i + 1)) on
          ∙ write_blocks-at l.lh.block n 0 (update (s1.view l.start) 0 n) (i + 1)
          ∙ rw t (ap l.lh.block (omega arith));
      copies = λ i lt.
          write_block-ne l.start hb2 s1 (l.start + i + 1) (omega arith)
          ∙ logs.on_disk (omega arith) i (omega arith) (omega arith);
      either = λ b hb.
          inl (write_block-ne l.start hb2 s1 b (λ e. omega (arith, hb, e)) ∙ (home_kept b hb).0);
      others = λ b hb ne.
          write_block-ne l.start hb2 s1 b (λ e. omega (arith, hb, e)) ∙ (home_kept b hb).0;
    }

    seen2 : (i : ℕ) → i < n → s2.view (l.start + i + 1) ≡ s.view (l.lh.block i)
    seen2 i lt =
        update-ne s1.view l.start hb2 (l.start + i + 1) (omega arith)
        ∙ logs.seen i (omega arith) (omega arith)

    committed :
        Logged l.start s.disk s.view n l.lh.block (commit l s).1.disk
        ⊎ Done l.start s.disk s.view n l.lh.block (commit l s).1.disk
    committed =
        subst
          (λ x.
            Logged l.start s.disk s.view n l.lh.block x.disk
            ⊎ Done l.start s.disk s.view n l.lh.block x.disk)
          (sym commit_eq)
          (finish l.start s.disk s.view n l.lh.block v.few v.home l.lh.block hb4 s2 logged2
            (λ i lt. refl) refl seen2)

-- Recoveries that the power interrupts, each after the writes that the list says.
abbrev pub reboots : Log → List ℕ → (ℕ → Block) → ℕ → Block
reboots r [] d = d
reboots r (k ∷ ks) d = reboots r ks (reboot r k d)

-- The log lies where it lay.
module _ (l r : Log) (s : Store) (v : IsTransaction l s) (e : r.start ≡ l.start) where
  IsHome-r : (i : ℕ) → i < l.lh.n → IsHome r.start (l.lh.block i)
  IsHome-r i lt = rw e (v.home i lt)

  abbrev Old : (ℕ → Block) → Type 0
  Old d = Kept r.start s.disk d

  abbrev New : (ℕ → Block) → Type 0
  New d =
      Logged r.start s.disk s.view l.lh.n l.lh.block d
      ⊎ Done r.start s.disk s.view l.lh.n l.lh.block d

  reboot-New : (k : ℕ) (d : ℕ → Block) → New d → New (reboot r k d)
  reboot-New k d (inl g) = reboot-Logged r k d s.disk s.view l.lh.n l.lh.block v.few IsHome-r g
  reboot-New k d (inr h) = inr (reboot-Done r k d s.disk s.view l.lh.n l.lh.block v.few IsHome-r h)

  reboots-Old : (ks : List ℕ) (d : ℕ → Block) → Old d → Old (reboots r ks d)
  reboots-Old [] d h = h
  reboots-Old (k ∷ ks) d h = reboots-Old ks (reboot r k d) (reboot-Kept r k d s.disk h)

  reboots-New : (ks : List ℕ) (d : ℕ → Block) → New d → New (reboots r ks d)
  reboots-New [] d h = h
  reboots-New (k ∷ ks) d h = reboots-New ks (reboot r k d) (reboot-New k d h)

  -- A recovery that the power lasts for.
  reboot_all :
      (m : ℕ) (d : ℕ → Block)
      → 30 < m
      → New d
      → Done r.start s.disk s.view l.lh.n l.lh.block (reboot r m d)
  reboot_all m d more (inl g) =
      reboot_ends r m d s.disk s.view l.lh.n l.lh.block v.few IsHome-r g (omega (arith, v.few))
  reboot_all m d more (inr h) = reboot-Done r m d s.disk s.view l.lh.n l.lh.block v.few IsHome-r h

  -- The blocks outside of the log are as before the transaction.
  abbrev pub IsOld : (ℕ → Block) → Type 0
  IsOld d = (b : ℕ) → IsHome l.start b → d b ≡ s.disk b

  -- Those of the transaction are what the cache holds, the others as before.
  abbrev pub IsNew : (ℕ → Block) → Type 0
  IsNew d =
      ((i : ℕ) → i < l.lh.n → d (l.lh.block i) ≡ s.view (l.lh.block i))
      × ((b : ℕ) → IsHome l.start b → ((i : ℕ) → i < l.lh.n → l.lh.block i ≢ b) → d b ≡ s.disk b)

  -- The power fails at any write of commit, or not at all; then in any number of recoveries, at any
  -- write of each; then one recovery runs to its end. The disk outside of the log is what it was, or
  -- has the whole transaction.
  pub commit_atomic :
      (ks : List ℕ) (m : ℕ)
      → 30 < m
      → IsOld (reboot r m (reboots r ks (commit l s).1.disk))
        ⊎ IsNew (reboot r m (reboots r ks (commit l s).1.disk))
  commit_atomic ks m more = elim (dec_lt l.lh.n s.left) [
    | yes late ↦
        let h =
          reboot_all m (reboots r ks (commit l s).1.disk) more
            (reboots-New ks (commit l s).1.disk (rw e (committed l s v late))) in
        inr (h.installed, λ b hb ne. h.others b (rw e hb) ne)
    | no soon ↦
        let h =
          reboot-Kept r m (reboots r ks (commit l s).1.disk) s.disk
            (reboots-Old ks (commit l s).1.disk (rw e (early l s v (omega arith)))) in
        inl (λ b hb. h.homes b (rw e hb))
  ]

  -- Once the header is on the disk, the transaction survives every crash.
  pub commit_durable :
      (ks : List ℕ) (m : ℕ)
      → 30 < m
      → l.lh.n < s.left
      → IsNew (reboot r m (reboots r ks (commit l s).1.disk))
  commit_durable ks m more late =
      let h =
        reboot_all m (reboots r ks (commit l s).1.disk) more
          (reboots-New ks (commit l s).1.disk (rw e (committed l s v late))) in
      (h.installed, λ b hb ne. h.others b (rw e hb) ne)
