-- ===== src/Log/Reboot.antt =====
-- A reboot: memory is lost, and recovery runs until it ends or the power fails again.
use osp.Prelude.{
  ℕ, ◌+◌, ◌≤◌, ◌<◌, ◌≡◌, ◌≢◌, refl, subst, ◌⊎◌, true, arith, ◌&&◌, ltb, leb, update, ◌∙◌, sym, ap,
}
use native.Mathlib.Decide.{ℕ_discrete}
use osp.Log.{
  Block, Store, Log, rounds, write_block, install_loop, install_trans, read_head, write_blocks,
  write_head, recover_from_log,
}
use osp.Log.Loops.{write_block-ne, write_block_on, write_block_off, read_blocks-at, IsHome}
use osp.Log.Recover.{Kept, Logged, Done, finish, finish-Done}

-- The memory after power is back, with `k` writes until it fails.
abbrev pub boot : ℕ → (ℕ → Block) → Store
boot k d = record { disk = d; view = d; left = k }

abbrev pub reboot : Log → ℕ → (ℕ → Block) → ℕ → Block
reboot l k d = (recover_from_log l (boot k d)).1.disk

pub rounds_small : (n : ℕ) → n ≤ 30 → rounds n ≡ n
rounds_small n le = ground arith

module _ (l : Log) (k : ℕ) (d : ℕ → Block) where
  abbrev block : ℕ → ℕ
  block = (read_head l (boot k d)).lh.block

  abbrev install : ℕ → Store
  install n = install_loop l.start block 0 n (boot k d)

  abbrev header : ℕ → Block
  header n = update ((install n).view l.start) 0 0

  reboot_eq :
      (n : ℕ)
      → rounds (d l.start 0) ≡ n
      → reboot l k d ≡ (write_block l.start (header n) (install n)).disk
  unfolding recover_from_log install_trans write_head write_blocks read_head
  reboot_eq n e = ap (λ m. (write_block l.start (header m) (install m)).disk) e

  block-at : (n i : ℕ) → n ≤ 30 → d l.start 0 ≡ n → i < n → block i ≡ d l.start (i + 1)
  unfolding read_head
  block-at n i few e lt =
      let r : rounds (d l.start 0) ≡ n = rw e (rounds_small n few) in
      let t : (leb 0 i && ltb i (0 + rounds (d l.start 0))) ≡ true = rw r (ground arith) in
      read_blocks-at (d l.start) (rounds (d l.start 0)) 0 l.lh.block i ∙ rw t refl

  install_zero : install 0 ≡ boot k d
  unfolding install_loop
  install_zero = refl

  -- With an empty log nothing is installed.
  reboot_empty :
      d l.start 0 ≡ 0
      → (reboot l k d l.start 0 ≡ 0) × ((b : ℕ) → l.start ≢ b → reboot l k d b ≡ d b)
  reboot_empty e =
      let r = reboot_eq 0 (rw e refl) in
      (
        ap (λ x. x l.start 0) r ∙ head,
        λ b ne.
            ap (λ x. x b) r
            ∙ write_block-ne l.start (header 0) (install 0) b ne
            ∙ ap (λ s. s.disk b) install_zero,
      )
    where
      head : (write_block l.start (header 0) (install 0)).disk l.start 0 ≡ 0
      head = elim (ℕ_discrete k 0) [
        | yes z ↦
            ap (λ x. x l.start 0)
              (write_block_off l.start (header 0) (install 0) (ap (λ s. s.left) install_zero ∙ z))
            ∙ ap (λ s. s.disk l.start 0) install_zero
            ∙ e
        | no n ↦
            ap (λ x. x 0)
              (write_block_on l.start (header 0) (install 0)
                (omega (arith, ap (λ s. s.left) install_zero)))
      ]

  pub reboot-Kept : (old : ℕ → Block) → Kept l.start old d → Kept l.start old (reboot l k d)
  reboot-Kept old h =
      let (e, same) = reboot_empty h.empty in
      record { empty = e; homes = λ b hb. same b (λ q. omega (arith, hb, q)) ∙ h.homes b hb }

  module _ (old G : ℕ → Block) (n : ℕ) (bl : ℕ → ℕ) (few : n ≤ 30)
      (home : (i : ℕ) → i < n → IsHome l.start (bl i)) where
    pub reboot-Done : Done l.start old G n bl d → Done l.start old G n bl (reboot l k d)
    reboot-Done h =
        let (e, same) = reboot_empty h.empty in
        record {
          empty = e;
          installed = λ i lt. same (bl i) (λ q. omega (arith, home i lt, q)) ∙ h.installed i lt;
          others = λ b hb ne. same b (λ q. omega (arith, hb, q)) ∙ h.others b hb ne;
        }

    module _ (g : Logged l.start old G n bl d) where
      as_finish : reboot l k d ≡ (write_block l.start (header n) (install n)).disk
      as_finish = reboot_eq n (rw g.count (rounds_small n few))

      same_blocks : (i : ℕ) → i < n → block i ≡ bl i
      same_blocks i lt = block-at n i few g.count lt ∙ g.entries i lt

      -- Recovery either ends, or leaves the transaction in the log.
      pub reboot-Logged :
          Logged l.start old G n bl (reboot l k d) ⊎ Done l.start old G n bl (reboot l k d)
      reboot-Logged =
          subst (λ x. Logged l.start old G n bl x ⊎ Done l.start old G n bl x) (sym as_finish)
            (finish l.start old G n bl few home block (header n) (boot k d) g same_blocks refl
              g.copies)

      pub reboot_ends : n < k → Done l.start old G n bl (reboot l k d)
      reboot_ends more = subst (Done l.start old G n bl) (sym as_finish) (
          finish-Done l.start old G n bl few home block (header n) (boot k d) g same_blocks refl
            g.copies more)
