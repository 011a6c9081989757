-- ===== src/Log/Loops.antt =====
-- The loops of log.c over a disk that may lose power.
use osp.Prelude.{
  ℕ, zero, suc, ◌+◌, ◌-◌, ◌≤◌, ◌<◌, ◌≡◌, ◌≢◌, refl, subst, ◌⊎◌, inl, inr, true, false, arith, ◌&&◌,
  ltb, leb, ◌==◌, if◌then◌else◌, update, update_self, update-ne, ◌∙◌, sym, ap,
}
use native.Mathlib.Decide.{ℕ_discrete}
use osp.Log.{Block, Store, write_block, install_loop, read_blocks, write_blocks, write_log_loop}

module _ (b : ℕ) (v : Block) (s : Store) where
  pub write_block-ne : (c : ℕ) → b ≢ c → (write_block b v s).disk c ≡ s.disk c
  write_block-ne c ne = elim (ℕ_discrete s.left 0) [
    | yes e ↦ let t : (s.left == 0) ≡ true = ground arith in rw t
    | no n ↦ let t : (s.left == 0) ≡ false = ground arith in rw t (update-ne s.disk b v c ne)
  ]

  pub write_block_on : 0 < s.left → (write_block b v s).disk b ≡ v
  write_block_on pos = let t : (s.left == 0) ≡ false = ground arith in rw t (update_self s.disk b v)

  -- Without power the disk stays.
  pub write_block_off : s.left ≡ 0 → (write_block b v s).disk ≡ s.disk
  write_block_off e = let t : (s.left == 0) ≡ true = ground arith in rw t

-- One write of what `G` has for the block.
write_block_either :
    (c : ℕ) (v : Block) (s : Store) (G : ℕ → Block)
    → v ≡ G c
    → (b : ℕ) → ((write_block c v s).disk b ≡ s.disk b) ⊎ ((write_block c v s).disk b ≡ G b)
write_block_either c v s G e b = elim (ℕ_discrete c b) [
  | yes q ↦ elim (ℕ_discrete s.left 0) [
    | yes z ↦ inl (ap (λ d. d b) (write_block_off c v s z))
    | no n ↦
        inr
          (subst (λ x. (write_block c v s).disk x ≡ G x) q (write_block_on c v s (omega arith) ∙ e))
  ]
  | no n ↦ inl (write_block-ne c v s b n)
]

-- Two steps that each keep a value or set it to `g`.
pub both {ℓ} :
    {A : Type ℓ} {x y z g : A} → (y ≡ x) ⊎ (y ≡ g) → (z ≡ y) ⊎ (z ≡ g) → (z ≡ x) ⊎ (z ≡ g)
both (inl p) (inl q) = inl (q ∙ p)
both (inr p) (inl q) = inr (q ∙ p)
both h (inr q) = inr q

settled {ℓ} : {A : Type ℓ} {y z g : A} → y ≡ g → (z ≡ y) ⊎ (z ≡ g) → z ≡ g
settled p (inl q) = q ∙ p
settled p (inr q) = q

-- The words of a header that is written.
pub write_blocks-at :
    (block : ℕ → ℕ) (m i : ℕ) (hb : Block) (j : ℕ)
    → write_blocks block i m hb j ≡ (if ltb i j && leb j (i + m) then block (j - 1) else hb j)
unfolding write_blocks
write_blocks-at block zero i hb j =
    let t : (ltb i j && leb j (i + 0)) ≡ false = ground arith in rw t
write_blocks-at block (suc m) i hb j =
    write_blocks-at block m (i + 1) (update hb (i + 1) (block i)) j ∙ elim (ℕ_discrete (i + 1) j) [
      | yes e ↦
          let t : (ltb (i + 1) j && leb j (i + 1 + m)) ≡ false = ground arith in
          let u : (ltb i j && leb j (i + suc m)) ≡ true = ground arith in
          rw (t, u)
            (ap (update hb (i + 1) (block i)) (sym e)
              ∙ update_self hb (i + 1) (block i)
              ∙ ap block (omega arith))
      | no ne ↦
          let t : (ltb (i + 1) j && leb j (i + 1 + m)) ≡ (ltb i j && leb j (i + suc m)) =
            ground arith in
          rw t (
            ap (λ x. if ltb i j && leb j (i + suc m) then block (j - 1) else x)
              (update-ne hb (i + 1) (block i) j ne))
    ]

-- The block numbers of a header that is read.
pub read_blocks-at :
    (hb : Block) (m i : ℕ) (block : ℕ → ℕ) (j : ℕ)
    → read_blocks hb i m block j ≡ (if leb i j && ltb j (i + m) then hb (j + 1) else block j)
unfolding read_blocks
read_blocks-at hb zero i block j = let t : (leb i j && ltb j (i + 0)) ≡ false = ground arith in rw t
read_blocks-at hb (suc m) i block j =
    read_blocks-at hb m (i + 1) (update block i (hb (i + 1))) j ∙ elim (ℕ_discrete i j) [
      | yes e ↦
          let t : (leb (i + 1) j && ltb j (i + 1 + m)) ≡ false = ground arith in
          let u : (leb i j && ltb j (i + suc m)) ≡ true = ground arith in
          rw (t, u)
            (ap (update block i (hb (i + 1))) (sym e)
              ∙ update_self block i (hb (i + 1))
              ∙ ap (λ x. hb (x + 1)) e)
      | no ne ↦
          let t : (leb (i + 1) j && ltb j (i + 1 + m)) ≡ (leb i j && ltb j (i + suc m)) =
            ground arith in
          rw t (
            ap (λ x. if leb i j && ltb j (i + suc m) then hb (j + 1) else x)
              (update-ne block i (hb (i + 1)) j ne))
    ]

-- A block outside of the log, which takes up 31 blocks.
abbrev pub IsHome : ℕ → ℕ → Type 0
IsHome start b = (b < start) ⊎ (start + 31 ≤ b)

module _ (start : ℕ) (block : ℕ → ℕ) where
  -- What installing the `m` blocks from `t` on leaves, if the log holds `G` of each: a part of them may
  -- be installed, and all are if the power lasts.
  pub record Installs (G : ℕ → Block) (t m : ℕ) (s s' : Store) : Type 0 where
    pub log_disk : (b : ℕ) → start ≤ b → b < start + 31 → s'.disk b ≡ s.disk b
    pub others : (b : ℕ) → ((i : ℕ) → t ≤ i → i < t + m → block i ≢ b) → s'.disk b ≡ s.disk b
    pub either : (b : ℕ) → (s'.disk b ≡ s.disk b) ⊎ (s'.disk b ≡ G b)
    pub all : m ≤ s.left → (i : ℕ) → t ≤ i → i < t + m → s'.disk (block i) ≡ G (block i)
    pub power : s'.left ≡ s.left - m

  pub install_loop-Installs :
      (G : ℕ → Block) (m t : ℕ) (s : Store)
      → t + m ≤ 30
      → ((i : ℕ) → t ≤ i → i < t + m → IsHome start (block i))
      → ((i : ℕ) → t ≤ i → i < t + m → s.view (start + i + 1) ≡ G (block i))
      → Installs G t m s (install_loop start block t m s)
  unfolding install_loop
  install_loop-Installs G zero t s few home logged = record {
    log_disk = λ b lo hi. refl;
    others = λ b n. refl;
    either = λ b. inl refl;
    all = λ le i lo hi. absurd (omega arith);
    power = omega arith;
  }
  install_loop-Installs G (suc m) t s few home logged =
      let v = s.view (start + t + 1) in
      let s1 = write_block (block t) v s in
      let here = home t (omega arith) (omega arith) in
      let value : v ≡ G (block t) = logged t (omega arith) (omega arith) in
      let rest =
        install_loop-Installs G m (t + 1) s1 (omega arith)
          (λ i lo hi. home i (omega arith) (omega arith))
          (λ i lo hi.
            update-ne s.view (block t) v (start + i + 1) (ground (arith, here))
            ∙ logged i (omega arith) (omega arith)) in
      record {
        log_disk = λ b lo hi.
            rest.log_disk b lo hi ∙ write_block-ne (block t) v s b (ground (arith, here));
        others = λ b n.
            rest.others b (λ i lo hi. n i (omega arith) (omega arith))
            ∙ write_block-ne (block t) v s b (n t (omega arith) (omega arith));
        either = λ b. both (write_block_either (block t) v s G value b) (rest.either b);
        all = λ le i lo hi. elim (ℕ_discrete t i) [
          | yes e ↦
              let first : s1.disk (block t) ≡ G (block t) =
                write_block_on (block t) v s (omega arith) ∙ value in
              ap (λ l. (install_loop start block (t + 1) m s1).disk (block l)) (sym e)
              ∙ settled first (rest.either (block t))
              ∙ ap (λ l. G (block l)) e
          | no ne ↦ rest.all (omega arith) i (omega arith) (omega arith)
        ];
        power = rest.power ∙ omega arith;
      }

  -- What the loop of write_log leaves for the `m` blocks from `t` on.
  pub record Writes (t m : ℕ) (s s' : Store) : Type 0 where
    pub others :
        (b : ℕ)
        → ((i : ℕ) → t ≤ i → i < t + m → start + i + 1 ≢ b)
        → (s'.disk b ≡ s.disk b) × (s'.view b ≡ s.view b)
    pub seen : (i : ℕ) → t ≤ i → i < t + m → s'.view (start + i + 1) ≡ s.view (block i)
    pub on_disk :
        m ≤ s.left → (i : ℕ) → t ≤ i → i < t + m → s'.disk (start + i + 1) ≡ s.view (block i)
    pub power : s'.left ≡ s.left - m

  pub write_log_loop-Writes :
      (m t : ℕ) (s : Store)
      → t + m ≤ 30
      → ((i : ℕ) → t ≤ i → i < t + m → IsHome start (block i))
      → Writes t m s (write_log_loop start block t m s)
  unfolding write_log_loop
  write_log_loop-Writes zero t s few home = record {
    others = λ b n. (refl, refl);
    seen = λ i lo hi. absurd (omega arith);
    on_disk = λ le i lo hi. absurd (omega arith);
    power = omega arith;
  }
  write_log_loop-Writes (suc m) t s few home =
      let v = s.view (block t) in
      let s1 = write_block (start + t + 1) v s in
      let rest =
        write_log_loop-Writes m (t + 1) s1 (omega arith)
          (λ i lo hi. home i (omega arith) (omega arith)) in
      let kept : (i : ℕ) → t ≤ i → i < t + suc m → s1.view (block i) ≡ s.view (block i) =
        (λ i lo hi.
          update-ne s.view (start + t + 1) v (block i) (λ e. omega (arith, home i lo hi))) in
      let first = rest.others (start + t + 1) (λ i lo hi. omega arith) in
      record {
        others = λ b n.
            let (d, w) = rest.others b (λ i lo hi. n i (omega arith) (omega arith)) in
            let ne = n t (omega arith) (omega arith) in
            (
              d ∙ write_block-ne (start + t + 1) v s b ne,
              w ∙ update-ne s.view (start + t + 1) v b ne,
            );
        seen = λ i lo hi. elim (ℕ_discrete t i) [
          | yes e ↦
              subst
                (λ l.
                  (write_log_loop start block (t + 1) m s1).view (start + l + 1) ≡ s.view (block l))
                e (first.1 ∙ update_self s.view (start + t + 1) v)
          | no ne ↦ rest.seen i (omega arith) (omega arith) ∙ kept i lo hi
        ];
        on_disk = λ le i lo hi. elim (ℕ_discrete t i) [
          | yes e ↦
              subst
                (λ l.
                  (write_log_loop start block (t + 1) m s1).disk (start + l + 1) ≡ s.view (block l))
                e (first.0 ∙ write_block_on (start + t + 1) v s (omega arith))
          | no ne ↦ rest.on_disk (omega arith) i (omega arith) (omega arith) ∙ kept i lo hi
        ];
        power = rest.power ∙ omega arith;
      }
