-- ===== src/Cstring/Compare.antt =====
-- strncmp answers 0 for equal strings and for no others.
use osp.Prelude.{
  ℕ, zero, suc, ◌+◌, ◌^◌, ◌<◌, ◌≡◌, ◌≢◌, ◌↔◌, inl, inr, not, ◌&&◌, arith, ◌==◌, Bool-cases, ◌∙◌, ap,
  refl,
}
use osp.Ulib.{minus}
use osp.Cstring.{next, strncmp}

-- The strings at `p` and `q` agree up to their end or to `n` characters.
abbrev pub SameString : ℕ → ℕ → ℕ → (ℕ → ℕ) → Type 0
SameString p q n mem =
    (i : ℕ) → i < n → ((j : ℕ) → j < i → mem (p + j) ≢ 0) → mem (p + i) ≡ mem (q + i)

abbrev pub AreBytes : (ℕ → ℕ) → Type 0
AreBytes mem = (a : ℕ) → mem a < 2 ^ 8

minus_zero : (a b : ℕ) → a < 2 ^ 8 → b < 2 ^ 8 → minus a b ≡ 0 → a ≡ b
minus_zero a b la lb e = omega arith

minus_self : (a b : ℕ) → a < 2 ^ 8 → a ≡ b → minus a b ≡ 0
minus_self a b la e = omega arith

-- One equal character that is not the end, and the rest.
module _ (p q n : ℕ) (mem : ℕ → ℕ) (nz : mem p ≢ 0) where
  Same-suc : mem p ≡ mem q → SameString (p + 1) (q + 1) n mem → SameString p q (suc n) mem
  Same-suc e same zero l go = ap mem (omega arith) ∙ e ∙ ap mem (omega arith)
  Same-suc e same (suc i) l go =
      ap mem (omega arith)
      ∙ same i (omega arith) (λ j lj z. go (suc j) (omega arith) (ap mem (omega arith) ∙ z))
      ∙ ap mem (omega arith)

  before_nonzero :
      (i : ℕ) → ((j : ℕ) → j < i → mem (p + 1 + j) ≢ 0) → (j : ℕ) → j < suc i → mem (p + j) ≢ 0
  before_nonzero i go zero l z = nz (ap mem (omega arith) ∙ z)
  before_nonzero i go (suc j) l z = go j (omega arith) (ap mem (omega arith) ∙ z)

  Same-tail : SameString p q (suc n) mem → SameString (p + 1) (q + 1) n mem
  Same-tail same i l go =
      ap mem (omega arith) ∙ same (suc i) (omega arith) (before_nonzero i go) ∙ ap mem (omega arith)

same_head : (p q n : ℕ) (mem : ℕ → ℕ) → SameString p q (suc n) mem → mem p ≡ mem q
same_head p q n mem same =
    ap mem (omega arith) ∙ same 0 (omega arith) (λ j l. absurd (omega arith)) ∙ ap mem (omega arith)

same_end : (p q n : ℕ) (mem : ℕ → ℕ) → mem p ≡ mem q → mem p ≡ 0 → SameString p q (suc n) mem
same_end p q n mem e z zero l go = ap mem (omega arith) ∙ e ∙ ap mem (omega arith)
same_end p q n mem e z (suc i) l go = absurd (go 0 (omega arith) (ap mem (omega arith) ∙ z))

-- strncmp answers 0 exactly when the strings at `p` and `q` have the same characters up to the end of
-- the first or to `n` characters, when memory holds bytes and the `n` characters of both end below the
-- last address.
pub strncmp_iff :
    (n p q : ℕ) (mem : ℕ → ℕ)
    → AreBytes mem
    → p + n < 2 ^ 32
    → q + n < 2 ^ 32
    → (strncmp p q n mem ≡ 0) ↔ SameString p q n mem
unfolding strncmp
strncmp_iff zero p q mem bytes hp hq = (λ e i l go. absurd (omega arith), λ s. refl)
strncmp_iff (suc n) p q mem bytes hp hq =
    let up : next p ≡ p + 1 = omega arith in
    let uq : next q ≡ q + 1 = omega arith in
    let again = strncmp_iff n (p + 1) (q + 1) mem bytes (omega arith) (omega arith) in
    elim (Bool-cases (not (mem p == 0) && mem p == mem q)) [
      | inl y ↦
          let nz : mem p ≢ 0 = ground arith in
          let e : mem p ≡ mem q = ground arith in
          rw (y, up, uq)
            (λ r. Same-suc p q n mem nz e (again.0 r), λ s. again.1 (Same-tail p q n mem nz s))
      | inr n0 ↦ rw n0 (
        λ r.
            let e = minus_zero (mem p) (mem q) (bytes p) (bytes q) r in
            let z : mem p ≡ 0 = ground arith in same_end p q n mem e z,
        λ s. minus_self (mem p) (mem q) (bytes p) (same_head p q n mem s),
      )
    ]
