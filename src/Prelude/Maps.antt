-- ===== src/Prelude/Maps.antt =====
-- Tables and memories as functions of a number.
use Prim.Native.Nat.{ℕ}
use mathlib.Core.Path.{◌≡◌, refl}
use mathlib.Core.Logic.{◌≢◌}
use native.Mathlib.Omega.{arith}
use mathlib.Core.Bool.{Bool, true, false}
use osp.Prelude.Tests.{◌==◌, if◌then◌else◌}

abbrev pub update {ℓ} : {A : Type ℓ} → (ℕ → A) → ℕ → A → ℕ → A
update f i a j = if i == j then a else f j

-- A table after one write under a test, at the place of the write and elsewhere.
module _ {ℓ} {A : Type ℓ} (f : ℕ → A) (i : ℕ) (a : A) where
  pub update_self : update f i a i ≡ a
  update_self = let e : (i == i) ≡ true = ground arith in rw e

  pub update-ne : (j : ℕ) → i ≢ j → update f i a j ≡ f j
  update-ne j ne = let e : (i == j) ≡ false = ground arith in rw e

  pub if_update_self : (b : Bool) → (if b then update f i a else f) i ≡ (if b then a else f i)
  if_update_self true = update_self
  if_update_self false = refl

  pub if_update-ne : (b : Bool) (j : ℕ) → i ≢ j → (if b then update f i a else f) j ≡ f j
  if_update-ne true j ne = update-ne j ne
  if_update-ne false j ne = refl
