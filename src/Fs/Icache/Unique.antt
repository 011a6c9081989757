-- ===== src/Fs/Icache/Unique.antt =====
-- At most one entry of the cache has an inode.
use osp.Prelude.{ℕ, ◌+◌, ◌-◌, ◌^◌, ◌<◌, ◌≡◌, ◌≢◌, true, false, Option, none, some}
use osp.Fs.Inode.{Inode}
use osp.Fs.Icache.{ninode, is_cached, Slot, cached, empty, full}

-- What the loop of iget has found: an entry with the inode, or a free one where no entry has it.
abbrev pub Finds : (ℕ → Inode) → ℕ → ℕ → ℕ → Slot → Type 0
Finds t dev inum n (cached i) = (i < n) × (is_cached dev inum (t i) ≡ true)
Finds t dev inum n (empty i) =
    (i < n) × ((t i).ref ≡ 0) × ((j : ℕ) → j < n → is_cached dev inum (t j) ≡ false)
Finds t dev inum n full = (j : ℕ) → j < n → (is_cached dev inum (t j) ≡ false) × ((t j).ref ≢ 0)

module _ (t : ℕ → Inode) (dev inum : ℕ) where
  abbrev NotHere : ℕ → Type 0
  NotHere j = is_cached dev inum (t j) ≡ false

-- Two entries in use have different inodes.
abbrev pub IsUnique : (ℕ → Inode) → Type 0
IsUnique t =
    (i j : ℕ)
    → i < ninode
    → j < ninode
    → (dev inum : ℕ) → is_cached dev inum (t i) ≡ true
    → is_cached dev inum (t j) ≡ true
    → i ≡ j

abbrev pub AreSmall : (ℕ → Inode) → Type 0
AreSmall t = (i : ℕ) → (t i).ref < 2 ^ 31 - 1

-- The entry `i` has one reference more, to the inode, and no other entry has changed.
pub record Gets (dev inum : ℕ) (t : ℕ → Inode) (i : ℕ) (t' : ℕ → Inode) : Type 0 where
  pub place : i < ninode
  pub has_inode : is_cached dev inum (t' i) ≡ true
  pub counted : (t' i).ref ≡ (t i).ref + 1
  pub kept : (j : ℕ) → i ≢ j → t' j ≡ t j
  pub unique : IsUnique t'

abbrev pub Answers : ℕ → ℕ → (ℕ → Inode) → Option (ℕ × (ℕ → Inode)) → Type 0
Answers dev inum t none =
    (j : ℕ) → j < ninode → (is_cached dev inum (t j) ≡ false) × ((t j).ref ≢ 0)
Answers dev inum t (some (i, t')) = Gets dev inum t i t'

-- An entry is given an inode that no other entry has.
abbrev Alone : (ℕ → Inode) → ℕ → Inode → Type 0
Alone t i ip =
    (dev inum : ℕ)
    → is_cached dev inum ip ≡ true
    → (j : ℕ) → j < ninode
    → i ≢ j
    → is_cached dev inum (t j) ≡ false
