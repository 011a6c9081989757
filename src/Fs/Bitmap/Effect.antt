-- ===== src/Fs/Bitmap/Effect.antt =====
-- What balloc and bfree do to the disk.
use osp.Prelude.{
  ℕ, ◌/◌, ◌%◌, ◌^◌, ◌<◌, ◌≡◌, ◌≢◌, refl, true, false, not, Option, none, some, ◌∷◌, arith, ltb,
  if◌then◌else◌, update, update_self, update-ne, true≢false, ◌∙◌, sym, ap, subst,
}
use native.Mathlib.Decide.{ℕ_discrete}
use osp.Mmu.{flag, set_bit, clear_bit}
use osp.Fs.Bitmap.{
  bsize, bpb, Superblock, Disk, bblock, mask, modify, bzero, is_free, mark_used, mark_free, balloc,
  bfree,
}
use osp.Fs.Bitmap.Bits.{set_bit_self, set_bit-ne, clear_bit_self, clear_bit-ne}
use osp.Fs.Bitmap.Alloc.{free_at, taken, Lowest, balloc-Lowest}

module _ (bytes : ℕ → ℕ) (k : ℕ) (byte : ℕ) where
  abbrev changed_byte : ℕ → ℕ
  changed_byte = update bytes (k / 8) byte

  is_free-changed_self : is_free changed_byte k ≡ not (flag byte (mask k))
  is_free-changed_self = ap (λ x. not (flag x (mask k))) (update_self bytes (k / 8) byte)

  is_free-changed-ne :
      ((i : ℕ) → k % 8 ≢ i → flag byte (2 ^ i) ≡ flag (bytes (k / 8)) (2 ^ i))
      → (j : ℕ) → k ≢ j
      → is_free changed_byte j ≡ is_free bytes j
  is_free-changed-ne keeps j ne = elim (ℕ_discrete (k / 8) (j / 8)) [
    | yes e ↦
        let bit : k % 8 ≢ j % 8 = λ q. ne (omega arith) in
        ap (λ i. not (flag (changed_byte i) (mask j))) (sym e)
        ∙ ap (λ x. not (flag x (mask j))) (update_self bytes (k / 8) byte)
        ∙ ap not (keeps (j % 8) bit)
        ∙ ap (λ i. not (flag (bytes i) (mask j))) e
    | no other ↦ ap (λ x. not (flag x (mask j))) (update-ne bytes (k / 8) byte (j / 8) other)
  ]

module _ (bytes : ℕ → ℕ) (k : ℕ) where
  is_free-mark_used_self : is_free (mark_used bytes k) k ≡ false
  is_free-mark_used_self =
      is_free-changed_self bytes k (set_bit (bytes (k / 8)) (mask k))
      ∙ ap not (set_bit_self (bytes (k / 8)) (k % 8))

  is_free-mark_used-ne : (j : ℕ) → k ≢ j → is_free (mark_used bytes k) j ≡ is_free bytes j
  is_free-mark_used-ne =
      is_free-changed-ne bytes k (set_bit (bytes (k / 8)) (mask k))
        (set_bit-ne (bytes (k / 8)) (k % 8))

  is_free-mark_free_self : is_free (mark_free bytes k) k ≡ true
  is_free-mark_free_self =
      is_free-changed_self bytes k (clear_bit (bytes (k / 8)) (mask k))
      ∙ ap not (clear_bit_self (bytes (k / 8)) (k % 8))

  is_free-mark_free-ne : (j : ℕ) → k ≢ j → is_free (mark_free bytes k) j ≡ is_free bytes j
  is_free-mark_free-ne =
      is_free-changed-ne bytes k (clear_bit (bytes (k / 8)) (mask k))
        (clear_bit-ne (bytes (k / 8)) (k % 8))

-- A change of one bit of the bitmap, seen from another block.
module _ (sb : Superblock) (d : Disk) (n : ℕ) (change : (ℕ → ℕ) → ℕ → ℕ → ℕ)
    (keeps : (bytes : ℕ → ℕ) (k j : ℕ) → k ≢ j → is_free (change bytes k) j ≡ is_free bytes j) where
  abbrev changed : Disk
  changed = modify (bblock n sb) (change (d.blocks (bblock n sb)) (n % bpb)) d

  free_at-changed_self :
      free_at sb changed n ≡ is_free (change (d.blocks (bblock n sb)) (n % bpb)) (n % bpb)
  free_at-changed_self =
      ap (λ bytes. is_free bytes (n % bpb))
        (update_self d.blocks (bblock n sb) (change (d.blocks (bblock n sb)) (n % bpb)))

  free_at-changed : (m : ℕ) → n ≢ m → free_at sb changed m ≡ free_at sb d m
  free_at-changed m ne = elim (ℕ_discrete (bblock n sb) (bblock m sb)) [
    | yes e ↦
        let bit : n % bpb ≢ m % bpb = λ q. ne (omega arith) in
        ap (λ b. is_free (changed.blocks b) (m % bpb)) (sym e)
        ∙ ap (λ bytes. is_free bytes (m % bpb))
            (update_self d.blocks (bblock n sb) (change (d.blocks (bblock n sb)) (n % bpb)))
        ∙ keeps (d.blocks (bblock n sb)) (n % bpb) (m % bpb) bit
        ∙ ap (λ b. is_free (d.blocks b) (m % bpb)) e
    | no other ↦
        ap (λ bytes. is_free bytes (m % bpb))
          (update-ne d.blocks (bblock n sb) (change (d.blocks (bblock n sb)) (n % bpb))
            (bblock m sb) other)
  ]

-- The bitmap says that its own blocks are in use.
abbrev pub KeepsBitmap : Superblock → Disk → Type 0
KeepsBitmap sb d = (m : ℕ) → m < sb.size → free_at sb d (bblock m sb) ≡ false

-- The block `n` has been taken, and what bfree makes of the disk then.
pub record Allocated (sb : Superblock) (d : Disk) (n : ℕ) (d' : Disk) : Type 0 where
  pub within : n < sb.size
  pub was_free : free_at sb d n ≡ true
  pub lowest : (j : ℕ) → j < n → free_at sb d j ≡ false
  pub in_use : free_at sb d' n ≡ false
  pub others : (m : ℕ) → m < sb.size → n ≢ m → free_at sb d' m ≡ free_at sb d m
  pub zeroed : (i : ℕ) → i < bsize → d'.blocks n i ≡ 0
  pub kept : (b : ℕ) → n ≢ b → bblock n sb ≢ b → d'.blocks b ≡ d.blocks b
  pub logged : d'.logged ≡ n ∷ bblock n sb ∷ d.logged
  pub given_back :
      (d'' : Disk) × (bfree sb n d' ≡ some d'')
      × ((m : ℕ) → m < sb.size → free_at sb d'' m ≡ free_at sb d m)

abbrev pub Allocates : Superblock → Disk → Option (ℕ × Disk) → Type 0
Allocates sb d none = (n : ℕ) → n < sb.size → free_at sb d n ≡ false
Allocates sb d (some (n, d')) = Allocated sb d n d'

module _ (sb : Superblock) (d : Disk) (n : ℕ) (own : KeepsBitmap sb d) (room : n < sb.size)
    (free : free_at sb d n ≡ true) where
  abbrev marked : Disk
  marked = modify (bblock n sb) (mark_used (d.blocks (bblock n sb)) (n % bpb)) d

  no_bitmap : (m : ℕ) → m < sb.size → n ≢ bblock m sb
  no_bitmap m small e = true≢false (sym free ∙ ap (free_at sb d) e ∙ own m small)

  free_at-zeroed : (m : ℕ) → m < sb.size → free_at sb (taken sb n d) m ≡ free_at sb marked m
  unfolding bzero
  free_at-zeroed m small =
      ap (λ bytes. is_free bytes (m % bpb))
        (update-ne marked.blocks n (λ i. if ltb i bsize then 0 else marked.blocks n i) (bblock m sb)
          (no_bitmap m small))

  taken_used : free_at sb (taken sb n d) n ≡ false
  taken_used =
      free_at-zeroed n room
      ∙ free_at-changed_self sb d n mark_used is_free-mark_used-ne
      ∙ is_free-mark_used_self (d.blocks (bblock n sb)) (n % bpb)

  taken_others : (m : ℕ) → m < sb.size → n ≢ m → free_at sb (taken sb n d) m ≡ free_at sb d m
  taken_others m small ne =
      free_at-zeroed m small ∙ free_at-changed sb d n mark_used is_free-mark_used-ne m ne

  taken_zero : (i : ℕ) → i < bsize → (taken sb n d).blocks n i ≡ 0
  unfolding bzero
  taken_zero i small =
      let t : ltb i bsize ≡ true = ground arith in
      ap (λ f. f i)
        (update_self marked.blocks n (λ k. if ltb k bsize then 0 else marked.blocks n k))
      ∙ rw t refl

  taken_kept : (b : ℕ) → n ≢ b → bblock n sb ≢ b → (taken sb n d).blocks b ≡ d.blocks b
  unfolding bzero
  taken_kept b ne other =
      update-ne marked.blocks n (λ i. if ltb i bsize then 0 else marked.blocks n i) b ne
      ∙ update-ne d.blocks (bblock n sb) (mark_used (d.blocks (bblock n sb)) (n % bpb)) b other

  freed_again :
      (d'' : Disk) × (bfree sb n (taken sb n d) ≡ some d'')
      × ((m : ℕ) → m < sb.size → free_at sb d'' m ≡ free_at sb d m)
  unfolding bfree
  freed_again =
      let e = taken sb n d in
      (
        modify (bblock n sb) (mark_free (e.blocks (bblock n sb)) (n % bpb)) e,
        rw taken_used refl,
        λ m small. elim (ℕ_discrete n m) [
          | yes q ↦
              ap (free_at sb (changed sb e n mark_free is_free-mark_free-ne)) (sym q)
              ∙ free_at-changed_self sb e n mark_free is_free-mark_free-ne
              ∙ is_free-mark_free_self (e.blocks (bblock n sb)) (n % bpb)
              ∙ sym free
              ∙ ap (free_at sb d) q
          | no ne ↦
              free_at-changed sb e n mark_free is_free-mark_free-ne m ne ∙ taken_others m small ne
        ],
      )

  taken-Allocated : ((j : ℕ) → j < n → free_at sb d j ≡ false) → Allocated sb d n (taken sb n d)
  unfolding bzero
  taken-Allocated below = record {
    within = room;
    was_free = free;
    lowest = below;
    in_use = taken_used;
    others = taken_others;
    zeroed = taken_zero;
    kept = taken_kept;
    logged = refl;
    given_back = freed_again;
  }

Lowest-Allocates :
    (sb : Superblock) (d : Disk) (r : Option (ℕ × Disk))
    → KeepsBitmap sb d
    → Lowest sb d 0 r
    → Allocates sb d r
Lowest-Allocates sb d none own f = λ n room. f n (omega arith) room
Lowest-Allocates sb d (some (n, d')) own (lo, room, free, below, e) =
    subst (Allocated sb d n) (sym e)
      (taken-Allocated sb d n own room free (λ j l. below j (omega arith) l))

-- balloc on a disk of an int number of blocks, whose bitmap says that its own blocks are in use: it
-- panics only where no block is free; otherwise it takes the lowest free block, which is then in use
-- and filled with zeros, no bit of another block changes and no block but this one and that of its bit
-- is written, both of which are logged; and bfree of it makes every block as free as it was.
pub balloc-Allocates :
    (sb : Superblock) (d : Disk)
    → sb.size < 2 ^ 31
    → KeepsBitmap sb d
    → Allocates sb d (balloc sb d)
balloc-Allocates sb d small own = Lowest-Allocates sb d (balloc sb d) own (balloc-Lowest sb d small)
