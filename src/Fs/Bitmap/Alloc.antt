-- ===== src/Fs/Bitmap/Alloc.antt =====
-- balloc takes the lowest free block and no other.
use osp.Prelude.{
  ℕ, zero, suc, ◌+◌, ◌-◌, ◌*◌, ◌/◌, ◌%◌, ◌^◌, ◌≤◌, ◌<◌, ◌≡◌, refl, inl, inr, Bool, true, false,
  Option, none, some, arith, ltb, Bool-cases, ◌∙◌, sym, ap,
}
use native.Mathlib.Decide.{ℕ_discrete, dec_lt}
use osp.Fs.Bitmap.{
  bpb, Superblock, Disk, bblock, modify, bzero, is_free, find_free, mark_used, take_bit,
  balloc_loop, balloc,
}

-- Whether the bit of the block `n` is clear.
abbrev pub free_at : Superblock → Disk → ℕ → Bool
free_at sb d n = is_free (d.blocks (bblock n sb)) (n % bpb)

abbrev Found : (ℕ → ℕ) → ℕ → ℕ → ℕ → ℕ → Option ℕ → Type 0
Found bytes size b bi m none =
    (k : ℕ) → bi ≤ k → k < bi + m → b + k < size → is_free bytes k ≡ false
Found bytes size b bi m (some k) =
    (bi ≤ k)
    × (k < bi + m)
    × (b + k < size)
    × (is_free bytes k ≡ true)
    × ((j : ℕ) → bi ≤ j → j < k → is_free bytes j ≡ false)

Found-next :
    (bytes : ℕ → ℕ) (size b bi m : ℕ) (r : Option ℕ)
    → is_free bytes bi ≡ false
    → Found bytes size b (bi + 1) m r
    → Found bytes size b bi (suc m) r
Found-next bytes size b bi m none n f = λ k lo hi room. elim (ℕ_discrete bi k) [
  | yes e ↦ ap (is_free bytes) (sym e) ∙ n
  | no ne ↦ f k (omega arith) (omega arith) room
]
Found-next bytes size b bi m (some k) n (lo, hi, room, free, below) = (
  omega arith,
  omega arith,
  room,
  free,
  λ j lj hj. elim (ℕ_discrete bi j) [
    | yes e ↦ ap (is_free bytes) (sym e) ∙ n
    | no ne ↦ below j (omega arith) hj
  ],
)

find_free-Found :
    (m : ℕ) (bytes : ℕ → ℕ) (size b bi : ℕ) → Found bytes size b bi m (find_free m bytes size b bi)
unfolding find_free
find_free-Found zero bytes size b bi = λ k lo hi room. absurd (omega arith)
find_free-Found (suc m) bytes size b bi = elim (Bool-cases (ltb (b + bi) size)) [
  | inr out ↦ rw out (λ k lo hi room. absurd (ground arith))
  | inl within ↦ rw within (elim (Bool-cases (is_free bytes bi)) [
    | inl y ↦ rw y (omega arith, omega arith, ground arith, y, λ j lo hi. absurd (omega arith))
    | inr n ↦ rw n (
        Found-next bytes size b bi m (find_free m bytes size b (bi + 1)) n
          (find_free-Found m bytes size b (bi + 1)))
  ])
]

-- The disk when `n` has been taken.
abbrev pub taken : Superblock → ℕ → Disk → Disk
taken sb n d = let bp = bblock n sb in bzero n (modify bp (mark_used (d.blocks bp) (n % bpb)) d)

-- The answer of balloc from the block `b` on.
abbrev pub Lowest : Superblock → Disk → ℕ → Option (ℕ × Disk) → Type 0
Lowest sb d b none = (n : ℕ) → b ≤ n → n < sb.size → free_at sb d n ≡ false
Lowest sb d b (some (n, d')) =
    (b ≤ n)
    × (n < sb.size)
    × (free_at sb d n ≡ true)
    × ((j : ℕ) → b ≤ j → j < n → free_at sb d j ≡ false)
    × (d' ≡ taken sb n d)

-- The bit `k` of the block of the bitmap that starts with the block `b`.
module _ (sb : Superblock) (d : Disk) (b : ℕ) (start : b % bpb ≡ 0) where
  free-bit : (k : ℕ) → k < bpb → free_at sb d (b + k) ≡ is_free (d.blocks (bblock b sb)) k
  free-bit k small =
      let q : (b + k) / bpb ≡ b / bpb = omega arith in
      let r : (b + k) % bpb ≡ k = omega arith in rw (q, r) refl

  taken-bit :
      (k : ℕ)
      → k < bpb
      → bzero (b + k) (modify (bblock b sb) (mark_used (d.blocks (bblock b sb)) k) d)
        ≡ taken sb (b + k) d
  taken-bit k small =
      let q : (b + k) / bpb ≡ b / bpb = omega arith in
      let r : (b + k) % bpb ≡ k = omega arith in rw (q, r) refl

  free_in :
      ((k : ℕ) → k < bpb → b + k < sb.size → is_free (d.blocks (bblock b sb)) k ≡ false)
      → (n : ℕ) → b ≤ n
      → n < b + bpb
      → n < sb.size
      → free_at sb d n ≡ false
  free_in f n lo hi room =
      ap (free_at sb d) (omega arith)
      ∙ free-bit (n - b) (omega arith)
      ∙ f (n - b) (omega arith) (omega arith)

Lowest-later :
    (sb : Superblock) (d : Disk) (b : ℕ) (r : Option (ℕ × Disk))
    → ((n : ℕ) → b ≤ n → n < b + bpb → n < sb.size → free_at sb d n ≡ false)
    → Lowest sb d (b + bpb) r
    → Lowest sb d b r
Lowest-later sb d b none f g =
    λ n lo room. elim (dec_lt n (b + bpb)) [ yes l ↦ f n lo l room | no h ↦ g n (omega arith) room ]
Lowest-later sb d b (some (n, d')) f (lo, room, free, below, e) = (
  omega arith,
  room,
  free,
  λ j lj hj. elim (dec_lt j (b + bpb)) [
    | yes l ↦ f j lj l (omega arith)
    | no h ↦ below j (omega arith) hj
  ],
  e,
)

take_bit-Lowest :
    (sb : Superblock) (d : Disk) (b : ℕ)
    → b % bpb ≡ 0
    → (later : Option (ℕ × Disk)) (r : Option ℕ) → Found (d.blocks (bblock b sb)) sb.size b 0 bpb r
    → Lowest sb d (b + bpb) later
    → Lowest sb d b (take_bit sb b d later r)
take_bit-Lowest sb d b start later none f g =
    Lowest-later sb d b later
      (free_in sb d b start (λ k small room. f k (omega arith) (omega arith) room)) g
take_bit-Lowest sb d b start later (some k) (lo, hi, room, free, below) g = (
  omega arith,
  room,
  free-bit sb d b start k (omega arith) ∙ free,
  λ j lj hj.
      ap (free_at sb d) (omega arith)
      ∙ free-bit sb d b start (j - b) (omega arith)
      ∙ below (j - b) (omega arith) (omega arith),
  taken-bit sb d b start k (omega arith),
)

balloc_loop-Lowest :
    (fuel : ℕ) (sb : Superblock) (d : Disk) (b : ℕ)
    → b % bpb ≡ 0
    → sb.size < 2 ^ 31
    → b < sb.size + bpb
    → sb.size < b + fuel * bpb
    → Lowest sb d b (balloc_loop fuel sb b d)
unfolding balloc_loop
balloc_loop-Lowest zero sb d b start small near enough = λ n lo room. absurd (omega arith)
balloc_loop-Lowest (suc fuel) sb d b start small near enough = elim (Bool-cases (ltb b sb.size)) [
  | inr out ↦ rw out (λ n lo room. absurd (ground arith))
  | inl within ↦
      let up : (b + bpb) % 2 ^ 32 ≡ b + bpb = ground arith in
      rw (within, up)
        (take_bit-Lowest sb d b start (balloc_loop fuel sb (b + bpb) d)
          (find_free bpb (d.blocks (bblock b sb)) sb.size b 0)
          (find_free-Found bpb (d.blocks (bblock b sb)) sb.size b 0)
          (balloc_loop-Lowest fuel sb d (b + bpb) (omega arith) small (ground arith) (omega arith)))
]

pub balloc-Lowest : (sb : Superblock) (d : Disk) → sb.size < 2 ^ 31 → Lowest sb d 0 (balloc sb d)
unfolding balloc
balloc-Lowest sb d small =
    balloc_loop-Lowest (sb.size / bpb + 2) sb d 0 (omega arith) small (omega arith) (omega arith)
