-- ===== src/Fs/Bitmap.antt =====
-- xv6-public/fs.c: the allocator of disk blocks. A block is its bytes; `logged` holds the blocks for
-- which log_write has been called, the last first.
pub mod Bits
pub mod Alloc
pub mod Effect
use osp.Prelude.{
  ℕ, zero, suc, ◌+◌, ◌-◌, ◌*◌, ◌/◌, ◌%◌, ◌^◌, Bool, true, false, not, Option, none, some, List, [],
  ◌∷◌, ltb, if◌then◌else◌, update,
}
use osp.Mmu.{flag, set_bit, clear_bit}

abbrev pub bsize : ℕ
bsize = 512

-- Bitmap bits per block.
abbrev pub bpb : ℕ
bpb = 4096

pub record Superblock : Type 0 where
  pub size : ℕ
  pub nblocks : ℕ
  pub ninodes : ℕ
  pub nlog : ℕ
  pub logstart : ℕ
  pub inodestart : ℕ
  pub bmapstart : ℕ

pub record Disk : Type 0 where
  pub blocks : ℕ → ℕ → ℕ
  pub logged : List ℕ

abbrev pub bblock : ℕ → Superblock → ℕ
bblock b sb = b / bpb + sb.bmapstart

-- `1 << (bi % 8)`.
abbrev pub mask : ℕ → ℕ
mask bi = 2 ^ (bi % 8)

-- A change of a block's data, and log_write.
abbrev pub modify : ℕ → (ℕ → ℕ) → Disk → Disk
modify b bytes d = record { blocks = update d.blocks b bytes; logged = b ∷ d.logged }

unfoldable pub bzero : ℕ → Disk → Disk
bzero b d = modify b (λ i. if ltb i bsize then 0 else d.blocks b i) d

-- `(bp->data[bi/8] & m) == 0`, for the bit `bi` of a block of the bitmap.
abbrev pub is_free : (ℕ → ℕ) → ℕ → Bool
is_free bytes bi = not (flag (bytes (bi / 8)) (mask bi))

-- The inner loop of balloc from `bi` on: the first free bit.
unfoldable pub find_free : ℕ → (ℕ → ℕ) → ℕ → ℕ → ℕ → Option ℕ
find_free zero bytes size b bi = none
find_free (suc m) bytes size b bi =
    let later = find_free m bytes size b (bi + 1) in
    if not (ltb (b + bi) size) then none else if is_free bytes bi then some bi else later

-- Mark the block in use.
abbrev pub mark_used : (ℕ → ℕ) → ℕ → ℕ → ℕ
mark_used bytes bi = update bytes (bi / 8) (set_bit (bytes (bi / 8)) (mask bi))

-- Mark the block free.
abbrev pub mark_free : (ℕ → ℕ) → ℕ → ℕ → ℕ
mark_free bytes bi = update bytes (bi / 8) (clear_bit (bytes (bi / 8)) (mask bi))

-- What balloc does when a search of one block of the bitmap has ended; `later` is the search of the
-- blocks behind it.
abbrev pub take_bit : Superblock → ℕ → Disk → Option (ℕ × Disk) → Option ℕ → Option (ℕ × Disk)
take_bit sb b d later none = later
take_bit sb b d later (some bi) =
    let bp = bblock b sb in some (b + bi, bzero (b + bi) (modify bp (mark_used (d.blocks bp) bi) d))

-- The outer loop of balloc; `none` is the panic behind it.
unfoldable pub balloc_loop : ℕ → Superblock → ℕ → Disk → Option (ℕ × Disk)
balloc_loop zero sb b d = none
balloc_loop (suc fuel) sb b d =
    let later = balloc_loop fuel sb ((b + bpb) % 2 ^ 32) d in
    if not (ltb b sb.size)
    then none
    else take_bit sb b d later (find_free bpb (d.blocks (bblock b sb)) sb.size b 0)

-- One round for each block of the bitmap, and one for the end.
unfoldable pub balloc : Superblock → Disk → Option (ℕ × Disk)
balloc sb d = balloc_loop (sb.size / bpb + 2) sb 0 d

-- `none` is the panic.
unfoldable pub bfree : Superblock → ℕ → Disk → Option Disk
bfree sb b d =
    let bp = bblock b sb in
    let bi = b % bpb in
    let bytes = d.blocks bp in
    if is_free bytes bi then none else some (modify bp (mark_free bytes bi) d)
