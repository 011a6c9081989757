-- ===== src/Bio/Disk.antt =====
-- xv6-public/bio.c: what bwrite writes is what bread reads.
use mathlib.Core.Bool.{and-false}
use osp.Prelude.{ℕ, ◌<◌, ◌≡◌, refl, true, false, some, leb, ◌==◌, ◌>>=◌, update, update_self, arith}
use osp.Mmu.{flag, set_bit, clear_bit}
use osp.Fs.Bitmap.Bits.{set_bit_self}
use osp.Spinlock.{holdingsleep}
use osp.Bio.{b_valid, b_dirty, Buf, iderw, bread, bwrite}

-- A process that holds the lock of a buffer of disk 1 writes it; a process, the same or another one, that
-- holds the lock of a buffer taken anew for the same block then reads just these bytes from the disk,
-- where no other block has changed.
pub bread-bwrite :
    (pid pid' disksize : ℕ) (b fresh : Buf) (disk : ℕ → ℕ → ℕ)
    → holdingsleep pid b.lock ≡ true
    → b.dev ≡ 1
    → b.blockno < disksize
    → holdingsleep pid' fresh.lock ≡ true
    → fresh.flags ≡ 0
    → fresh.dev ≡ 1
    → fresh.blockno ≡ b.blockno
    → (bwrite pid disksize b disk >>= λ r. bread pid' disksize fresh r.1)
      ≡ some (record fresh { flags = b_valid; bytes = b.bytes }, update disk b.blockno b.bytes)
unfolding bwrite bread iderw
bread-bwrite pid pid' disksize b fresh disk h d l h' f d' e =
    let in_range : leb disksize b.blockno ≡ false = ground arith in
    let one : (b.dev == 1) ≡ true = ground arith in
    let one' : (fresh.dev == 1) ≡ true = ground arith in
    let dirty : flag (set_bit b.flags b_dirty) b_dirty ≡ true = set_bit_self b.flags 2 in
    let written : bwrite pid disksize b disk
        ≡ some (
          record b { flags = set_bit (clear_bit (set_bit b.flags b_dirty) b_dirty) b_valid },
          update disk b.blockno b.bytes,
        ) =
      rw h (
        rw dirty
          (rw one (rw in_range rw (and-false (flag (set_bit b.flags b_dirty) b_valid)) refl))) in
    rw written rw f
      (rw h' (rw one' (rw e (rw in_range (rw (update_self disk b.blockno b.bytes) refl)))))
