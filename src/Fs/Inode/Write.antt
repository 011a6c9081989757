-- ===== src/Fs/Inode/Write.antt =====
-- writei changes the bytes of the file that it is to change, and no others.
use native.Mathlib.Decide.{ℕ_discrete, dec_lt}
use osp.Prelude.{
  ℕ, zero, suc, ◌+◌, ◌-◌, ◌*◌, ◌/◌, ◌%◌, ◌^◌, ◌≤◌, ◌<◌, ◌≡◌, ◌≢◌, refl, inl, inr, true, false, not,
  ◌&&◌, ◌||◌, some, arith, ltb, leb, ◌==◌, if◌then◌else◌, min, update, update_self, update-ne, ◌∙◌,
  sym, ap, subst,
}
use osp.Fs.Bitmap.{bsize, Superblock, Disk, modify}
use osp.Fs.Inode.{ndirect, Inode, get_word}
use osp.Fs.Inode.Content.{Devsw, t_dev, maxfile, with_bytes, writei_loop, writei}
use osp.Fs.Inode.Read.{block_of, IsMapped, content, is_set, bmap-IsMapped, Fits, Fits-next}

-- The block `k` holds data of the file.
abbrev pub InFile : Inode → ℕ → Type 0
InFile ip k = k * bsize < ip.size

-- The blocks of the file are there, are different blocks, and the indirect block is none of them.
pub record IsLaidOut (ip : Inode) (d : Disk) : Type 0 where
  pub mapped : (k : ℕ) → InFile ip k → IsMapped ip d k
  pub apart : (j k : ℕ) → InFile ip j → InFile ip k → block_of ip d j ≡ block_of ip d k → j ≡ k
  pub table : (k : ℕ) → InFile ip k → block_of ip d k ≢ ip.addrs ndirect

-- The byte `x` of the file when `n` bytes of `src` have been written at `off`.
abbrev pub written : (ℕ → ℕ) → ℕ → ℕ → (ℕ → ℕ) → ℕ → ℕ
written src off n old x = if leb off x && ltb x (off + n) then src (x - off) else old x

-- The same, from the two bytes that it can be.
abbrev written_as : ℕ → ℕ → ℕ → ℕ → ℕ → ℕ
written_as new old off n x = if leb off x && ltb x (off + n) then new else old

-- One piece of a write, in the block `q`.
module _ (ip : Inode) (d : Disk) (v : IsLaidOut ip d) (src : ℕ → ℕ) (q o m : ℕ)
    (inside : InFile ip q) (room : o + m ≤ bsize) where
  abbrev piece : Disk
  piece = modify (block_of ip d q) (with_bytes src o m (d.blocks (block_of ip d q))) d

  block_of-piece : (k : ℕ) → block_of ip piece k ≡ block_of ip d k
  block_of-piece k =
      ap (λ b. if ltb k ndirect then ip.addrs k else get_word b (4 * (k - ndirect)))
        (update-ne d.blocks (block_of ip d q) (with_bytes src o m (d.blocks (block_of ip d q)))
          (ip.addrs ndirect) (v.table q inside))

  IsMapped-piece : (k : ℕ) → IsMapped ip d k → IsMapped ip piece k
  IsMapped-piece k (few, there, table) = (few, λ z. there (sym (block_of-piece k) ∙ z), table)

  piece-IsLaidOut : IsLaidOut ip piece
  piece-IsLaidOut = record {
    mapped = λ k l. IsMapped-piece k (v.mapped k l);
    apart = λ j k lj lk e. v.apart j k lj lk (sym (block_of-piece j) ∙ e ∙ block_of-piece k);
    table = λ k l z. v.table k l (sym (block_of-piece k) ∙ z);
  }

  content-piece :
      (x : ℕ) → x < ip.size → content ip piece x ≡ written src (q * bsize + o) m (content ip d) x
  content-piece x l =
      ap (λ b. piece.blocks b (x % bsize)) (block_of-piece (x / bsize))
      ∙ elim (ℕ_discrete q (x / bsize)) [
        | yes e ↦
            let bytes = with_bytes src o m (d.blocks (block_of ip d q)) in
            let tests : (leb o (x % bsize) && ltb (x % bsize) (o + m))
                ≡ (leb (q * bsize + o) x && ltb x (q * bsize + o + m)) =
              ground arith in
            let index : x % bsize - o ≡ x - (q * bsize + o) = omega arith in
            ap (λ k. update d.blocks (block_of ip d q) bytes (block_of ip d k) (x % bsize)) (sym e)
            ∙ ap (λ f. f (x % bsize)) (update_self d.blocks (block_of ip d q) bytes)
            ∙ ap (λ t. if t then src (x % bsize - o) else d.blocks (block_of ip d q) (x % bsize))
                tests
            ∙ ap
                (λ i.
                  written_as (src i) (d.blocks (block_of ip d q) (x % bsize)) (q * bsize + o) m x)
                index
            ∙ ap
                (λ k.
                  written_as (src (x - (q * bsize + o))) (d.blocks (block_of ip d k) (x % bsize))
                    (q * bsize + o) m x)
                e
        | no ne ↦
            let here : InFile ip (x / bsize) = omega arith in
            let outside : (leb (q * bsize + o) x && ltb x (q * bsize + o + m)) ≡ false =
              ground arith in
            ap (λ f. f (x % bsize))
              (update-ne d.blocks (block_of ip d q)
                (with_bytes src o m (d.blocks (block_of ip d q))) (block_of ip d (x / bsize))
                (λ z. ne (v.apart q (x / bsize) inside here z)))
            ∙ sym (ap (λ t. if t then src (x - (q * bsize + o)) else content ip d x) outside)
      ]

-- The pieces of a write, one after the other.
written-next :
    (src old : ℕ → ℕ) (off m n x : ℕ)
    → m ≤ n
    → written (λ i. src (m + i)) (off + m) (n - m) (written src off m old) x
      ≡ written src off n old x
written-next src old off m n x le = elim (dec_lt x (off + m)) [
  | yes first ↦
      let passed : (leb (off + m) x && ltb x (off + m + (n - m))) ≡ false = ground arith in
      let tests : (leb off x && ltb x (off + m)) ≡ (leb off x && ltb x (off + n)) = ground arith in
      rw passed (ap (λ t. if t then src (x - off) else old x) tests)
  | no behind ↦
      let passed : (leb off x && ltb x (off + m)) ≡ false = ground arith in
      let tests : (leb (off + m) x && ltb x (off + m + (n - m))) ≡ (leb off x && ltb x (off + n)) =
        ground arith in
      let index : m + (x - (off + m)) ≡ x - off = omega arith in
      rw (passed, index) (ap (λ t. if t then src (x - off) else old x) tests)
]

-- The file after a write of `n` bytes inside it: the bytes, and the layout.
abbrev pub Writes : Inode → Disk → (ℕ → ℕ) → ℕ → ℕ → Disk → Type 0
Writes ip d src off n d' =
    ((x : ℕ) → x < ip.size → content ip d' x ≡ written src off n (content ip d) x) × IsLaidOut ip d'

written_none : (src old : ℕ → ℕ) (off x : ℕ) → old x ≡ written src off 0 old x
written_none src old off x =
    let t : (leb off x && ltb x (off + 0)) ≡ false = ground arith in rw t refl

-- The loop ends, with the disk that it is to leave.
abbrev pub LoopWrites : ℕ → Superblock → (ℕ → ℕ) → ℕ → ℕ → Inode → Disk → Type 0
LoopWrites fuel sb src off n ip d =
    (d' : Disk) × (writei_loop fuel sb src off n ip d ≡ some (off + n, ip, d'))
    × Writes ip d src off n d'

LoopWrites-none :
    (fuel : ℕ) (sb : Superblock) (src : ℕ → ℕ) (off n : ℕ) (ip : Inode) (d : Disk)
    → IsLaidOut ip d
    → n ≡ 0
    → LoopWrites (suc fuel) sb src off n ip d
unfolding writei_loop
LoopWrites-none fuel sb src off n ip d v z =
    let done : (n == 0) ≡ true = ground arith in
    (
      d,
      rw done (ap (λ k. some (k, ip, d)) (omega arith)),
      (
        λ x l.
            subst (λ k. content ip d x ≡ written src off k (content ip d) x) (sym z)
              (written_none src (content ip d) off x),
        v,
      ),
    )

-- A round, and what the others do from the disk that it leaves.
LoopWrites-next :
    (fuel : ℕ) (sb : Superblock) (src : ℕ → ℕ) (off n : ℕ) (ip : Inode) (d : Disk)
    (v : IsLaidOut ip d)
    → n ≢ 0
    → (inside : InFile ip (off / bsize)) (m : ℕ) → m ≡ min n (bsize - off % bsize)
    → (small : off % bsize + m ≤ bsize)
    → LoopWrites fuel sb
        (λ i. src (m + i))
        (off + m)
        (n - m)
        ip
        (piece ip d v src (off / bsize) (off % bsize) m inside small)
    → LoopWrites (suc fuel) sb src off n ip d
unfolding writei_loop
LoopWrites-next fuel sb src off n ip d v nz inside m is_min small (d', run, (bytes, laid)) =
    let start : off / bsize * bsize + off % bsize ≡ off = omega arith in
    let few : m ≤ n = omega arith in
    let d1 = piece ip d v src (off / bsize) (off % bsize) m inside small in
    (
      d',
      rw
          (
            is_set n nz,
            bmap-IsMapped sb ip d (off / bsize) (v.mapped (off / bsize) inside),
            sym is_min,
          )
          (run ∙ ap (λ k. some (k, ip, d')) (omega arith)),
      (
        λ x l.
            bytes x l
            ∙ ap (λ b. written_as (src (m + (x - (off + m)))) b (off + m) (n - m) x)
                (content-piece ip d v src (off / bsize) (off % bsize) m inside small x l
                  ∙ ap (λ k. written src k m (content ip d) x) start)
            ∙ written-next src (content ip d) off m n x few,
        laid,
      ),
    )

writei_loop-Writes :
    (fuel : ℕ) (sb : Superblock) (src : ℕ → ℕ) (off n : ℕ) (ip : Inode) (d : Disk)
    → IsLaidOut ip d
    → off + n ≤ ip.size
    → Fits fuel off n
    → LoopWrites (suc fuel) sb src off n ip d
writei_loop-Writes fuel sb src off n ip d v room (inl z) =
    LoopWrites-none fuel sb src off n ip d v z
writei_loop-Writes zero sb src off n ip d v room (inr h) =
    LoopWrites-none zero sb src off n ip d v (omega arith)
writei_loop-Writes (suc fuel) sb src off n ip d v room (inr h) = elim (ℕ_discrete n 0) [
  | yes z ↦ LoopWrites-none (suc fuel) sb src off n ip d v z
  | no nz ↦
      let m = min n (bsize - off % bsize) in
      let inside : InFile ip (off / bsize) = omega arith in
      let small : off % bsize + m ≤ bsize = omega arith in
      LoopWrites-next (suc fuel) sb src off n ip d v nz inside m refl small (
        writei_loop-Writes fuel sb (λ i. src (m + i)) (off + m) (n - m) ip
          (piece ip d v src (off / bsize) (off % bsize) m inside small)
          (piece-IsLaidOut ip d v src (off / bsize) (off % bsize) m inside small) (omega arith)
          (Fits-next fuel off n h))
]

-- writei of an inode that is no device, inside the file, whose size fits a file and whose blocks are
-- there, different, and none of them the indirect block: it ends and returns the count; the bytes of
-- the file are those of the buffer in the range written and elsewhere as before, although they are
-- written block by block; the inode stays as it is, and the blocks where they are.
pub writei-Writes :
    (devs : Devsw) (sb : Superblock) (src : ℕ → ℕ) (off n : ℕ) (ip : Inode) (d : Disk)
    → ip.type ≢ t_dev
    → off + n ≤ ip.size
    → ip.size ≤ maxfile * bsize
    → IsLaidOut ip d
    → (d' : Disk) × (writei devs sb src off n ip d ≡ some (n, ip, d')) × Writes ip d src off n d'
unfolding writei
writei-Writes devs sb src off n ip d file room fits v =
    let no_device : (ip.type == t_dev) ≡ false = ground arith in
    let good : (ltb ip.size off || ltb ((off + n) % 2 ^ 32) off) ≡ false = ground arith in
    let below : ltb (maxfile * bsize) ((off + n) % 2 ^ 32) ≡ false = ground arith in
    let (d', run, result) =
      writei_loop-Writes (n / bsize + 2) sb src off n ip d v room (inr (omega arith)) in
    let ends : writei_loop (n / bsize + 3) sb src off n ip d ≡ some (off + n, ip, d') =
      ap (λ f. writei_loop f sb src off n ip d) (omega arith) ∙ run in
    let same_size : (not (n == 0) && ltb ip.size (off + n)) ≡ false = ground arith in
    (d', rw (no_device, good, below, ends, same_size) refl, result)
