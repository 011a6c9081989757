-- ===== src/Fs/Inode/Read.antt =====
-- readi copies what the blocks of the file hold.
use osp.Prelude.{
  ℕ, zero, suc, ◌+◌, ◌-◌, ◌*◌, ◌/◌, ◌%◌, ◌^◌, ◌≤◌, ◌<◌, ◌≡◌, ◌≢◌, refl, ◌⊎◌, inl, inr, true, false,
  ◌||◌, some, ◌∷◌, ◌++◌, arith, ltb, ◌==◌, if◌then◌else◌, min, Bool-cases, ◌∙◌, sym, ap, subst,
}
use native.Mathlib.Decide.{ℕ_discrete, dec_le}
use osp.Fs.Bitmap.{bsize, Superblock, Disk}
use osp.Fs.Inode.{ndirect, nindirect, Inode, get_word, bmap}
use osp.Fs.Inode.Content.{Devsw, t_dev, bytes_from, readi_loop, readi}

-- The block that holds the block `k` of the file.
abbrev pub block_of : Inode → Disk → ℕ → ℕ
block_of ip d k =
    if ltb k ndirect then ip.addrs k else get_word (d.blocks (ip.addrs ndirect)) (4 * (k - ndirect))

-- The block `k` of the file is there.
abbrev pub IsMapped : Inode → Disk → ℕ → Type 0
IsMapped ip d k =
    (k < ndirect + nindirect) × (block_of ip d k ≢ 0) × ((k < ndirect) ⊎ (ip.addrs ndirect ≢ 0))

-- The byte `x` of the file.
abbrev pub content : Inode → Disk → ℕ → ℕ
content ip d x = d.blocks (block_of ip d (x / bsize)) (x % bsize)

pub is_set : (a : ℕ) → a ≢ 0 → (a == 0) ≡ false
is_set a ne = ground arith

pub bmap-IsMapped :
    (sb : Superblock) (ip : Inode) (d : Disk) (k : ℕ)
    → IsMapped ip d k
    → bmap sb ip k d ≡ some (block_of ip d k, ip, d)
unfolding bmap
bmap-IsMapped sb ip d k (small, there, table) = elim (Bool-cases (ltb k ndirect)) [
  | inl y ↦
      let same : block_of ip d k ≡ ip.addrs k = rw y refl in
      rw (y, is_set (ip.addrs k) (λ z. there (same ∙ z))) refl
  | inr n ↦
      let entry = get_word (d.blocks (ip.addrs ndirect)) (4 * (k - ndirect)) in
      let same : block_of ip d k ≡ entry = rw n refl in
      let few : ltb (k - ndirect) nindirect ≡ true = ground arith in
      let has_table : ip.addrs ndirect ≢ 0 = elim table [
        | inl direct ↦ absurd (ground arith)
        | inr indirect ↦ indirect
      ] in
      rw (n, few, is_set (ip.addrs ndirect) has_table, is_set entry (λ z. there (same ∙ z))) refl
]

content-block :
    (ip : Inode) (d : Disk) (q o : ℕ)
    → o < bsize
    → content ip d (q * bsize + o) ≡ d.blocks (block_of ip d q) o
content-block ip d q o h =
    ap (λ k. d.blocks (block_of ip d k) ((q * bsize + o) % bsize)) (omega arith)
    ∙ ap (d.blocks (block_of ip d q)) (omega arith)

bytes_from-block :
    (ip : Inode) (d : Disk) (q m o : ℕ)
    → o + m ≤ bsize
    → bytes_from (d.blocks (block_of ip d q)) o m ≡ bytes_from (content ip d) (q * bsize + o) m
unfolding bytes_from
bytes_from-block ip d q zero o h = refl
bytes_from-block ip d q (suc m) o h =
    ap (λ b. b ∷ bytes_from (d.blocks (block_of ip d q)) (o + 1) m)
      (sym (content-block ip d q o (omega arith)))
    ∙ ap (λ l. content ip d (q * bsize + o) ∷ l)
        (bytes_from-block ip d q m (o + 1) (omega arith)
          ∙ ap (λ k. bytes_from (content ip d) k m) (omega arith))

bytes_from-cons : (f : ℕ → ℕ) (o m : ℕ) → bytes_from f o (suc m) ≡ f o ∷ bytes_from f (o + 1) m
unfolding bytes_from
bytes_from-cons f o m = refl

bytes_from-append :
    (f : ℕ → ℕ) (m k o : ℕ) → bytes_from f o m ++ bytes_from f (o + m) k ≡ bytes_from f o (m + k)
unfolding bytes_from
bytes_from-append f zero k o =
    ap (λ i. bytes_from f i k) (omega arith) ∙ ap (bytes_from f o) (omega arith)
bytes_from-append f (suc m) k o =
    ap (λ l. f o ∷ l)
      (ap (λ i. bytes_from f (o + 1) m ++ bytes_from f i k) (omega arith)
        ∙ bytes_from-append f m k (o + 1))
    ∙ sym (bytes_from-cons f o (m + k))
    ∙ ap (bytes_from f o) {x = suc (m + k)} (omega arith)

-- What is left after a round, of which `fuel` more can follow.
abbrev pub Fits : ℕ → ℕ → ℕ → Type 0
Fits fuel off n = (n ≡ 0) ⊎ (off % bsize + n ≤ fuel * bsize)

pub Fits-next :
    (fuel off n : ℕ)
    → off % bsize + n ≤ suc fuel * bsize
    → Fits fuel (off + min n (bsize - off % bsize)) (n - min n (bsize - off % bsize))
Fits-next fuel off n h = elim (dec_le n (bsize - off % bsize)) [
  | yes all ↦ inl (omega arith)
  | no some_left ↦
      let whole : min n (bsize - off % bsize) ≡ bsize - off % bsize = omega arith in
      let start : (off + (bsize - off % bsize)) % bsize ≡ 0 = omega arith in
      inr (rw (whole, start) (omega arith))
]

-- One round and the others, on a file whose blocks are there.
module _ (sb : Superblock) (ip : Inode) (d : Disk) where
  abbrev Reads : ℕ → ℕ → ℕ → Type 0
  Reads fuel off n = readi_loop fuel sb off n ip d ≡ some (bytes_from (content ip d) off n, ip, d)

  Reads-none : (fuel off : ℕ) → Reads (suc fuel) off 0
  unfolding readi_loop bytes_from
  Reads-none fuel off = refl

  Reads-next :
      (fuel off n : ℕ)
      → n ≢ 0
      → IsMapped ip d (off / bsize)
      → Reads fuel (off + min n (bsize - off % bsize)) (n - min n (bsize - off % bsize))
      → Reads (suc fuel) off n
  unfolding readi_loop
  Reads-next fuel off n nz there more =
      let m = min n (bsize - off % bsize) in
      let here : bytes_from (d.blocks (block_of ip d (off / bsize))) (off % bsize) m
          ≡ bytes_from (content ip d) off m =
        bytes_from-block ip d (off / bsize) m (off % bsize) (omega arith)
        ∙ ap (λ k. bytes_from (content ip d) k m) (omega arith) in
      rw (is_set n nz, bmap-IsMapped sb ip d (off / bsize) there, more)
        (ap (λ l. some (l, ip, d))
          (ap (λ l. l ++ bytes_from (content ip d) (off + m) (n - m)) here
            ∙ bytes_from-append (content ip d) m (n - m) off
            ∙ ap (bytes_from (content ip d) off) (omega arith)))

  readi_loop-Reads :
      (fuel off n : ℕ)
      → ((k : ℕ) → k * bsize < off + n → IsMapped ip d k)
      → Fits fuel off n
      → Reads (suc fuel) off n
  readi_loop-Reads fuel off n there (inl z) =
      subst (Reads (suc fuel) off) (sym z) (Reads-none fuel off)
  readi_loop-Reads zero off n there (inr h) =
      subst (Reads 1 off) (omega arith) (Reads-none zero off)
  readi_loop-Reads (suc fuel) off n there (inr h) = elim (ℕ_discrete n 0) [
    | yes z ↦ subst (Reads (suc (suc fuel)) off) (sym z) (Reads-none (suc fuel) off)
    | no nz ↦
        let m = min n (bsize - off % bsize) in
        Reads-next (suc fuel) off n nz (there (off / bsize) (omega arith)) (
          readi_loop-Reads fuel (off + m) (n - m) (λ k l. there k (omega arith))
            (Fits-next fuel off n h))
  ]

-- readi of an inode that is no device, at an offset that is not behind the end, of a count that does not
-- wrap behind it, where the blocks of the file up to its size are there: it ends and returns the count,
-- or what there is up to the end of the file if that is less, and copies exactly these bytes of the
-- file, in order, although it takes them block by block; the inode and the disk stay as they are.
pub readi-content :
    (devs : Devsw) (sb : Superblock) (off n : ℕ) (ip : Inode) (d : Disk)
    → ip.type ≢ t_dev
    → off ≤ ip.size
    → off + n < 2 ^ 32
    → ((k : ℕ) → k * bsize < ip.size → IsMapped ip d k)
    → readi devs sb off n ip d
      ≡ some (min n (ip.size - off), bytes_from (content ip d) off (min n (ip.size - off)), ip, d)
unfolding readi
readi-content devs sb off n ip d file within room there =
    let count = min n (ip.size - off) in
    let no_device : (ip.type == t_dev) ≡ false = ground arith in
    let good : (ltb ip.size off || ltb ((off + n) % 2 ^ 32) off) ≡ false = ground arith in
    let cut : (if ltb ip.size ((off + n) % 2 ^ 32) then ip.size - off else n) ≡ count =
      ground arith in
    let all_read =
      readi_loop-Reads sb ip d (count / bsize + 2) off count (λ k l. there k (omega arith))
        (inr (omega arith)) in
    let ends : readi_loop (count / bsize + 3) sb off count ip d
        ≡ some (bytes_from (content ip d) off count, ip, d) =
      ap (λ f. readi_loop f sb off count ip d) (omega arith) ∙ all_read in
    rw (no_device, good, cut, ends) refl
