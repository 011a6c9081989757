-- ===== src/Ftable/Write.antt =====
-- filewrite on an inode: the pieces that it writes add up to the whole buffer.
use osp.Prelude.{
  ℕ, zero, suc, ◌+◌, ◌-◌, ◌*◌, ◌/◌, ◌%◌, ◌^◌, ◌≤◌, ◌<◌, ◌≡◌, refl, true, false, ◌&&◌, Option, some,
  arith, ltb, leb, ◌==◌, if◌then◌else◌, ◌∙◌, ap,
}
use native.Mathlib.Decide.{ℕ_discrete, dec_lt}
use osp.Mmap.{minus_one, slt}
use osp.Munmap.{Files}
use osp.Ftable.{File, fd_inode, Lower, max_write, chunk, advance, write_loop, write_as, filewrite}

-- A content of `size` bytes of the inode `ip`, in the states that are good: a write inside of it fails
-- in none of them, writes all its bytes at their offset, and leaves a good state, and so do the calls
-- around it, which change no byte.
pub record Stores {S : Type 0} (fs : Files S) (ip : ℕ) (IsGood : S → Type 0) (size : ℕ)
    (view : S → ℕ → ℕ) : Type 0 where
  pub all_bytes :
      (buf : ℕ → ℕ) (off n : ℕ) (s : S)
      → IsGood s
      → off + n ≤ size
      → ((fs.writei ip buf off n s).0 ≡ n) × IsGood (fs.writei ip buf off n s).1
  pub places :
      (buf : ℕ → ℕ) (off n : ℕ) (s : S)
      → IsGood s
      → off + n ≤ size
      → (o : ℕ) → o < size
      → view (fs.writei ip buf off n s).1 o
        ≡ (if leb off o && ltb o (off + n) then buf (o - off) else view s o)
  pub begins :
      (s : S) → IsGood s → IsGood (fs.begin_op s) × ((o : ℕ) → view (fs.begin_op s) o ≡ view s o)
  pub ends : (s : S) → IsGood s → IsGood (fs.end_op s) × ((o : ℕ) → view (fs.end_op s) o ≡ view s o)
  pub locks :
      (s : S) → IsGood s → IsGood (fs.ilock ip s) × ((o : ℕ) → view (fs.ilock ip s) o ≡ view s o)
  pub unlocks :
      (s : S)
      → IsGood s
      → IsGood (fs.iunlock ip s) × ((o : ℕ) → view (fs.iunlock ip s) o ≡ view s o)

module _ {S : Type 0} (lo : Lower S) (ip : ℕ) (IsGood : S → Type 0) (size : ℕ) (view : S → ℕ → ℕ)
    (law : Stores lo.files ip IsGood size view) (word : size < 2 ^ 32) where
  abbrev opened : S → S
  opened s = lo.files.ilock ip (lo.files.begin_op s)

  -- The state after a piece.
  abbrev piece : (ℕ → ℕ) → ℕ → ℕ → S → S
  piece buf off n s =
      lo.files.end_op (lo.files.iunlock ip (lo.files.writei ip buf off n (opened s)).1)

  opened-IsGood : (s : S) → IsGood s → IsGood (opened s)
  opened-IsGood s g = (law.locks (lo.files.begin_op s) (law.begins s g).0).0

  piece-IsGood :
      (buf : ℕ → ℕ) (off n : ℕ) (s : S) → IsGood s → off + n ≤ size → IsGood (piece buf off n s)
  piece-IsGood buf off n s g le =
      let g1 = (law.all_bytes buf off n (opened s) (opened-IsGood s g) le).1 in
      (law.ends _ (law.unlocks _ g1).0).0

  piece-view :
      (buf : ℕ → ℕ) (off n : ℕ) (s : S)
      → IsGood s
      → off + n ≤ size
      → (o : ℕ) → o < size
      → view (piece buf off n s) o
        ≡ (if leb off o && ltb o (off + n) then buf (o - off) else view s o)
  piece-view buf off n s g le o lt =
      let g1 = (law.all_bytes buf off n (opened s) (opened-IsGood s g) le).1 in
      (law.ends _ (law.unlocks _ g1).0).1 o
      ∙ (law.unlocks _ g1).1 o
      ∙ law.places buf off n (opened s) (opened-IsGood s g) le o lt
      ∙ ap (λ y. if leb off o && ltb o (off + n) then buf (o - off) else y)
          ((law.locks (lo.files.begin_op s) (law.begins s g).0).1 o ∙ (law.begins s g).1 o)

  -- Two pieces in a row are one.
  join :
      (addr : ℕ → ℕ) (i off a b o x y : ℕ)
      → y ≡ (if leb off o && ltb o (off + a) then addr (i + (o - off)) else x)
      → (if leb (off + a) o && ltb o (off + a + b) then addr (i + a + (o - (off + a))) else y)
        ≡ (if leb off o && ltb o (off + (a + b)) then addr (i + (o - off)) else x)
  join addr i off a b o x y e = elim (dec_lt o off) [
    | yes l ↦
        let t1 : leb (off + a) o ≡ false = ground arith in
        let t2 : leb off o ≡ false = ground arith in rw (t1, t2) (rw t2 at e)
    | no g ↦ elim (dec_lt o (off + a)) [
      | yes l ↦
          let t1 : leb (off + a) o ≡ false = ground arith in
          let t2 : (leb off o && ltb o (off + a)) ≡ true = ground arith in
          let t3 : (leb off o && ltb o (off + (a + b))) ≡ true = ground arith in
          rw (t1, t3) (rw t2 at e)
      | no h ↦ elim (dec_lt o (off + a + b)) [
        | yes l ↦
            let t1 : (leb (off + a) o && ltb o (off + a + b)) ≡ true = ground arith in
            let t3 : (leb off o && ltb o (off + (a + b))) ≡ true = ground arith in
            rw (t1, t3) (ap addr (omega arith))
        | no k ↦
            let t1 : (leb (off + a) o && ltb o (off + a + b)) ≡ false = ground arith in
            let t2 : (leb off o && ltb o (off + a)) ≡ false = ground arith in
            let t3 : (leb off o && ltb o (off + (a + b))) ≡ false = ground arith in
            rw (t1, t3) (rw t2 at e)
      ]
    ]
  ]

  write_loop-end :
      (fuel : ℕ) (addr : ℕ → ℕ) (n : ℕ) (f : File) (s : S)
      → n < 2 ^ 31
      → write_loop lo (suc fuel) addr n n f s ≡ some (n, f, s)
  unfolding write_loop
  write_loop-end fuel addr n f s lt = let e : slt n n ≡ false = ground arith in rw e

  write_loop_round :
      (fuel : ℕ) (addr : ℕ → ℕ) (n i c : ℕ) (f : File) (s : S)
      → n < 2 ^ 31
      → i < n
      → f.ip ≡ ip
      → IsGood s
      → f.off + c ≤ size
      → chunk lo n i ≡ c
      → write_loop lo (suc fuel) addr n i f s
        ≡ write_loop lo fuel addr n
            ((i + c) % 2 ^ 32)
            (advance lo c f)
            (piece (λ j. addr (i + j)) f.off c s)
  unfolding write_loop
  write_loop_round fuel addr n i c f s lt il e g le ec =
      let go : slt i n ≡ true = ground arith in
      let (r, _) = law.all_bytes (λ j. addr (i + j)) f.off c (opened s) (opened-IsGood s g) le in
      let pos : slt c 0 ≡ false = ground (arith, ec) in
      let same : (c == c) ≡ true = ground arith in rw (go, e, ec, r, pos, same)

  write_loop-more :
      (fuel : ℕ) (addr : ℕ → ℕ) (n i c : ℕ) (f : File) (s : S)
      → n < 2 ^ 31
      → f.ip ≡ ip
      → IsGood s
      → chunk lo n i ≡ c
      → 0 < c
      → i + c ≤ n
      → f.off + c ≤ size
      → write_loop lo (suc fuel) addr n i f s
        ≡ write_loop lo fuel addr n
            (i + c)
            (record f { off = f.off + c })
            (piece (λ j. addr (i + j)) f.off c s)
  write_loop-more fuel addr n i c f s lt e g ec pos fits room =
      let s1 = piece (λ j. addr (i + j)) f.off c s in
      let moved : advance lo c f ≡ record f { off = f.off + c } = ground arith in
      let next : (i + c) % 2 ^ 32 ≡ i + c = omega arith in
      write_loop_round fuel addr n i c f s lt (omega arith) e g room ec
      ∙ ap (λ j. write_loop lo fuel addr n j (advance lo c f) s1) next
      ∙ ap (λ g. write_loop lo fuel addr n (i + c) g s1) moved

  -- The bytes from `i` on stand in the file from its offset on, which has moved behind them.
  abbrev Stored : (ℕ → ℕ) → ℕ → ℕ → File → S → Option (ℕ × File × S) → Type 0
  Stored addr n i f s result =
      (s' : S) × (result ≡ some (n, record f { off = f.off + (n - i) }, s'))
      × IsGood s'
      × ((o : ℕ)
          → o < size
          → view s' o
            ≡ (if leb f.off o && ltb o (f.off + (n - i)) then addr (i + (o - f.off)) else view s o))

  no_bytes_left :
      (fuel : ℕ) (addr : ℕ → ℕ) (n i : ℕ) (f : File) (s : S)
      → n < 2 ^ 31
      → IsGood s
      → i ≡ n
      → Stored addr n i f s (write_loop lo (suc fuel) addr n i f s)
  no_bytes_left fuel addr n i f s lt g e =
      let none_left : f.off + (n - n) ≡ f.off = omega arith in
      rw e (
        s,
        write_loop-end fuel addr n f s lt ∙ rw none_left refl,
        g,
        λ o _.
            let out : (leb f.off o && ltb o (f.off + (n - n))) ≡ false = ground arith in
            rw out refl,
      )

  -- What holds of the loop from any byte on.
  abbrev Complete : ℕ → (ℕ → ℕ) → ℕ → Type 0
  Complete fuel addr n =
      (i : ℕ) (f : File) (s : S)
      → i ≤ n
      → n - i ≤ fuel * 1536
      → f.off + (n - i) ≤ size
      → f.ip ≡ ip
      → IsGood s
      → Stored addr n i f s (write_loop lo (suc fuel) addr n i f s)

  next_piece :
      (fuel : ℕ) (addr : ℕ → ℕ) (n i c : ℕ) (f : File) (s : S)
      → n < 2 ^ 31
      → Complete fuel addr n
      → f.off + (n - i) ≤ size
      → f.ip ≡ ip
      → IsGood s
      → chunk lo n i ≡ c
      → 0 < c
      → c ≤ n - i
      → n - i - c ≤ fuel * 1536
      → Stored addr n i f s (write_loop lo (suc (suc fuel)) addr n i f s)
  next_piece fuel addr n i c f s lt rest small e g ec pos fits left =
      let f1 = record f { off = f.off + c } in
      let s1 = piece (λ j. addr (i + j)) f.off c s in
      let g1 = piece-IsGood (λ j. addr (i + j)) f.off c s g (omega arith) in
      let (s', run, good, seen) =
        rest (i + c) f1 s1 (omega arith) (omega arith) (omega arith) e g1 in
      let end_ : f.off + c + (n - (i + c)) ≡ f.off + (n - i) = omega arith in
      let split : n - i ≡ c + (n - (i + c)) = omega arith in
      (
        s',
        write_loop-more (suc fuel) addr n i c f s lt e g ec pos (omega arith) (omega arith)
            ∙ run
            ∙ ap (λ o. some (n, record f { off = o }, s')) end_,
        good,
        λ o lo_.
            seen o lo_
            ∙ rw split (
                join addr i f.off c (n - (i + c)) o (view s o) (view s1 o)
                  (piece-view (λ j. addr (i + j)) f.off c s g (omega arith) o lo_)),
      )

  write_loop-Complete : (fuel : ℕ) (addr : ℕ → ℕ) (n : ℕ) → n < 2 ^ 31 → Complete fuel addr n
  write_loop-Complete zero addr n lt i f s le enough small e g =
      no_bytes_left zero addr n i f s lt g (omega arith)
  write_loop-Complete (suc fuel) addr n lt i f s le enough small e g = elim (ℕ_discrete i n) [
    | yes q ↦ no_bytes_left (suc fuel) addr n i f s lt g q
    | no ne ↦
        next_piece fuel addr n i (chunk lo n i) f s lt (write_loop-Complete fuel addr n lt) small e
          g refl (ground arith) (ground arith) (ground arith)
  ]

  filewrite_writable :
      (addr : ℕ → ℕ) (n : ℕ) (f : File) (s : S)
      → f.writable ≡ true
      → filewrite lo addr n f s ≡ write_as lo f.type addr n f s
  unfolding filewrite
  filewrite_writable addr n f s w =
      ap (λ b. if b then write_as lo f.type addr n f s else some (minus_one, f, s)) w

  write_as_inode :
      (addr : ℕ → ℕ) (n : ℕ) (f f1 : File) (s s1 : S)
      → write_loop lo (n / max_write lo + 2) addr n 0 f s ≡ some (n, f1, s1)
      → write_as lo fd_inode addr n f s ≡ some (n, f1, s1)
  unfolding write_as
  write_as_inode addr n f f1 s s1 e = let same : (n == n) ≡ true = ground arith in rw (e, same)

  -- filewrite to a writable file of an inode, in a good state, of a non-negative int count that lies
  -- inside the content: the loop ends, the result is the count, the offset has moved by it, the state
  -- is good, and the content of the inode is the old one with the buffer at the old offset, however
  -- the bytes were split.
  pub filewrite-Stores :
      (addr : ℕ → ℕ) (n : ℕ) (f : File) (s : S)
      → n < 2 ^ 31
      → f.off + n ≤ size
      → f.ip ≡ ip
      → f.writable ≡ true
      → f.type ≡ fd_inode
      → IsGood s
      → (s' : S) × (filewrite lo addr n f s ≡ some (n, record f { off = f.off + n }, s'))
        × IsGood s'
        × ((o : ℕ)
            → o < size
            → view s' o ≡ (if leb f.off o && ltb o (f.off + n) then addr (o - f.off) else view s o))
  filewrite-Stores addr n f s lt small e w t g =
      let (s', run, good, seen) =
        write_loop-Complete (n / 1536 + 1) addr n lt 0 f s (omega arith) (omega arith) (omega arith)
          e g in
      let all : n - 0 ≡ n = omega arith in
      let fuel : n / max_write lo + 2 ≡ suc (n / 1536 + 1) = omega arith in
      (
        s',
        filewrite_writable addr n f s w
            ∙ ap (λ y. write_as lo y addr n f s) t
            ∙ write_as_inode addr n f (record f { off = f.off + n }) s s'
                (ap (λ g. write_loop lo g addr n 0 f s) fuel
                  ∙ run
                  ∙ ap (λ d. some (n, record f { off = f.off + d }, s')) all),
        good,
        λ o lo_.
            seen o lo_
            ∙ ap
                (λ d. if leb f.off o && ltb o (f.off + d) then addr (0 + (o - f.off)) else view s o)
                all
            ∙ ap (λ d. if leb f.off o && ltb o (f.off + n) then addr d else view s o) (omega arith),
      )
