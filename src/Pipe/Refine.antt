-- ===== src/Pipe/Refine.antt =====
-- pipewrite and piperead against a bounded queue of bytes.
use osp.Prelude.{
  ℕ, zero, suc, ◌+◌, ◌-◌, ◌%◌, ◌^◌, ◌<◌, ◌≡◌, refl, inl, inr, Bool, true, false, not, ◌&&◌, ◌||◌,
  List, [], ◌∷◌, ◌++◌, arith, leb, ◌==◌, if◌then◌else◌, length, take, drop, Bool-cases, ap, ◌∙◌,
  sym, take-nil, ◌⊎◌,
}
use mathlib.Core.List.{append-nil, append_assoc}
use osp.Pipe.{
  pipesize, Pipe, nread_chan, nwrite_chan, Chan, Wrote, put, is_full, pipewrite, Read, copy_out,
  piperead,
}
use osp.Pipe.Window.{size, contents, IsValid, window-mod, window-put}

full_iff : (p : Pipe) → IsValid p → is_full p ≡ (size p == pipesize)
full_iff p v = ground arith

-- A byte put into a pipe that is not full stands behind the others.
module _ (b : ℕ) (p : Pipe) (v : IsValid p) (room : size p < pipesize) where
  size-put : size (put b p) ≡ suc (size p)
  unfolding put
  size-put = omega (arith, v.read_word, v.write_word)

  put-IsValid : IsValid (put b p)
  unfolding put
  put-IsValid = record {
    read_word = v.read_word;
    write_word = omega arith;
    fits = omega (arith, v.read_word, v.write_word);
  }

  contents-put : contents (put b p) ≡ contents p ++ (b ∷ [])
  unfolding put
  contents-put = rw size-put (
      window-put p.bytes b p.nread (size p) (p.nwrite % pipesize) room
        (omega (arith, v.read_word, v.write_word)))

-- Bytes that the pipe still takes.
abbrev pub free : Pipe → ℕ
free p = pipesize - size p

-- What a write must have done when it stops.
pub record Writes (killed : Bool) (bs : List ℕ) (p : Pipe) (out : Wrote × Pipe × List Chan)
    : Type 0 where
  pub valid : IsValid out.1
  pub bytes : contents out.1 ≡ contents p ++ take (free p) bs
  pub status : out.0 ≡ (
      if leb (length bs) (free p)
      then Wrote.done
      else if not p.readopen || killed
      then Wrote.failed
      else Wrote.asleep (drop (free p) bs))
  pub flags : (out.1.readopen ≡ p.readopen) × (out.1.writeopen ≡ p.writeopen)
  pub position : out.1.nread ≡ p.nread

take-free :
    (p : Pipe) (b : ℕ) (bs : List ℕ) (k : ℕ)
    → free p ≡ suc k
    → take (free p) (b ∷ bs) ≡ b ∷ take k bs
take-free p b bs k e = rw e

-- With no room a write stops at once.
stuck-Writes :
    (killed : Bool) (b : ℕ) (bs : List ℕ) (p : Pipe)
    → IsValid p
    → free p ≡ 0
    → Writes killed (b ∷ bs) p (
        if not p.readopen || killed
        then (Wrote.failed, p, [])
        else (Wrote.asleep (b ∷ bs), p, nread_chan ∷ []))
stuck-Writes killed b bs p v e = elim (Bool-cases (not p.readopen || killed)) [
  | inl stop ↦ rw stop (record {
    valid = v;
    bytes = same;
    status = rw (e, stop) (ground arith);
    flags = (refl, refl);
    position = refl;
  })
  | inr wait ↦ rw wait (record {
    valid = v;
    bytes = same;
    status = rw (e, wait) (ground arith);
    flags = (refl, refl);
    position = refl;
  })
]
  where
    same : contents p ≡ contents p ++ take (free p) (b ∷ bs)
    same = rw e (sym (append-nil (contents p)))

-- The status after one byte more, from that of the rest.
status_step :
    (killed : Bool) (b : ℕ) (bs : List ℕ) (p : Pipe) (k : ℕ)
    → free p ≡ suc k
    → (if leb (length bs) k
        then Wrote.done
        else if not p.readopen || killed
        then Wrote.failed
        else Wrote.asleep (drop k bs))
      ≡ (if leb (length (b ∷ bs)) (free p)
          then Wrote.done
          else if not p.readopen || killed
          then Wrote.failed
          else Wrote.asleep (drop (free p) (b ∷ bs)))
status_step killed b bs p k e = rw e (ground arith)

-- pipewrite takes as many bytes as there is room for, in order. It then reports that all are written,
-- or -1 if no one can read or the caller is killed, or sleeps with the others left over.
pub pipewrite-Writes :
    (killed : Bool) (bs : List ℕ) (p : Pipe)
    → IsValid p
    → Writes killed bs p (pipewrite killed bs p)
unfolding pipewrite
pipewrite-Writes killed [] p v = record {
  valid = v;
  bytes = sym (append-nil (contents p)) ∙ ap (λ l. contents p ++ l) (sym (take-nil ℕ (free p)));
  status = ground arith;
  flags = (refl, refl);
  position = refl;
}
pipewrite-Writes killed (b ∷ bs) p v = elim (Bool-cases (is_full p)) [
  | inl full ↦
      let none_left : free p ≡ 0 = ground (arith, full_iff p v) in
      rw full (stuck-Writes killed b bs p v none_left)
  | inr open_ ↦
      let room : size p < pipesize = ground (arith, full_iff p v, v.fits) in
      let left : free p ≡ suc (free (put b p)) = omega (arith, size-put b p v room) in
      let w = pipewrite-Writes killed bs (put b p) (put-IsValid b p v room) in
      rw open_ (record {
        valid = w.valid;
        bytes =
            w.bytes
            ∙ ap (λ l. l ++ take (free (put b p)) bs) (contents-put b p v room)
            ∙ append_assoc (contents p) (b ∷ []) (take (free (put b p)) bs)
            ∙ ap (λ l. contents p ++ l) (sym (take-free p b bs (free (put b p)) left));
        status = w.status ∙ status_step killed b bs p (free (put b p)) left;
        flags = w.flags;
        position = w.position;
      })
]

-- What a copy of at most `n` bytes must have done.
pub record Copies (n : ℕ) (p : Pipe) (out : List ℕ × Pipe) : Type 0 where
  pub valid : IsValid out.1
  pub copied : out.0 ≡ take n (contents p)
  pub left : contents out.1 ≡ drop n (contents p)
  pub flags : (out.1.readopen ≡ p.readopen) × (out.1.writeopen ≡ p.writeopen)

-- The pipe after one byte is taken.
abbrev popped : Pipe → Pipe
popped p = record p { nread = (p.nread + 1) % 2 ^ 32 }

module _ (p : Pipe) (v : IsValid p) (k : ℕ) (some_bytes : size p ≡ suc k) where
  popped-IsValid : IsValid (popped p)
  popped-IsValid = record {
    read_word = omega arith;
    write_word = v.write_word;
    fits = omega (arith, v.read_word, v.write_word, v.fits);
  }

  contents-popped : contents p ≡ p.bytes (p.nread % pipesize) ∷ contents (popped p)
  contents-popped =
      let less : size (popped p) ≡ k = omega (arith, v.read_word, v.write_word, v.fits) in
      rw (some_bytes, less)
        (ap (λ l. p.bytes (p.nread % pipesize) ∷ l)
          (window-mod p.bytes (p.nread + 1) ((p.nread + 1) % 2 ^ 32) k (omega arith)))

drop-nil : (n : ℕ) → drop {A = ℕ} n [] ≡ []
drop-nil zero = refl
drop-nil (suc n) = refl

copy_out-Copies : (n : ℕ) (p : Pipe) → IsValid p → Copies n p (copy_out n p)
unfolding copy_out
copy_out-Copies zero p v = record { valid = v; copied = refl; left = refl; flags = (refl, refl) }
copy_out-Copies (suc n) p v = elim (Bool-cases (p.nread == p.nwrite)) [
  | inl empty ↦
      let none_held : size p ≡ 0 = ground (arith, v.read_word) in
      rw empty
        (record { valid = v; copied = rw none_held; left = rw none_held; flags = (refl, refl) })
  | inr more ↦
      let held : size p ≡ suc (size p - 1) = ground (arith, v.read_word, v.write_word) in
      let c = copy_out-Copies n (popped p) (popped-IsValid p v (size p - 1) held) in
      let split = contents-popped p v (size p - 1) held in
      rw more (record {
        valid = c.valid;
        copied =
            ap (λ l. p.bytes (p.nread % pipesize) ∷ l) c.copied ∙ ap (take (suc n)) (sym split);
        left = c.left ∙ ap (drop (suc n)) (sym split);
        flags = c.flags;
      })
]

empty_iff : (p : Pipe) → IsValid p → (p.nread == p.nwrite) ≡ (size p == 0)
empty_iff p v = ground arith

-- The pipe is empty and has a writer: the call fails or sleeps, and changes nothing.
abbrev pub Waits : Bool → ℕ → Pipe → Type 0
Waits killed n p =
    (((size p == 0) && p.writeopen) ≡ true)
    × (piperead killed n p ≡ (if killed then Read.failed else Read.asleep, p, []))

-- The call returns the bytes at the front, `n` at most.
abbrev pub Gets : Bool → ℕ → Pipe → Type 0
Gets killed n p =
    (p' : Pipe) × (((size p == 0) && p.writeopen) ≡ false)
    × (piperead killed n p ≡ (Read.got (take n (contents p)), p', nwrite_chan ∷ []))
    × IsValid p'
    × (contents p' ≡ drop n (contents p))
    × (p'.readopen ≡ p.readopen)
    × (p'.writeopen ≡ p.writeopen)

-- piperead on an empty pipe with a writer: -1 for a killed caller, else it sleeps; nothing changes.
-- Otherwise it returns the first `n` bytes, or all if there are fewer, and leaves the others.
pub piperead-Copies :
    (killed : Bool) (n : ℕ) (p : Pipe) → IsValid p → Waits killed n p ⊎ Gets killed n p
unfolding piperead
piperead-Copies killed n p v = elim (Bool-cases (p.nread == p.nwrite && p.writeopen)) [
  | inl wait ↦ inl (rw (← empty_iff p v) wait, rw wait (one_pipe killed))
  | inr ready ↦
      let c = copy_out-Copies n p v in
      inr (
        (copy_out n p).1,
        rw (← empty_iff p v) ready,
        rw ready (ap (λ l. (Read.got l, (copy_out n p).1, nwrite_chan ∷ [])) c.copied),
        c.valid,
        c.left,
        c.flags.0,
        c.flags.1,
      )
]
  where
    one_pipe :
        (stop : Bool)
        → ◌≡◌ {A = Read × Pipe × List Chan}
            (if stop then (Read.failed, p, []) else (Read.asleep, p, []))
            (if stop then Read.failed else Read.asleep, p, [])
    one_pipe true = refl
    one_pipe false = refl
