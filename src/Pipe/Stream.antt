-- ===== src/Pipe/Stream.antt =====
-- A writer and a reader on one pipe: every interleaving delivers the writer's bytes in order.
use osp.Prelude.{
  ℕ, zero, suc, ◌≤◌, ◌≡◌, refl, ◌⊎◌, inl, inr, true, false, not, ◌||◌, List, [], ◌∷◌, ◌++◌, arith,
  leb, if◌then◌else◌, length, take, drop, Bool-cases, ap, ◌∙◌,
}
use mathlib.Core.List.{append-nil, append_assoc}
use osp.Pipe.{Pipe, Wrote, pipewrite, Read, piperead}
use osp.Pipe.Window.{contents, IsValid}
use osp.Pipe.Refine.{free, pipewrite-Writes, Waits, Gets, piperead-Copies}

-- The writer has still to send `todo`; the reader has `received` so far.
pub record System : Type 0 where
  pub pipe : Pipe
  pub todo : List ℕ
  pub received : List ℕ

-- The scheduler lets the writer go on with its call, or the reader make a call for `n` bytes.
pub data Turn : Type 0 where
  writer : Turn
  reader : ℕ → Turn

-- What the writer has left when its call stops.
abbrev pub unsent : Wrote → List ℕ → List ℕ
unsent Wrote.done bs = []
unsent Wrote.failed bs = bs
unsent (Wrote.asleep rest) bs = rest

abbrev pub obtained : Read → List ℕ
obtained (Read.got bs) = bs
obtained Read.failed = []
obtained Read.asleep = []

unfoldable pub turn : Turn → System → System
turn writer s =
    let (w, p, _) = pipewrite false s.todo s.pipe in record s { pipe = p; todo = unsent w s.todo }
turn (reader n) s =
    let (r, p, _) = piperead false n s.pipe in
    record s { pipe = p; received = s.received ++ obtained r }

unfoldable pub play : List Turn → System → System
unfolding turn
play [] s = s
play (t ∷ ts) s = play ts (turn t s)

-- The bytes received, those in the pipe and those still to be sent are the message.
pub record Carries (message : List ℕ) (s : System) : Type 0 where
  pub valid : IsValid s.pipe
  pub can_read : s.pipe.readopen ≡ true
  pub whole : s.received ++ contents s.pipe ++ s.todo ≡ message

take-drop : (n : ℕ) (xs : List ℕ) → take n xs ++ drop n xs ≡ xs
take-drop zero xs = refl
take-drop (suc n) [] = refl
take-drop (suc n) (x ∷ xs) = rw (take-drop n xs)

take-all : (n : ℕ) (xs : List ℕ) → length xs ≤ n → take n xs ≡ xs
take-all zero [] h = refl
take-all zero (x ∷ xs) h = absurd (omega arith)
take-all (suc n) [] h = refl
take-all (suc n) (x ∷ xs) h = rw (take-all n xs (omega arith))

-- With a reader at the other end, what a write has taken and what it has left make up the bytes.
unsent_rest :
    (bs : List ℕ) (p : Pipe) (w : Wrote)
    → p.readopen ≡ true
    → w ≡ (
        if leb (length bs) (free p)
        then Wrote.done
        else if not p.readopen || false
        then Wrote.failed
        else Wrote.asleep (drop (free p) bs))
    → take (free p) bs ++ unsent w bs ≡ bs
unsent_rest bs p w can e = elim (Bool-cases (leb (length bs) (free p))) [
  | inl fits ↦ rw (e, fits) (append-nil (take (free p) bs) ∙ take-all (free p) bs (ground arith))
  | inr over ↦ rw (e, over, can) (take-drop (free p) bs)
]

regroup : (a b c d : List ℕ) → a ++ (b ++ c) ++ d ≡ a ++ b ++ (c ++ d)
regroup a b c d = simp append_assoc

rejoin : (a b c d : List ℕ) → a ++ b ++ c ++ d ≡ a ++ (b ++ c) ++ d
rejoin a b c d = simp append_assoc

turn_writer-Carries : (m : List ℕ) (s : System) → Carries m s → Carries m (turn writer s)
unfolding turn
turn_writer-Carries m s c =
    let w = pipewrite-Writes false s.todo s.pipe c.valid in
    let rest = unsent (pipewrite false s.todo s.pipe).0 s.todo in
    record {
      valid = w.valid;
      can_read = w.flags.0 ∙ c.can_read;
      whole =
          ap (λ l. s.received ++ l ++ rest) w.bytes
          ∙ regroup s.received (contents s.pipe) (take (free s.pipe) s.todo) rest
          ∙ ap (λ l. s.received ++ contents s.pipe ++ l)
              (unsent_rest s.todo s.pipe (pipewrite false s.todo s.pipe).0 c.can_read w.status)
          ∙ c.whole;
    }

turn_reader-Carries :
    (m : List ℕ) (n : ℕ) (s : System) → Carries m s → Carries m (turn (reader n) s)
unfolding turn
turn_reader-Carries m n s c = by_case (piperead-Copies false n s.pipe c.valid)
  where
    by_case : Waits false n s.pipe ⊎ Gets false n s.pipe → Carries m (turn (reader n) s)
    by_case (inl (_, e)) =
        rw e (record { valid = c.valid; can_read = c.can_read; whole = rw append-nil c.whole })
    by_case (inr (p', _, e, v, left, ro, _)) = rw e (record {
      valid = v;
      can_read = ro ∙ c.can_read;
      whole =
          ap (λ l. s.received ++ take n (contents s.pipe) ++ l ++ s.todo) left
          ∙ rejoin s.received (take n (contents s.pipe)) (drop n (contents s.pipe)) s.todo
          ∙ ap (λ l. s.received ++ l ++ s.todo) (take-drop n (contents s.pipe))
          ∙ c.whole;
    })

-- Whatever turns the scheduler gives to the two, the message stays whole and in order.
pub play-Carries : (ts : List Turn) (m : List ℕ) (s : System) → Carries m s → Carries m (play ts s)
unfolding play
play-Carries [] m s c = c
play-Carries (writer ∷ ts) m s c = play-Carries ts m (turn writer s) (turn_writer-Carries m s c)
play-Carries (reader n ∷ ts) m s c =
    play-Carries ts m (turn (reader n) s) (turn_reader-Carries m n s c)
