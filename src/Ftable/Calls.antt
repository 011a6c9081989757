-- ===== src/Ftable/Calls.antt =====
-- Sequences of filealloc, filedup and fileclose by clients who use the files that they hold.
use osp.Prelude.{
  ℕ, ◌+◌, ◌-◌, ◌^◌, ◌<◌, ◌≡◌, refl, true, false, Option, none, some, List, [], ◌∷◌, arith, ◌==◌,
  if◌then◌else◌, ◌>>=◌, update, ◌∙◌, sym,
}
use native.Mathlib.Decide.{ℕ_discrete}
use osp.Ftable.{fd_none, Ftable, nfile, Lower, filealloc, filedup, release_file, fileclose}
use osp.Ftable.Refs.{
  count, give_up, IsCounted, filealloc-some, filealloc-none, filedup-held, fileclose-more,
  fileclose-last, one_more-IsCounted, one_less-IsCounted,
}

-- The calls of the kernel's clients.
pub data Call : Type 0 where
  alloc : Call
  dup close : ℕ → Call

-- The table, the references that clients hold, and what lies below the table.
pub record State (S : Type 0) : Type 0 where
  pub table : Ftable
  pub held : List ℕ
  pub below : S

module _ {S : Type 0} (lo : Lower S) where
  abbrev allocated : Option ℕ × Ftable → State S → State S
  allocated (none, t) st = record st { table = t }
  allocated (some i, t) st = record st { table = t; held = i ∷ st.held }

  abbrev pub call : Call → State S → Option (State S)
  call alloc st = some (allocated (filealloc st.table) st)
  call (dup i) st = do t ← filedup i st.table; some (record st { table = t; held = i ∷ st.held })
  call (close i) st = do
    (t, s) ← fileclose lo i st.table st.below
    some (record { table = t; held = give_up i st.held; below = s })

  abbrev pub calls : List Call → State S → Option (State S)
  calls [] st = some st
  calls (c ∷ cs) st = call c st >>= calls cs

  -- A file is duplicated and closed by one who holds it.
  abbrev pub Allowed : Call → State S → Type 0
  Allowed alloc st = Unit
  Allowed (dup i) st = (i < nfile) × (0 < count i st.held) × (count i st.held + 1 < 2 ^ 31)
  Allowed (close i) st = (i < nfile) × (0 < count i st.held)

  abbrev pub AllAllowed : List Call → State S → Type 0
  AllAllowed [] st = Unit
  AllAllowed (c ∷ cs) st =
      Allowed c st × ((st' : State S) → call c st ≡ some st' → AllAllowed cs st')

  -- What a call does below the table: the last close of a file releases it, nothing else does.
  abbrev pub Below : Call → State S → State S → Type 0
  Below (close i) st st' = st'.below ≡ (
      if count i st.held == 1
      then release_file lo (st.table i).type (st.table i) st.below
      else st.below)
  Below _ st st' = st'.below ≡ st.below

  alloc-IsCounted :
      (st : State S) (r : Option ℕ × Ftable)
      → filealloc st.table ≡ r
      → IsCounted st.table st.held
      → (st' : State S) × (some (allocated r st) ≡ some st')
        × IsCounted st'.table st'.held
        × (st'.below ≡ st.below)
  alloc-IsCounted st (none, t) e v =
      let same = filealloc-none st.table t e in (_, refl, rw same v, refl)
  alloc-IsCounted st (some i, t) e v =
      let (z, lt, moved) = filealloc-some st.table t i e in
      let c : count i st.held ≡ 0 = sym (v.counts i lt) ∙ z in
      (
        _,
        refl,
        rw moved (
            one_more-IsCounted st.table st.held i (record (st.table i) { ref = 1 }) v (rw c refl)
              (rw c (omega arith))),
        refl,
      )

  close-IsCounted :
      (i : ℕ) (st : State S)
      → IsCounted st.table st.held
      → i < nfile
      → 0 < count i st.held
      → (st' : State S) × (call (close i) st ≡ some st')
        × IsCounted st'.table st'.held
        × Below (close i) st st'
  close-IsCounted i st v lt pos = elim (ℕ_discrete (count i st.held) 1) [
    | yes one ↦
        let n : (st.table i).ref ≡ 1 = v.counts i lt ∙ one in
        let last : (count i st.held == 1) ≡ true = ground arith in
        (
          record {
            table = update st.table i (record (st.table i) { ref = 0; type = fd_none });
            held = give_up i st.held;
            below = release_file lo (st.table i).type (st.table i) st.below;
          },
          rw (fileclose-last st.table i lo st.below n) refl,
          one_less-IsCounted st.table st.held i (record (st.table i) { ref = 0; type = fd_none }) v
              (omega arith),
          rw last refl,
        )
    | no many ↦
        let n = v.counts i lt in
        let more : (count i st.held == 1) ≡ false = ground arith in
        (
          record {
            table = update st.table i (record (st.table i) { ref = (st.table i).ref - 1 });
            held = give_up i st.held;
            below = st.below;
          },
          rw (fileclose-more st.table i lo st.below (omega arith) (omega (arith, v.few i))) refl,
          one_less-IsCounted st.table st.held i (record (st.table i) { ref = (st.table i).ref - 1 })
              v (omega arith),
          rw more refl,
        )
  ]

  -- An allowed call on a table that counts its references does not panic, and the table counts them
  -- afterwards; the file is released when its last reference is closed, and only then.
  pub call-IsCounted :
      (c : Call) (st : State S)
      → IsCounted st.table st.held
      → Allowed c st
      → (st' : State S) × (call c st ≡ some st') × IsCounted st'.table st'.held × Below c st st'
  call-IsCounted alloc st v a = alloc-IsCounted st (filealloc st.table) refl v
  call-IsCounted (dup i) st v (lt, pos, small) =
      let n = v.counts i lt in
      let run = filedup-held st.table i (rw n pos) (rw n small) in
      (
        record st {
          table = update st.table i (record (st.table i) { ref = (st.table i).ref + 1 });
          held = i ∷ st.held;
        },
        rw run,
        one_more-IsCounted st.table st.held i (record (st.table i) { ref = (st.table i).ref + 1 }) v
            (rw n refl) small,
        refl,
      )
  call-IsCounted (close i) st v (lt, pos) = close-IsCounted i st v lt pos

  -- Any sequence of allowed calls on a table that counts its references runs without a panic and keeps
  -- that count.
  pub calls-IsCounted :
      (cs : List Call) (st : State S)
      → IsCounted st.table st.held
      → AllAllowed cs st
      → (st' : State S) × (calls cs st ≡ some st') × IsCounted st'.table st'.held
  calls-IsCounted [] st v a = (st, refl, v)
  calls-IsCounted (c ∷ cs) st v (a, all) =
      let (st1, run, v1, _) = call-IsCounted c st v a in
      let (st2, run2, v2) = calls-IsCounted cs st1 v1 (all st1 run) in (st2, rw run run2, v2)
