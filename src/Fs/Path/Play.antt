-- ===== src/Fs/Path/Play.antt =====
-- The references and locks that the calls of namex take and leave.
use osp.Prelude.{
  ℕ, ◌≡◌, ◌≢◌, refl, inl, inr, Bool, true, false, not, ◌&&◌, Option, none, some, List, [], ◌∷◌,
  ◌++◌, arith, ◌==◌, if◌then◌else◌, Bool-cases, ◌>>=◌, ◌∙◌, sym, ap,
}
use osp.Fs.Path.{Call, iget, ilock, iunlock, iput, Dirs, is_end, iunlockput}
use osp.Fs.Path.Elements.{elements, elements_nil, elements-cons, StartsElem}

abbrev pub is_last : List (List ℕ) → Bool
is_last [] = true
is_last (name ∷ names) = false

-- The inode that the names lead to, or its parent; 0 where a name is missing or no directory.
unfoldable pub resolve : Dirs → Bool → ℕ → List (List ℕ) → ℕ
resolve d parent ip [] = if parent then 0 else ip
resolve d parent ip (name ∷ names) =
    let further = resolve d parent (d.child ip name) names in
    if not (d.is_dir ip)
    then 0
    else if parent && is_last names
    then ip
    else if d.child ip name == 0
    then 0
    else further

-- One reference less; `none` if there is none.
abbrev pub add_ref : ℕ → Option (List ℕ) → Option (List ℕ)
add_ref r none = none
add_ref r (some refs) = some (r ∷ refs)

unfoldable pub drop_ref : ℕ → List ℕ → Option (List ℕ)
drop_ref ip [] = none
drop_ref ip (r ∷ refs) =
    let rest = add_ref r (drop_ref ip refs) in if r == ip then some refs else rest

unfoldable pub has_ref : ℕ → List ℕ → Bool
has_ref ip [] = false
has_ref ip (r ∷ refs) = let rest = has_ref ip refs in if r == ip then true else rest

-- The references that a process has, and the inode that it has locked.
pub record Held : Type 0 where
  pub refs : List ℕ
  pub locked : Option ℕ

-- ilock of an inode that is referenced, where nothing is locked; iunlock of the one that is locked;
-- iput of a reference, where nothing is locked, since it locks the inode. All else is `none`.
abbrev pub with_refs : Option (List ℕ) → Option Held
with_refs none = none
with_refs (some refs) = some (record { refs = refs; locked = none })

abbrev pub allow : Call → List ℕ → Option ℕ → Option Held
allow (iget ip) refs locked = some (record { refs = ip ∷ refs; locked = locked })
allow (ilock ip) refs (some other) = none
allow (ilock ip) refs none =
    if has_ref ip refs then some (record { refs = refs; locked = some ip }) else none
allow (iunlock ip) refs none = none
allow (iunlock ip) refs (some other) =
    if other == ip then some (record { refs = refs; locked = none }) else none
allow (iput ip) refs (some other) = none
allow (iput ip) refs none = with_refs (drop_ref ip refs)

-- The calls in order.
unfoldable pub play : List Call → Held → Option Held
play [] h = some h
play (c ∷ cs) h = allow c h.refs h.locked >>= λ h'. play cs h'

-- A reference to the inode, none to 0, and no lock.
abbrev pub only : ℕ → Held
only ip = record { refs = if ip == 0 then [] else ip ∷ []; locked = none }

-- What namex does from `ip` on, of which it has a reference.
abbrev pub Leads : Dirs → Bool → ℕ → List (List ℕ) → List Call × ℕ → Type 0
Leads d parent ip names (calls, r) =
    (r ≡ resolve d parent ip names) × (play calls (only ip) ≡ some (only r))

pub is_end-elements : (p : List ℕ) → StartsElem p → is_end p ≡ is_last (elements p)
is_end-elements [] h = sym (ap is_last elements_nil)
is_end-elements (c ∷ p) h = sym (ap is_last (elements-cons c p h))

abbrev holds : List ℕ → Option ℕ → Held
holds refs locked = record { refs = refs; locked = locked }

has_ref_self : (ip : ℕ) → (ip == ip) ≡ true
has_ref_self ip = ground arith

module _ (ip : ℕ) (cs : List Call) where
  play-ilock :
      (refs : List ℕ)
      → has_ref ip refs ≡ true
      → play (ilock ip ∷ cs) (holds refs none) ≡ play cs (holds refs (some ip))
  unfolding play
  play-ilock refs h = rw h refl

  play-iunlock :
      (refs : List ℕ) → play (iunlock ip ∷ cs) (holds refs (some ip)) ≡ play cs (holds refs none)
  unfolding play
  play-iunlock refs = rw (has_ref_self ip) refl

  play-iput :
      (refs rest : List ℕ)
      → drop_ref ip refs ≡ some rest
      → play (iput ip ∷ cs) (holds refs none) ≡ play cs (holds rest none)
  unfolding play
  play-iput refs rest h = rw h refl

  pub play-iget :
      (refs : List ℕ) (l : Option ℕ)
      → play (iget ip ∷ cs) (holds refs l) ≡ play cs (holds (ip ∷ refs) l)
  unfolding play
  play-iget refs l = refl

pub only_one : (ip : ℕ) → ip ≢ 0 → only ip ≡ holds (ip ∷ []) none
only_one ip nz = let a : (ip == 0) ≡ false = ground arith in rw a refl

has_ref-one : (ip : ℕ) → has_ref ip (ip ∷ []) ≡ true
unfolding has_ref
has_ref-one ip = rw (has_ref_self ip) refl

drop_ref-one : (ip : ℕ) → drop_ref ip (ip ∷ []) ≡ some []
unfolding drop_ref
drop_ref-one ip = rw (has_ref_self ip) refl

-- Where the two are the same inode, it does not matter which reference goes.
drop_ref-two : (ip found : ℕ) → drop_ref ip (found ∷ ip ∷ []) ≡ some (found ∷ [])
unfolding drop_ref
drop_ref-two ip found = elim (Bool-cases (found == ip)) [
  | inl y ↦ let e : found ≡ ip = ground arith in rw y (ap (λ k. some (k ∷ [])) (sym e))
  | inr n ↦ rw (n, has_ref_self ip) refl
]

pub play_nil : (h : Held) → play [] h ≡ some h
unfolding play
play_nil h = refl

module _ (ip : ℕ) (nz : ip ≢ 0) where
  lock_first :
      (cs : List Call) → play (ilock ip ∷ cs) (only ip) ≡ play cs (holds (ip ∷ []) (some ip))
  lock_first cs =
      ap (play (ilock ip ∷ cs)) (only_one ip nz) ∙ play-ilock ip cs (ip ∷ []) (has_ref-one ip)

  put_last : play (iput ip ∷ []) (holds (ip ∷ []) none) ≡ some (only 0)
  put_last = play-iput ip [] (ip ∷ []) [] (drop_ref-one ip) ∙ play_nil (holds [] none)

  pub play_put : play (iput ip ∷ []) (only ip) ≡ some (only 0)
  play_put = ap (play (iput ip ∷ [])) (only_one ip nz) ∙ put_last

  pub play_fail : play (ilock ip ∷ iunlockput ip) (only ip) ≡ some (only 0)
  play_fail = lock_first (iunlockput ip) ∙ play-iunlock ip (iput ip ∷ []) (ip ∷ []) ∙ put_last

  pub play_parent : play (ilock ip ∷ iunlock ip ∷ []) (only ip) ≡ some (only ip)
  play_parent =
      lock_first (iunlock ip ∷ [])
      ∙ play-iunlock ip [] (ip ∷ [])
      ∙ play_nil (holds (ip ∷ []) none)
      ∙ ap some (sym (only_one ip nz))

  pub play_next :
      (found : ℕ) (cs : List Call)
      → found ≢ 0
      → play ((ilock ip ∷ iget found ∷ iunlockput ip) ++ cs) (only ip) ≡ play cs (only found)
  play_next found cs nf =
      lock_first ((iget found ∷ iunlockput ip) ++ cs)
      ∙ play-iget found (iunlockput ip ++ cs) (ip ∷ []) (some ip)
      ∙ play-iunlock ip (iput ip ∷ cs) (found ∷ ip ∷ [])
      ∙ play-iput ip cs (found ∷ ip ∷ []) (found ∷ []) (drop_ref-two ip found)
      ∙ ap (play cs) (sym (only_one found nf))
