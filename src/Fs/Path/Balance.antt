-- ===== src/Fs/Path/Balance.antt =====
-- namex: what it finds, and the references and locks that it holds on the way.
use osp.Prelude.{
  ℕ, zero, suc, ◌≤◌, ◌<◌, ◌≡◌, ◌≢◌, refl, inl, inr, Bool, true, false, ◌&&◌, Option, none, some,
  List, [], ◌∷◌, arith, ◌==◌, if◌then◌else◌, Bool-cases, ◌∙◌, sym, ap, subst,
}
use osp.Fs.Path.{Call, iput, Dirs, visit, namex_loop, is_absolute, rounds_of, namex}
use osp.Fs.Path.Elements.{elements, StartsElem, skipelem-Splits}
use osp.Fs.Path.Play.{
  is_last, resolve, play, only, Leads, is_end-elements, play-iget, only_one, play_nil, play_put,
  play_fail, play_parent, play_next,
}

rounds_positive : (path : List ℕ) → 0 < rounds_of path
rounds_positive [] = omega arith
rounds_positive (c ∷ path) = omega arith

no_name-Leads :
    (d : Dirs) (parent : Bool) (ip : ℕ)
    → ip ≢ 0
    → Leads d parent ip [] (if parent then (iput ip ∷ [], 0) else ([], ip))
unfolding resolve
no_name-Leads d true ip nz = (refl, play_put ip nz)
no_name-Leads d false ip nz = (refl, play_nil (only ip))

-- A round with a name left, where the loop does its work from the next inode.
visit-Leads :
    (d : Dirs) (parent : Bool) (ip : ℕ) (loop : ℕ → List ℕ → List Call × ℕ) (name rest : List ℕ)
    → ip ≢ 0
    → StartsElem rest
    → (d.child ip name ≢ 0
        → Leads d parent (d.child ip name) (elements rest) (loop (d.child ip name) rest))
    → Leads d parent ip (name ∷ elements rest) (visit d parent ip loop (some (name, rest)))
unfolding resolve
visit-Leads d parent ip loop name rest nz starts go = elim (Bool-cases (d.is_dir ip)) [
  | inr f ↦ rw f (refl, play_fail ip nz)
  | inl t ↦
      rw (t, is_end-elements rest starts)
        (elim (Bool-cases (parent && is_last (elements rest))) [
          | inl p ↦ rw p (refl, play_parent ip nz)
          | inr o ↦ rw o (elim (Bool-cases (d.child ip name == 0)) [
            | inl z ↦ rw z (refl, play_fail ip nz)
            | inr n ↦
                let found = d.child ip name in
                let nf : found ≢ 0 = ground arith in
                let (r, balanced) = go nf in
                rw n (r, play_next ip nz found (loop found rest).0 nf ∙ balanced)
          ])
        ])
]

moved :
    (d : Dirs) (parent : Bool) (ip : ℕ) (loop : ℕ → List ℕ → List Call × ℕ) {ns ms : List (List ℕ)}
    {o p : Option (List ℕ × List ℕ)}
    → ns ≡ ms
    → o ≡ p
    → Leads d parent ip ns (visit d parent ip loop o)
    → Leads d parent ip ms (visit d parent ip loop p)
moved d parent ip loop {ns} {ms} {o} {p} e f h =
    subst (λ q. Leads d parent ip ms (visit d parent ip loop q)) f
      (subst (λ l. Leads d parent ip l (visit d parent ip loop o)) e h)

namex_loop-Leads :
    (fuel : ℕ) (d : Dirs) (parent : Bool) (ip : ℕ) (path : List ℕ)
    → ip ≢ 0
    → rounds_of path ≤ fuel
    → Leads d parent ip (elements path) (namex_loop fuel d parent ip path)
unfolding namex_loop
namex_loop-Leads zero d parent ip path nz h = absurd (omega (arith, rounds_positive path))
namex_loop-Leads (suc fuel) d parent ip path nz h =
    let loop : ℕ → List ℕ → List Call × ℕ = λ found rest. namex_loop fuel d parent found rest in
    elim (skipelem-Splits path) [
      | inl (e, none_left) ↦
          moved d parent ip loop (sym none_left) (sym e) (no_name-Leads d parent ip nz)
      | inr (name, rest, e, names, starts, shorter) ↦ moved d parent ip loop (sym names) (sym e) (
          visit-Leads d parent ip loop name rest nz starts
            (λ nf. namex_loop-Leads fuel d parent (d.child ip name) rest nf (omega arith)))
    ]

-- What namex, namei and nameiparent are to do.
abbrev pub Resolves : ℕ → Dirs → Bool → List (List ℕ) → List Call × ℕ → Type 0
Resolves ip d parent names (calls, r) =
    (r ≡ resolve d parent ip names) × (play calls (only 0) ≡ some (only r))

-- namex returns the inode, or the parent of the inode, to which the names between the slashes of the
-- path lead from the root for an absolute path and else from the process's directory, each name cut at
-- 14 characters, and 0 where there is none. On every way out it has exactly one reference to the
-- result, or none for the result 0, and no lock; on the way it never locks or puts an inode without a
-- reference, and never has two locks. It asks that the two inodes to start from are not NULL.
pub namex-Resolves :
    (d : Dirs) (root cwd : ℕ) (parent : Bool) (path : List ℕ)
    → root ≢ 0
    → cwd ≢ 0
    → Resolves
        (if is_absolute path then root else cwd)
        d
        parent
        (elements path)
        (namex d root cwd parent path)
unfolding namex
namex-Resolves d root cwd parent path nr nc =
    let ip = if is_absolute path then root else cwd in
    let nz : ip ≢ 0 = ground arith in
    let (r, balanced) = namex_loop-Leads (rounds_of path) d parent ip path nz (omega arith) in
    (
      r,
      play-iget ip (namex_loop (rounds_of path) d parent ip path).0 [] none
          ∙ ap (play (namex_loop (rounds_of path) d parent ip path).0) (sym (only_one ip nz))
          ∙ balanced,
    )
