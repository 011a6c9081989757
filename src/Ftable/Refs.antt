-- ===== src/Ftable/Refs.antt =====
-- The reference counts of the file table: each is the number of references that are held.
use osp.Prelude.{
  ℕ, zero, suc, ◌+◌, ◌-◌, ◌%◌, ◌^◌, ◌<◌, ◌≡◌, ◌≢◌, refl, subst, inl, inr, true, false, Option, none,
  some, List, [], ◌∷◌, arith, ◌==◌, if◌then◌else◌, update, update_self, update-ne, Bool-cases, ◌∙◌,
  sym, ap,
}
use native.Mathlib.Decide.{ℕ_discrete}
use osp.Mmap.{slt}
use osp.Ftable.{
  File, fd_none, Ftable, nfile, Lower, find_file, take_file, filealloc, filedup, release_file,
  fileclose,
}

-- How often a file is held.
abbrev pub count : ℕ → List ℕ → ℕ
count i [] = 0
count i (j ∷ js) = (if j == i then 1 else 0) + count i js

-- The list without its first `i`.
abbrev pub give_up : ℕ → List ℕ → List ℕ
give_up i [] = []
give_up i (j ∷ js) = if j == i then js else j ∷ give_up i js

count_here : (i : ℕ) (js : List ℕ) → count i (i ∷ js) ≡ count i js + 1
count_here i js = let e : (i == i) ≡ true = ground arith in rw e (omega arith)

count_other : (i k : ℕ) (js : List ℕ) → i ≢ k → count k (i ∷ js) ≡ count k js
count_other i k js ne = let e : (i == k) ≡ false = ground arith in rw e (omega arith)

count-give_up : (i : ℕ) (js : List ℕ) → count i (give_up i js) ≡ count i js - 1
count-give_up i [] = omega arith
count-give_up i (j ∷ js) = elim (ℕ_discrete j i) [
  | yes e ↦ let t : (j == i) ≡ true = ground arith in rw t (omega arith)
  | no ne ↦ let t : (j == i) ≡ false = ground arith in rw (t, t, count-give_up i js) (omega arith)
]

count-give_up_other : (i k : ℕ) (js : List ℕ) → i ≢ k → count k (give_up i js) ≡ count k js
count-give_up_other i k [] ne = refl
count-give_up_other i k (j ∷ js) ne = elim (ℕ_discrete j i) [
  | yes e ↦
      let t : (j == i) ≡ true = ground arith in
      let u : (j == k) ≡ false = ground arith in rw (t, u) (omega arith)
  | no m ↦ let t : (j == i) ≡ false = ground arith in rw (t, count-give_up_other i k js ne)
]

find_file-free : (t : Ftable) (n i r : ℕ) → find_file t i n ≡ some r → ((t r).ref ≡ 0) × (r < i + n)
unfolding find_file
find_file-free t zero i r e = cc
find_file-free t (suc n) i r e = elim (Bool-cases ((t i).ref == 0)) [
  | inl h ↦ let q : i ≡ r = let f = rw h at e in cc in rw (← q) (ground arith, omega arith)
  | inr h ↦ let (z, lt) = find_file-free t n (i + 1) r (rw h at e) in (z, omega arith)
]

-- What filealloc returns when it finds a file.
pub filealloc-some :
    (t t' : Ftable) (i : ℕ)
    → filealloc t ≡ (some i, t')
    → ((t i).ref ≡ 0) × (i < nfile) × (t' ≡ update t i (record (t i) { ref = 1 }))
unfolding filealloc take_file
filealloc-some t t' i e = by_case (find_file t 0 nfile) refl e
  where
    by_case :
        (o : Option ℕ)
        → find_file t 0 nfile ≡ o
        → take_file o t ≡ (some i, t')
        → ((t i).ref ≡ 0) × (i < nfile) × (t' ≡ update t i (record (t i) { ref = 1 }))
    by_case none q f = cc
    by_case (some j) q f =
        let same : j ≡ i = cc in
        let (z, lt) = find_file-free t nfile 0 j q in
        let moved : update t j (record (t j) { ref = 1 }) ≡ t' = ap (λ p. p.1) f in
        (rw (← same) z, omega (arith, lt, same), rw (← same) (sym moved))

pub filealloc-none : (t t' : Ftable) → filealloc t ≡ (none, t') → t' ≡ t
unfolding filealloc take_file
filealloc-none t t' e = by_case (find_file t 0 nfile) e
  where
    by_case : (o : Option ℕ) → take_file o t ≡ (none, t') → t' ≡ t
    by_case none f = sym (ap (λ p. p.1) f)
    by_case (some j) f = cc

module _ (t : Ftable) (i : ℕ) where
  pub filedup-held :
      0 < (t i).ref
      → (t i).ref + 1 < 2 ^ 31
      → filedup i t ≡ some (update t i (record (t i) { ref = (t i).ref + 1 }))
  unfolding filedup
  filedup-held pos small =
      let live : slt (t i).ref 1 ≡ false = ground arith in
      let next : ((t i).ref + 1) % 2 ^ 32 ≡ (t i).ref + 1 = omega arith in rw (live, next)

  module _ {S : Type 0} (lo : Lower S) (s : S) where
    pub fileclose-more :
        1 < (t i).ref
        → (t i).ref < 2 ^ 31
        → fileclose lo i t s ≡ some (update t i (record (t i) { ref = (t i).ref - 1 }), s)
    unfolding fileclose
    fileclose-more pos small =
        let live : slt (t i).ref 1 ≡ false = ground arith in
        let next : ((t i).ref + 2 ^ 32 - 1) % 2 ^ 32 ≡ (t i).ref - 1 = omega arith in
        let more : slt 0 ((t i).ref - 1) ≡ true = ground arith in rw (live, next, more)

    pub fileclose-last :
        (t i).ref ≡ 1
        → fileclose lo i t s
          ≡ some (
            update t i (record (t i) { ref = 0; type = fd_none }),
            release_file lo (t i).type (t i) s,
          )
    unfolding fileclose
    fileclose-last one = rw one

-- The table counts the references in `held`.
pub record IsCounted (t : Ftable) (held : List ℕ) : Type 0 where
  pub counts : (i : ℕ) → i < nfile → (t i).ref ≡ count i held
  pub few : (i : ℕ) → count i held < 2 ^ 31

module _ (t : Ftable) (held : List ℕ) (i : ℕ) (f : File) (v : IsCounted t held) where
  pub one_more-IsCounted :
      f.ref ≡ count i held + 1 → count i held + 1 < 2 ^ 31 → IsCounted (update t i f) (i ∷ held)
  one_more-IsCounted e small = record {
    counts = λ k lt. elim (ℕ_discrete i k) [
      | yes q ↦
          subst (λ l. (update t i f l).ref ≡ count l (i ∷ held)) q
            (ap (λ g. g.ref) (update_self t i f) ∙ e ∙ sym (count_here i held))
      | no ne ↦
          ap (λ g. g.ref) (update-ne t i f k ne) ∙ v.counts k lt ∙ sym (count_other i k held ne)
    ];
    few = λ k. elim (ℕ_discrete i k) [
      | yes q ↦ subst (λ l. count l (i ∷ held) < 2 ^ 31) q (rw (count_here i held) small)
      | no ne ↦ let c = count_other i k held ne in rw c (v.few k)
    ];
  }

  pub one_less-IsCounted : f.ref ≡ count i held - 1 → IsCounted (update t i f) (give_up i held)
  one_less-IsCounted e = record {
    counts = λ k lt. elim (ℕ_discrete i k) [
      | yes q ↦
          subst (λ l. (update t i f l).ref ≡ count l (give_up i held)) q
            (ap (λ g. g.ref) (update_self t i f) ∙ e ∙ sym (count-give_up i held))
      | no ne ↦
          ap (λ g. g.ref) (update-ne t i f k ne)
          ∙ v.counts k lt
          ∙ sym (count-give_up_other i k held ne)
    ];
    few = λ k. elim (ℕ_discrete i k) [
      | yes q ↦
          subst (λ l. count l (give_up i held) < 2 ^ 31) q
            (rw (count-give_up i held) (omega (arith, v.few i)))
      | no ne ↦ rw (count-give_up_other i k held ne) (v.few k)
    ];
  }
