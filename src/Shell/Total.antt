-- ===== src/Shell/Total.antt =====
-- The parser ends on every text.
use osp.Prelude.{
  ℕ, zero, suc, ◌+◌, ◌*◌, ◌≤◌, ◌<◌, ◌≡◌, refl, inl, inr, Bool, true, false, not, ◌||◌, List, [],
  ◌∷◌, ◌++◌, arith, leb, ◌==◌, length, Bool-cases, sym,
}
use osp.Shell.{
  maxargs, Cmd, exec, back, Result, ok, panic, no_fuel, ◌>>=◌, skip_white, gettoken, peek, Redir,
  wrap, add_redir, parseredirs, args_loop, backs_loop, parse_simple, end_block, parseline,
  parsepipe, parseexec, fuel_for, at_end, parsecmd,
}
use osp.Shell.Lex.{skip_white-le, gettoken-le, peek-lt, token-lt}

-- A result that leaves at most `n` characters, or a panic.
abbrev pub Within {ℓ} : {A : Type ℓ} → ℕ → Result (A × List ℕ) → Type 0
Within n (ok (a, s)) = length s ≤ n
Within n panic = Unit
Within n no_fuel = true ≡ false

abbrev WithinArgs : ℕ → Result (List (List ℕ) × List Redir × List ℕ) → Type 0
WithinArgs n (ok (words, redirs, s)) = length s ≤ n
WithinArgs n panic = Unit
WithinArgs n no_fuel = true ≡ false

module _ {ℓ κ} {A : Type ℓ} {B : Type κ} where
  Within-bind :
      {n : ℕ} (r : Result (A × List ℕ)) (f : A × List ℕ → Result (B × List ℕ))
      → Within n r
      → ((a : A) (s : List ℕ) → length s ≤ n → Within n (f (a, s)))
      → Within n (r >>= f)
  Within-bind (ok (a, s)) f h k = k a s h
  Within-bind panic f h k = tt
  Within-bind no_fuel f h k = h

Within-le {ℓ} : {A : Type ℓ} {m n : ℕ} (r : Result (A × List ℕ)) → m ≤ n → Within m r → Within n r
Within-le (ok (a, s)) l h = omega arith
Within-le panic l h = tt
Within-le no_fuel l h = h

add_redir-Within :
    (n : ℕ) (r : Redir) (m : Result (List Redir × List ℕ)) → Within n m → Within n (add_redir r m)
add_redir-Within n r (ok (rs, s)) h = h
add_redir-Within n r panic h = tt
add_redir-Within n r no_fuel h = h

parseredirs-Within :
    (fuel : ℕ) (s : List ℕ) → length s < fuel → Within (length s) (parseredirs fuel s)
unfolding parseredirs
parseredirs-Within zero s h = absurd (omega arith)
parseredirs-Within (suc fuel) s h = elim (Bool-cases (peek s (b'<' ∷ b'>' ∷ []))) [
  | inr n ↦ rw n (skip_white-le s)
  | inl y ↦
      let s1 = (gettoken s).2 in
      let s2 = (gettoken s1).2 in
      let shorter : length s2 < length s =
        omega (arith, peek-lt s (b'<' ∷ b'>' ∷ []) y, gettoken-le s1) in
      rw y (elim (Bool-cases ((gettoken s1).0 == b'a')) [
        | inr m ↦ rw m tt
        | inl a ↦ rw a (
            add_redir-Within (length s) ((gettoken s).0, (gettoken s1).1) (parseredirs fuel s2)
              (Within-le (parseredirs fuel s2) (omega arith)
                (parseredirs-Within fuel s2 (omega arith))))
      ])
]

WithinArgs-bind :
    (m n : ℕ) (r : Result (List Redir × List ℕ))
    (f : List Redir × List ℕ → Result (List (List ℕ) × List Redir × List ℕ))
    → Within m r
    → ((a : List Redir) (s : List ℕ) → length s ≤ m → WithinArgs n (f (a, s)))
    → WithinArgs n (r >>= f)
WithinArgs-bind m n (ok (a, s)) f h k = k a s h
WithinArgs-bind m n panic f h k = tt
WithinArgs-bind m n no_fuel f h k = h

-- A word in front of the others.
WithinArgs-cons :
    (m n : ℕ) (word : List ℕ) (redirs : List Redir)
    (r : Result (List (List ℕ) × List Redir × List ℕ))
    → m ≤ n
    → WithinArgs m r
    → WithinArgs n (r >>= λ (words, later, s). ok (word ∷ words, redirs ++ later, s))
WithinArgs-cons m n word redirs (ok (words, later, s)) l h = omega arith
WithinArgs-cons m n word redirs panic l h = tt
WithinArgs-cons m n word redirs no_fuel l h = h

args_loop-WithinArgs :
    (fuel argc : ℕ) (s : List ℕ) → length s < fuel → WithinArgs (length s) (args_loop fuel argc s)
unfolding args_loop
args_loop-WithinArgs zero argc s h = absurd (omega arith)
args_loop-WithinArgs (suc fuel) argc s h =
    elim (Bool-cases (peek s (b'|' ∷ b')' ∷ b'&' ∷ b';' ∷ []))) [
      | inl y ↦ rw y (skip_white-le s)
      | inr n ↦ rw n (elim (Bool-cases ((gettoken s).0 == 0)) [
        | inl z ↦ rw z (gettoken-le s)
        | inr nz ↦
            rw nz (elim (Bool-cases (not ((gettoken s).0 == b'a') || leb maxargs (argc + 1))) [
              | inl bad ↦ rw bad tt
              | inr good ↦
                  let s1 = (gettoken s).2 in
                  let shorter = token-lt s nz in
                  rw good (
                    WithinArgs-bind (length s1) (length s) (parseredirs (length s1 + 1) s1)
                      (λ (redirs, s2). args_loop fuel (argc + 1) s2 >>= λ (words, later, s3).
                        ok ((gettoken s).1 ∷ words, redirs ++ later, s3))
                      (parseredirs-Within (length s1 + 1) s1 (omega arith))
                      (λ redirs s2 l.
                        WithinArgs-cons (length s2) (length s) (gettoken s).1 redirs
                          (args_loop fuel (argc + 1) s2) (omega arith)
                          (args_loop-WithinArgs fuel (argc + 1) s2 (omega arith))))
            ])
      ])
    ]

backs_loop-Within :
    (fuel : ℕ) (cmd : Cmd) (s : List ℕ)
    → length s < fuel
    → Within (length s) (backs_loop fuel cmd s)
unfolding backs_loop
backs_loop-Within zero cmd s h = absurd (omega arith)
backs_loop-Within (suc fuel) cmd s h = elim (Bool-cases (peek s (b'&' ∷ []))) [
  | inr n ↦ rw n (skip_white-le s)
  | inl y ↦
      let s1 = (gettoken s).2 in
      let shorter = peek-lt s (b'&' ∷ []) y in
      rw y (
        Within-le (backs_loop fuel (back cmd) s1) (omega arith)
          (backs_loop-Within fuel (back cmd) s1 (omega arith)))
]

-- The words of a command, as a command.
Within-exec :
    (n : ℕ) (redirs : List Redir) (r : Result (List (List ℕ) × List Redir × List ℕ))
    → WithinArgs n r
    → Within n (r >>= λ (words, later, s). ok (wrap (exec words) (redirs ++ later), s))
Within-exec n redirs (ok (words, later, s)) h = h
Within-exec n redirs panic h = tt
Within-exec n redirs no_fuel h = h

parse_simple-Within : (s : List ℕ) → Within (length s) (parse_simple s)
parse_simple-Within s =
    Within-bind (parseredirs (length s + 1) s)
      (λ (redirs, s1). args_loop (length s1 + 1) 0 s1 >>= λ (words, later, s2).
        ok (wrap (exec words) (redirs ++ later), s2))
      (parseredirs-Within (length s + 1) s (omega arith))
      (λ redirs s1 l.
        Within-le
          (args_loop (length s1 + 1) 0 s1 >>= λ (words, later, s2).
            ok (wrap (exec words) (redirs ++ later), s2))
          l
          (Within-exec (length s1) redirs (args_loop (length s1 + 1) 0 s1)
            (args_loop-WithinArgs (length s1 + 1) 0 s1 (omega arith))))

end_block-Within : (cmd : Cmd) (s : List ℕ) → Within (length s) (end_block (cmd, s))
end_block-Within cmd s = elim (Bool-cases (peek s (b')' ∷ []))) [
  | inr n ↦ rw n tt
  | inl y ↦
      let s1 = (gettoken s).2 in
      let shorter = gettoken-le s in
      rw y (
        Within-bind (parseredirs (length s1 + 1) s1) (λ (redirs, s2). ok (wrap cmd redirs, s2))
          (Within-le (parseredirs (length s1 + 1) s1) shorter
            (parseredirs-Within (length s1 + 1) s1 (omega arith)))
          (λ redirs s2 l. l))
]

mutual
  unfolding parseline

  pub parseline-Within :
      (fuel : ℕ) (s : List ℕ) → 3 * length s + 2 < fuel → Within (length s) (parseline fuel s)
  parseline-Within zero s h = absurd (omega arith)
  parseline-Within (suc fuel) s h =
      Within-bind (parsepipe fuel s) _ (parsepipe-Within fuel s (omega arith)) (λ cmd s1 l1.
        Within-bind (backs_loop (length s1 + 1) cmd s1) _
          (Within-le (backs_loop (length s1 + 1) cmd s1) l1
            (backs_loop-Within (length s1 + 1) cmd s1 (omega arith)))
          (λ left s2 l2. elim (Bool-cases (peek s2 (b';' ∷ []))) [
            | inr n ↦ rw n (omega (arith, skip_white-le s2))
            | inl y ↦
                let s3 = (gettoken s2).2 in
                let shorter = peek-lt s2 (b';' ∷ []) y in
                rw y (
                  Within-bind (parseline fuel s3) _
                    (Within-le (parseline fuel s3) (omega arith)
                      (parseline-Within fuel s3 (omega arith)))
                    (λ right s4 l4. l4))
          ]))

  pub parsepipe-Within :
      (fuel : ℕ) (s : List ℕ) → 3 * length s + 1 < fuel → Within (length s) (parsepipe fuel s)
  parsepipe-Within zero s h = absurd (omega arith)
  parsepipe-Within (suc fuel) s h =
      Within-bind (parseexec fuel s) _ (parseexec-Within fuel s (omega arith)) (λ left s1 l1.
        elim (Bool-cases (peek s1 (b'|' ∷ []))) [
          | inr n ↦ rw n (omega (arith, skip_white-le s1))
          | inl y ↦
              let s2 = (gettoken s1).2 in
              let shorter = peek-lt s1 (b'|' ∷ []) y in
              rw y (
                Within-bind (parsepipe fuel s2) _
                  (Within-le (parsepipe fuel s2) (omega arith)
                    (parsepipe-Within fuel s2 (omega arith)))
                  (λ right s3 l3. l3))
        ])

  pub parseexec-Within :
      (fuel : ℕ) (s : List ℕ) → 3 * length s < fuel → Within (length s) (parseexec fuel s)
  parseexec-Within zero s h = absurd (omega arith)
  parseexec-Within (suc fuel) s h = elim (Bool-cases (peek s (b'(' ∷ []))) [
    | inr n ↦ rw n (
        Within-le (parse_simple (skip_white s)) (skip_white-le s)
          (parse_simple-Within (skip_white s)))
    | inl y ↦
        let s1 = (gettoken s).2 in
        let shorter = peek-lt s (b'(' ∷ []) y in
        rw y (
          Within-bind (parseline fuel s1) _
            (Within-le (parseline fuel s1) (omega arith) (parseline-Within fuel s1 (omega arith)))
            (λ cmd s2 l2. Within-le (end_block (cmd, s2)) l2 (end_block-Within cmd s2)))
  ]

-- A command, or a panic.
abbrev pub is_answer {ℓ} : {A : Type ℓ} → Result A → Bool
is_answer (ok a) = true
is_answer panic = true
is_answer no_fuel = false

answers : (n : ℕ) (r : Result (Cmd × List ℕ)) → Within n r → is_answer (r >>= λ q. at_end q) ≡ true
answers n (ok (cmd, s)) h = elim (Bool-cases (leb 1 (length (skip_white s)))) [
  | inl y ↦ rw y refl
  | inr m ↦ rw m refl
]
answers n panic h = refl
answers n no_fuel h = sym h

-- Whatever the text, parsecmd ends: it returns a command or calls panic.
pub parsecmd_ends : (s : List ℕ) → is_answer (parsecmd s) ≡ true
unfolding parsecmd
parsecmd_ends s =
    answers (length s) (parseline (fuel_for s) s) (parseline-Within (fuel_for s) s (omega arith))
