-- ===== src/Grep/Lines.antt =====
-- grep prints the lines that match, however read cuts up the input.
use osp.Prelude.{
  ℕ, zero, suc, ◌≤◌, ◌<◌, ◌≡◌, ◌≢◌, refl, inl, inr, true, false, Option, none, some, List, [], ◌∷◌,
  ◌++◌, All, length, arith, ◌==◌, if◌then◌else◌, Bool-cases, ◌∙◌, sym, ap,
}
use mathlib.Core.List.{append_assoc, append-nil}
use osp.Grep.{
  match, add_char, is_found, strchr_newline, print_line, lines_loop, has_line, grep_loop, grep,
}

-- The matching lines of a text, the line that `line` begins first; what no newline ends is not printed.
abbrev pub print_lines : List ℕ → List ℕ → List ℕ → List ℕ
print_lines pattern line [] = []
print_lines pattern line (c ∷ cs) =
    let end = (if match pattern line then line ++ 10 ∷ [] else []) ++ print_lines pattern [] cs in
    let on = print_lines pattern (line ++ c ∷ []) cs in if c == 10 then end else on

abbrev pub concat : List (List ℕ) → List ℕ
concat [] = []
concat (chunk ∷ chunks) = chunk ++ concat chunks

abbrev pub NoNul : List ℕ → Type 0
NoNul text = All (λ c. c ≢ 0) text

-- Pieces of text that each have a newline.
abbrev pub HaveLines : List (List ℕ) → Type 0
HaveLines chunks = All (λ c. NoNul c × (has_line c ≡ true)) chunks

NoNul-append : (xs ys : List ℕ) → NoNul xs → NoNul ys → NoNul (xs ++ ys)
NoNul-append [] ys a b = b
NoNul-append (x ∷ xs) ys a b = (a.0, NoNul-append xs ys a.1 b)

module _ (pattern : List ℕ) where
  -- What the search for a newline finds.
  abbrev Line : List ℕ → Option (List ℕ × List ℕ) → Type 0
  Line p none = (acc : List ℕ) → print_lines pattern acc p ≡ []
  Line p (some (line, rest)) =
      ((acc b : List ℕ)
        → print_lines pattern acc (p ++ b)
          ≡ print_line pattern (acc ++ line) ++ print_lines pattern [] (rest ++ b))
      × NoNul rest
      × (length rest < length p)

  extend :
      (c : ℕ) (cs : List ℕ) (o : Option (List ℕ × List ℕ))
      → (c == 10) ≡ false
      → Line cs o
      → Line (c ∷ cs) (add_char c o)
  extend c cs none ne h = λ acc. rw ne (h (acc ++ c ∷ []))
  extend c cs (some (line, rest)) ne (h, z, lt) = (
    λ acc b. rw ne (
        h (acc ++ c ∷ []) b
        ∙ ap (λ l. print_line pattern l ++ print_lines pattern [] (rest ++ b))
            (append_assoc acc (c ∷ []) line)),
    z,
    omega arith,
  )

  strchr_newline-Line : (p : List ℕ) → NoNul p → Line p (strchr_newline p)
  unfolding strchr_newline
  strchr_newline-Line [] z = λ acc. refl
  strchr_newline-Line (c ∷ cs) (nz, z) =
      let live : (c == 0) ≡ false = ground arith in
      elim (Bool-cases (c == 10)) [
        | inl nl ↦
            rw (live, nl)
              (
                λ acc b. rw nl (
                    ap (λ l. print_line pattern l ++ print_lines pattern [] (cs ++ b))
                      (sym (append-nil acc))),
                z,
                omega arith,
              )
        | inr ne ↦ rw (live, ne) (extend c cs (strchr_newline cs) ne (strchr_newline-Line cs z))
      ]

  -- What the inner loop leaves is the start of a line, and it has printed the lines before.
  abbrev Prints : List ℕ → List ℕ × List ℕ → Type 0
  Prints p (out, rest) =
      ((b : List ℕ) → print_lines pattern [] (p ++ b) ≡ out ++ print_lines pattern [] (rest ++ b))
      × (print_lines pattern [] rest ≡ [])
      × NoNul rest

  lines_loop-none :
      (fuel : ℕ) (p : List ℕ) → strchr_newline p ≡ none → lines_loop (suc fuel) pattern p ≡ ([], p)
  unfolding lines_loop
  lines_loop-none fuel p e = rw (e, lines_loop)

  lines_loop-some :
      (fuel : ℕ) (p line rest : List ℕ)
      → strchr_newline p ≡ some (line, rest)
      → lines_loop (suc fuel) pattern p ≡ (
        print_line pattern line ++ (lines_loop fuel pattern rest).0,
        (lines_loop fuel pattern rest).1,
      )
  unfolding lines_loop
  lines_loop-some fuel p line rest e = rw (e, lines_loop)

  Prints-nil : Prints [] (lines_loop zero pattern [])
  unfolding lines_loop
  Prints-nil = (λ b. refl, refl, tt)

  lines_loop-Prints :
      (fuel : ℕ) (p : List ℕ) → length p ≤ fuel → NoNul p → Prints p (lines_loop fuel pattern p)
  lines_loop-Prints zero [] le z = Prints-nil
  lines_loop-Prints zero (c ∷ cs) le z = absurd (omega arith)
  lines_loop-Prints (suc fuel) p le z =
      by_case (lines_loop-Prints fuel) (strchr_newline p) refl (strchr_newline-Line p z)
    where
      by_case :
          ((q : List ℕ) → length q ≤ fuel → NoNul q → Prints q (lines_loop fuel pattern q))
          → (o : Option (List ℕ × List ℕ)) → strchr_newline p ≡ o
          → Line p o
          → Prints p (lines_loop (suc fuel) pattern p)
      by_case others none e h = rw (lines_loop-none fuel p e) (λ b. refl, h [], z)
      by_case others (some (line, rest)) e (h, nz, lt) =
          let (hb, hr, hz) = others rest (omega arith) nz in
          rw (lines_loop-some fuel p line rest e) (
            λ b.
                h [] b
                ∙ ap (λ l. print_line pattern line ++ l) (hb b)
                ∙ sym (
                    append_assoc (print_line pattern line) (lines_loop fuel pattern rest).0
                      (print_lines pattern [] ((lines_loop fuel pattern rest).1 ++ b))),
            hr,
            hz,
          )

  cons_line : (c : ℕ) (cs : List ℕ) → has_line cs ≡ true → c ≢ 0 → has_line (c ∷ cs) ≡ true
  unfolding strchr_newline
  cons_line c cs h nz =
      let live : (c == 0) ≡ false = ground arith in
      elim (Bool-cases (c == 10)) [
        | inl nl ↦ rw (live, nl)
        | inr ne ↦ rw (live, ne) (found (strchr_newline cs) h)
      ]
    where
      found : (o : Option (List ℕ × List ℕ)) → is_found o ≡ true → is_found (add_char c o) ≡ true
      found none h = h
      found (some r) h = refl

  has_line-append :
      (held chunk : List ℕ) → NoNul held → has_line chunk ≡ true → has_line (held ++ chunk) ≡ true
  has_line-append [] chunk z h = h
  has_line-append (c ∷ held) chunk (nz, z) h =
      cons_line c (held ++ chunk) (has_line-append held chunk z h) nz

  grep_loop_lem :
      (held : List ℕ) (chunks : List (List ℕ))
      → NoNul held
      → print_lines pattern [] held ≡ []
      → HaveLines chunks
      → grep_loop pattern held chunks ≡ print_lines pattern [] (held ++ concat chunks)
  unfolding grep_loop
  grep_loop_lem held [] z e a = sym (ap (print_lines pattern []) (append-nil held) ∙ e)
  grep_loop_lem held (chunk ∷ chunks) z e ((cz, cl), a) =
      let buf = held ++ chunk in
      let (hb, hr, hz) =
        lines_loop-Prints (length buf) buf (omega arith) (NoNul-append held chunk z cz) in
      let rest = (lines_loop (length buf) pattern buf).1 in
      rw (has_line-append held chunk z cl) (
        ap (λ l. (lines_loop (length buf) pattern buf).0 ++ l) (grep_loop_lem rest chunks hz hr a)
        ∙ sym (hb (concat chunks))
        ∙ ap (print_lines pattern []) (append_assoc held chunk (concat chunks)))

  -- Where no byte read is NUL and each read returns a newline at least, grep writes exactly the
  -- matching lines of the whole input, in order, wherever the reads have cut it.
  pub grep-lines :
      (chunks : List (List ℕ))
      → HaveLines chunks
      → grep pattern chunks ≡ print_lines pattern [] (concat chunks)
  grep-lines chunks a = grep_loop_lem [] chunks tt refl a
