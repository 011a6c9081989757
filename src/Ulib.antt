-- ===== src/Ulib.antt =====
-- xv6-public/ulib.c: strings of user programs. A string is the list of its characters, without the NUL
-- behind them; a result that is an `int` is its bit pattern.
use osp.Prelude.{
  ℕ, ◌+◌, ◌-◌, ◌*◌, ◌%◌, ◌^◌, Bool, ◌&&◌, Option, none, some, List, [], ◌∷◌, leb, ◌==◌,
  if◌then◌else◌,
}

-- `*s`.
abbrev pub char_at : List ℕ → ℕ
char_at [] = 0
char_at (c ∷ cs) = c

abbrev pub minus : ℕ → ℕ → ℕ
minus a b = (a + 2 ^ 32 - b) % 2 ^ 32

unfoldable pub strcmp : List ℕ → List ℕ → ℕ
strcmp [] q = minus 0 (char_at q)
strcmp (c ∷ p) [] = minus c 0
strcmp (c ∷ p) (d ∷ q) = let rest = strcmp p q in if c == d then rest else minus c d

-- The string from the character on, `none` for the pointer 0.
unfoldable pub strchr : List ℕ → ℕ → Option (List ℕ)
strchr [] c = none
strchr (d ∷ s) c = if d == c then some (d ∷ s) else strchr s c

abbrev pub is_digit : ℕ → Bool
is_digit c = leb b'0' c && leb c b'9'

-- The loop of atoi, with `n` so far.
unfoldable pub atoi_loop : ℕ → List ℕ → ℕ
atoi_loop n [] = n
atoi_loop n (c ∷ s) = if is_digit c then atoi_loop ((n * 10 + c + 2 ^ 32 - b'0') % 2 ^ 32) s else n

unfoldable pub atoi : List ℕ → ℕ
atoi s = atoi_loop 0 s
