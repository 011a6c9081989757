-- ===== src/Printf.antt =====
-- xv6-public/printf.c: what printint and printf write. A string is the list of its characters.
pub mod RoundTrip
use mathlib.Core.List.{reverse}
use osp.Prelude.{
  ℕ, zero, suc, ◌+◌, ◌-◌, ◌*◌, ◌/◌, ◌%◌, ◌^◌, Bool, true, false, ◌&&◌, ◌||◌, List, [], ◌∷◌, ◌++◌,
  ltb, ◌==◌, if◌then◌else◌,
}
use osp.Mmap.{slt}

-- `digits[d]`.
abbrev pub digit : ℕ → ℕ
digit d = if ltb d 10 then b'0' + d else b'A' + (d - 10)

-- The `do` loop: `buf` from `i` on, least significant digit first.
unfoldable pub digits_loop : ℕ → ℕ → ℕ → List ℕ
digits_loop zero base x = []
digits_loop (suc fuel) base x =
    let more = digits_loop fuel base (x / base) in
    digit (x % base) ∷ (if x / base == 0 then [] else more)

-- One round for each digit; a base is 10 or 16.
abbrev pub digits_fuel : ℕ
digits_fuel = 10

unfoldable pub printint : ℕ → ℕ → Bool → List ℕ
printint xx base sgn =
    let neg = sgn && slt xx 0 in
    let x = if neg then (2 ^ 32 - xx) % 2 ^ 32 else xx in
    reverse (digits_loop digits_fuel base x ++ (if neg then b'-' ∷ [] else []))

-- The `if` chain of printf for the character behind a `%`. The arguments are the words on the stack;
-- `string` reads the string at an address.
unfoldable pub print_directive : (ℕ → List ℕ) → ℕ → ℕ → List ℕ
print_directive string c arg =
    if c == b'd'
    then printint arg 10 true
    else if c == b'x' || c == b'p'
    then printint arg 16 false
    else if c == b's'
    then (if arg == 0 then b'(' ∷ b'n' ∷ b'u' ∷ b'l' ∷ b'l' ∷ b')' ∷ [] else string arg)
    else if c == b'c'
    then arg % 2 ^ 8 ∷ []
    else if c == b'%'
    then b'%' ∷ []
    else b'%' ∷ c ∷ []

-- Whether the directive takes an argument.
abbrev pub takes_arg : ℕ → Bool
takes_arg c = c == b'd' || c == b'x' || c == b'p' || c == b's' || c == b'c'

-- The loop of printf; `percent` is its state, `ap` the index of the next argument.
unfoldable pub printf_loop : (ℕ → List ℕ) → (ℕ → ℕ) → Bool → ℕ → List ℕ → List ℕ
printf_loop string args percent ap [] = []
printf_loop string args false ap (c ∷ fmt) =
    if c == b'%'
    then printf_loop string args true ap fmt
    else c ∷ printf_loop string args false ap fmt
printf_loop string args true ap (c ∷ fmt) =
    print_directive string c (args ap)
    ++ printf_loop string args false (if takes_arg c then ap + 1 else ap) fmt

unfoldable pub printf : (ℕ → List ℕ) → (ℕ → ℕ) → List ℕ → List ℕ
printf string args fmt = printf_loop string args false 0 fmt
