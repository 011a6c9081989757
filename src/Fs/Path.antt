-- ===== src/Fs/Path.antt =====
-- xv6-public/fs.c: path names. A string is the list of its characters, without the NUL behind them;
-- inodes are numbers and 0 is NULL.
pub mod Elements
pub mod Play
pub mod Balance
use osp.Prelude.{
  ℕ, zero, suc, ◌+◌, Bool, true, false, not, ◌&&◌, ◌||◌, Option, none, some, List, [], ◌∷◌, ◌++◌,
  ◌==◌, if◌then◌else◌, take,
}

abbrev pub dirsiz : ℕ
dirsiz = 14

-- `while(*path == '/') path++`.
unfoldable pub skip_slashes : List ℕ → List ℕ
skip_slashes [] = []
skip_slashes (c ∷ path) = let rest = skip_slashes path in if c == b'/' then rest else c ∷ path

abbrev pub put_first : ℕ → List ℕ × List ℕ → List ℕ × List ℕ
put_first c (elem, rest) = (c ∷ elem, rest)

-- `while(*path != '/' && *path != 0) path++`: the characters passed, and the path from there on.
unfoldable pub take_elem : List ℕ → List ℕ × List ℕ
take_elem [] = ([], [])
take_elem (c ∷ path) = let r = take_elem path in if c == b'/' then ([], c ∷ path) else put_first c r

-- The element is cut at the size of `name`.
abbrev pub elem_of : List ℕ → Option (List ℕ × List ℕ)
elem_of [] = none
elem_of (c ∷ s) = let (elem, rest) = take_elem (c ∷ s) in some (take dirsiz elem, skip_slashes rest)

-- The string in `name`, and the path from the next element on; `none` is the result 0.
unfoldable pub skipelem : List ℕ → Option (List ℕ × List ℕ)
skipelem path = elem_of (skip_slashes path)

-- The calls by which namex changes the inodes' reference counts and locks.
pub data Call : Type 0 where
  iget ilock iunlock iput : ℕ → Call

-- What the inodes hold: which are directories, and what dirlookup finds, 0 if nothing.
pub record Dirs : Type 0 where
  pub is_dir : ℕ → Bool
  pub child : ℕ → List ℕ → ℕ

abbrev pub is_end : List ℕ → Bool
is_end [] = true
is_end (c ∷ path) = false

-- iunlockput.
abbrev pub iunlockput : ℕ → List Call
iunlockput ip = iunlock ip ∷ iput ip ∷ []

-- More calls in front of those of a result.
abbrev pub after : List Call → List Call × ℕ → List Call × ℕ
after calls (more, ip) = (calls ++ more, ip)

-- One round of the loop of namex behind the call of skipelem, and what follows the loop; `loop` goes
-- on from an inode. dirlookup takes the reference to what it finds.
abbrev pub visit :
    Dirs → Bool → ℕ → (ℕ → List ℕ → List Call × ℕ) → Option (List ℕ × List ℕ) → List Call × ℕ
visit d parent ip loop none = if parent then (iput ip ∷ [], 0) else ([], ip)
visit d parent ip loop (some (name, rest)) =
    let found = d.child ip name in
    if not (d.is_dir ip)
    then (ilock ip ∷ iunlockput ip, 0)
    else if parent && is_end rest
    then (ilock ip ∷ iunlock ip ∷ [], ip)
    else if found == 0
    then (ilock ip ∷ iunlockput ip, 0)
    else after (ilock ip ∷ iget found ∷ iunlockput ip) (loop found rest)

-- The loop of namex: the calls and the result.
unfoldable pub namex_loop : ℕ → Dirs → Bool → ℕ → List ℕ → List Call × ℕ
namex_loop zero d parent ip path = ([], 0)
namex_loop (suc fuel) d parent ip path =
    visit d parent ip (λ found rest. namex_loop fuel d parent found rest) (skipelem path)

abbrev pub is_absolute : List ℕ → Bool
is_absolute [] = false
is_absolute (c ∷ path) = c == b'/'

-- One round for each character and one for the end; `root` is the inode of the root directory, `cwd`
-- that of the process. idup takes a reference as iget does.
abbrev pub rounds_of : List ℕ → ℕ
rounds_of [] = 1
rounds_of (c ∷ path) = suc (rounds_of path)

unfoldable pub namex : Dirs → ℕ → ℕ → Bool → List ℕ → List Call × ℕ
namex d root cwd parent path =
    let ip = if is_absolute path then root else cwd in
    after (iget ip ∷ []) (namex_loop (rounds_of path) d parent ip path)

unfoldable pub namei : Dirs → ℕ → ℕ → List ℕ → List Call × ℕ
namei d root cwd path = namex d root cwd false path

unfoldable pub nameiparent : Dirs → ℕ → ℕ → List ℕ → List Call × ℕ
nameiparent d root cwd path = namex d root cwd true path
