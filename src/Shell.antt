-- ===== src/Shell.antt =====
-- Paths as the shell and the file dialogs take them, src/shpath.h. A string is its bytes before the
-- 0; a buffer of `room` bytes takes one less.
mod Laws
mod Tests
use flopnix.Base.{
  ℕ, ◌+◌, ◌-◌, Bool, true, false, ◌&&◌, ◌||◌, Option, none, some, List, [], ◌∷◌, ◌++◌, map, ltb,
  leb, ◌==◌, if◌then◌else◌, take, get_or,
}

-- `c += 32` of a capital.
abbrev lower_ascii : ℕ → ℕ
lower_ascii c = if leb b'A' c && leb c b'Z' then c + 32 else c

-- `sh_ci_eq`.
abbrev pub ci_eq : ℕ → ℕ → Bool
ci_eq a b = lower_ascii a == lower_ascii b

-- `(*p == '\\') ? '/' : *p`.
abbrev pub forward_slash : ℕ → ℕ
forward_slash c = if c == 92 then b'/' else c

-- `while (*s == ' ' || *s == '\t') s++`.
unfoldable pub skip_blanks : List ℕ → List ℕ
skip_blanks [] = []
skip_blanks (c ∷ cs) = let rest = skip_blanks cs in if (c == b' ') || (c == 9) then rest else c ∷ cs

-- What follows the first ':' before any '/', if there is one.
unfoldable pub after_colon : List ℕ → Option (List ℕ)
after_colon [] = none
after_colon (c ∷ cs) =
    let rest = after_colon cs in if c == b'/' then none else if c == b':' then some cs else rest

-- The bytes behind a prefix, in capitals or not.
unfoldable pub after_prefix : List ℕ → List ℕ → Option (List ℕ)
after_prefix [] cs = some cs
after_prefix (p ∷ ps) [] = none
after_prefix (p ∷ ps) (c ∷ cs) = let rest = after_prefix ps cs in if ci_eq c p then rest else none

-- `while (*s == '/') s++`.
unfoldable pub skip_slashes : List ℕ → List ℕ
skip_slashes [] = []
skip_slashes (c ∷ cs) = let rest = skip_slashes cs in if c == b'/' then rest else c ∷ cs

-- "floppy/".
abbrev pub floppy_prefix : List ℕ
floppy_prefix = b'f' ∷ b'l' ∷ b'o' ∷ b'p' ∷ b'p' ∷ b'y' ∷ b'/' ∷ []

-- The rest, or all of it.
abbrev pub rest_or : List ℕ → Option (List ℕ) → List ℕ
rest_or cs none = cs
rest_or cs (some rest) = rest

-- `sh_norm_path`.
unfoldable pub norm_path : ℕ → List ℕ → List ℕ
unfolding skip_blanks after_colon after_prefix skip_slashes
norm_path room path =
    let s = skip_blanks (map forward_slash (take 127 path)) in
    let t = rest_or s (after_colon s) in
    let u = rest_or t (after_prefix floppy_prefix t) in take (room - 1) (skip_slashes u)

-- The tag of a drive, and whether it is drive 1.
abbrev pub drive_tag : ℕ → Option Bool
drive_tag c =
    if (c == b'u') || (c == b'U')
    then some true
    else if (c == b'a') || (c == b'A')
    then some false
    else none

-- The tag of a spec, and what follows it.
abbrev pub tagged : List ℕ → Option Bool × List ℕ
tagged (c ∷ d ∷ cs) =
    if d == b':'
    then (drive_tag c, elim (drive_tag c) [ none ↦ c ∷ d ∷ cs | some drive ↦ cs ])
    else (none, c ∷ d ∷ cs)
tagged spec = (none, spec)

-- `sh_spec_split`: whether it was tagged, the drive, and the path; a null spec is `none`.
unfoldable pub spec_split : ℕ → Option (List ℕ) → Bool × Bool × List ℕ
spec_split room none = (false, false, [])
spec_split room (some spec) = elim ((tagged spec).0) [
  | none ↦ (false, false, take (room - 1) (tagged spec).1)
  | some drive ↦ (true, drive, take (room - 1) (tagged spec).1)
]

-- `sh_is_system_file`.
is_system_file : Option (List ℕ) → Bool
is_system_file none = false
is_system_file (some name) =
    ci_eq (get_or name 0 0) b's'
    && ci_eq (get_or name 1 0) b'y'
    && ci_eq (get_or name 2 0) b's'
    && (get_or name 3 0 == b'/')

-- A path, with the slash that it gets on drive 1; a null path is `none`.
abbrev pub rooted : Bool → Option (List ℕ) → List ℕ
rooted drive none = []
rooted false (some path) = path
rooted true (some []) = b'/' ∷ []
rooted true (some (c ∷ cs)) = if c == b'/' then c ∷ cs else b'/' ∷ c ∷ cs

-- `sh_spec_make`, in a buffer of `room` bytes; with none it writes nothing.
unfoldable pub spec_make : ℕ → Bool → Option (List ℕ) → Option (List ℕ)
spec_make room drive path =
    if room == 0
    then none
    else let tag = if ltb 2 room then (if drive then b'u' else b'a') ∷ b':' ∷ [] else [] in
      some (take (room - 1) (tag ++ rooted drive path))
