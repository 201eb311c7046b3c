-- ===== src/Shell/Laws.antt =====
-- A path with its drive is read back, and a normalised path is relative.
use flopnix.Base.{
  ℕ, zero, suc, ◌+◌, ◌-◌, ◌≤◌, ◌<◌, ◌≡◌, ◌≢◌, refl, Bool, true, false, ◌||◌, Option, some, List, [],
  ◌∷◌, map, inl, inr, ltb, ◌==◌, if◌then◌else◌, arith, Bool-cases, All, length, take, take_all,
  length-take,
}
use flopnix.Shell.{
  forward_slash, ci_eq, skip_blanks, after_colon, after_prefix, skip_slashes, floppy_prefix,
  rest_or, norm_path, spec_split, rooted, spec_make,
}

has_room : (room n : ℕ) → n + 3 ≤ room → ((room == 0) ≡ false) × (ltb 2 room ≡ true)
has_room room n h = (ground arith, ground arith)

made :
    (room : ℕ) (drive : Bool) (body : List ℕ)
    → length body + 3 ≤ room
    → spec_split room (some ((if drive then b'u' else b'a') ∷ b':' ∷ body)) ≡ (true, drive, body)
unfolding spec_split
made room true body h = rw (take_all (room - 1) body (omega arith)) refl
made room false body h = rw (take_all (room - 1) body (omega arith)) refl

-- `sh_spec_split` gives back what `sh_spec_make` put together, in a buffer with room for it: the
-- tag, the drive, and the path with the slash that it got on drive 1.
pub spec_split-spec_make :
    (room : ℕ) (drive : Bool) (path : Option (List ℕ))
    → length (rooted drive path) + 3 ≤ room
    → spec_split room (spec_make room drive path) ≡ (true, drive, rooted drive path)
unfolding spec_make
spec_split-spec_make room drive path h =
    let body = rooted drive path in
    let room_ = has_room room (length body) h in
    let whole : take (room - 1) ((if drive then b'u' else b'a') ∷ b':' ∷ body)
        ≡ (if drive then b'u' else b'a') ∷ b':' ∷ body =
      take_all (room - 1) _ (ground (arith, h)) in
    rw (room_.0, room_.1, whole) (made room drive body h)

-- No byte is a backslash.
abbrev pub Forward : List ℕ → Type 0
Forward = All (λ c. c ≢ 92)

forward_slash_lem : (c : ℕ) → forward_slash c ≢ 92
forward_slash_lem c = ground arith

map-forward_slash-Forward : (cs : List ℕ) → Forward (map forward_slash cs)
map-forward_slash-Forward [] = tt
map-forward_slash-Forward (c ∷ cs) = (forward_slash_lem c, map-forward_slash-Forward cs)

Forward-if : (b : Bool) (x y : List ℕ) → Forward x → Forward y → Forward (if b then x else y)
Forward-if true x y f g = f
Forward-if false x y f g = g

skip_blanks-Forward : (cs : List ℕ) → Forward cs → Forward (skip_blanks cs)
unfolding skip_blanks
skip_blanks-Forward [] f = f
skip_blanks-Forward (c ∷ cs) f =
    Forward-if ((c == b' ') || (c == 9)) _ (c ∷ cs) (skip_blanks-Forward cs f.1) f

skip_slashes-Forward : (cs : List ℕ) → Forward cs → Forward (skip_slashes cs)
unfolding skip_slashes
skip_slashes-Forward [] f = f
skip_slashes-Forward (c ∷ cs) f = Forward-if (c == b'/') _ (c ∷ cs) (skip_slashes-Forward cs f.1) f

after_colon-Forward :
    (all cs : List ℕ) → Forward all → Forward cs → Forward (rest_or all (after_colon cs))
unfolding after_colon
after_colon-Forward all [] g f = g
after_colon-Forward all (c ∷ cs) g f = elim (Bool-cases (c == b'/')) [
  | inl slash_ ↦ rw slash_ g
  | inr other ↦ elim (Bool-cases (c == b':')) [
    | inl colon ↦ rw (other, colon) f.1
    | inr on ↦ rw (other, on) (after_colon-Forward all cs g f.1)
  ]
]

after_prefix-Forward :
    (all ps cs : List ℕ) → Forward all → Forward cs → Forward (rest_or all (after_prefix ps cs))
unfolding after_prefix
after_prefix-Forward all [] cs g f = f
after_prefix-Forward all (p ∷ ps) [] g f = g
after_prefix-Forward all (p ∷ ps) (c ∷ cs) g f = elim (Bool-cases (ci_eq c p)) [
  | inl same ↦ rw same (after_prefix-Forward all ps cs g f.1)
  | inr other ↦ rw other g
]

take-Forward : (n : ℕ) (cs : List ℕ) → Forward cs → Forward (take n cs)
take-Forward zero cs f = tt
take-Forward (suc n) [] f = tt
take-Forward (suc n) (c ∷ cs) f = (f.0, take-Forward n cs f.1)

-- The first byte is no slash.
abbrev pub NotRooted : List ℕ → Type 0
NotRooted [] = Unit
NotRooted (c ∷ cs) = c ≢ b'/'

skip_slashes-NotRooted : (n : ℕ) (cs : List ℕ) → NotRooted (take n (skip_slashes cs))
unfolding skip_slashes
skip_slashes-NotRooted zero cs = tt
skip_slashes-NotRooted (suc n) [] = tt
skip_slashes-NotRooted (suc n) (c ∷ cs) = elim (Bool-cases (c == b'/')) [
  | inl slash_ ↦ rw slash_ (skip_slashes-NotRooted (suc n) cs)
  | inr other ↦ rw other (ground arith)
]

take_short : (room : ℕ) (cs : List ℕ) → 1 ≤ room → length (take (room - 1) cs) < room
take_short room cs h = omega (arith, length-take (room - 1) cs, h)

-- A name inside a volume: no backslash, no slash in front, and it fits.
abbrev pub IsRelative : ℕ → List ℕ → Type 0
IsRelative room path = Forward path × NotRooted path × (length path < room)

cut-IsRelative :
    (room : ℕ) (u : List ℕ)
    → Forward u
    → 1 ≤ room
    → IsRelative room (take (room - 1) (skip_slashes u))
cut-IsRelative room u f h = (
  take-Forward (room - 1) (skip_slashes u) (skip_slashes-Forward u f),
  skip_slashes-NotRooted (room - 1) u,
  take_short room (skip_slashes u) h,
)

-- `sh_norm_path` gives a name inside a volume, whatever was typed: no byte of it is a backslash, it
-- does not start with a slash, and with its 0 it fits into the buffer.
pub norm_path-IsRelative :
    (room : ℕ) (path : List ℕ) → 1 ≤ room → IsRelative room (norm_path room path)
unfolding norm_path
norm_path-IsRelative room path h =
    let s = skip_blanks-Forward _ (map-forward_slash-Forward (take 127 path)) in
    let t = after_colon-Forward _ _ s s in
    let u = after_prefix-Forward _ floppy_prefix _ t t in cut-IsRelative room _ u h
