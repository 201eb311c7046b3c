-- ===== src/Fs/Path.antt =====
-- src/fspath.inc: the names of files and directories. A name is the list of its bytes up to the 0.
use flopnix.Base.{
  ℕ, ◌+◌, Bool, true, false, ◌&&◌, ◌||◌, not, Option, none, some, List, [], ◌∷◌, ◌++◌, ltb, leb,
  ◌==◌, if◌then◌else◌, length, drop, ◌≡◌, ◌<◌, arith, Bool-cases, inl, inr,
}
use flopnix.Fs.Entry.{name_len}

-- '/'.
abbrev pub slash : ℕ
slash = 47

-- `name[i] == '/' && name[i + 1]`.
abbrev continues : List ℕ → Bool
continues [] = false
continues (c ∷ []) = false
continues (c ∷ d ∷ cs) = c == slash

-- `fs_under`.
unfoldable pub under : List ℕ → List ℕ → Bool
under name [] = continues name
under [] (d ∷ ds) = false
under (c ∷ cs) (d ∷ ds) = (c == d) && under cs ds

-- `fs_rejoin`; `none` is the answer 0.
unfoldable pub rejoin : List ℕ → List ℕ → List ℕ → ℕ → Option (List ℕ)
unfolding under
rejoin entry olddir newdir cap =
    let base = drop (length olddir + 1) entry in
    if not (under entry olddir) || ltb cap (length newdir + 1 + length base + 1)
    then none
    else some (newdir ++ slash ∷ base)

-- `fs_name_ok`, on a name that is not null.
abbrev pub name_ok : List ℕ → Bool
name_ok n = not (length n == 0) && ltb (length n) name_len

-- Whether a byte is the last one of a list.
ends_in : ℕ → List ℕ → Bool
ends_in c [] = false
ends_in c (d ∷ []) = d == c
ends_in c (d ∷ e ∷ ds) = ends_in c (e ∷ ds)

-- A part that is empty, begins or ends with a space, or is "." or "..".
part_bad : List ℕ → Bool
unfolding ends_in
part_bad [] = true
part_bad (c ∷ cs) =
    (c == 32)
    || (ends_in 32 (c ∷ cs)
        || ((c == 46) && ((length cs == 0) || ((length cs == 1) && ends_in 46 cs))))

-- The loop of `fs_dirname_ok`, at byte `l`, with the bytes of the part since `begin`.
dirname_from : ℕ → List ℕ → List ℕ → Bool
unfolding part_bad
dirname_from l part [] = not (leb name_len (l + 2)) && not (part_bad part)
dirname_from l part (c ∷ cs) =
    if leb name_len (l + 2)
    then false
    else if c == slash
    then not (part_bad part) && dirname_from (l + 1) [] cs
    else not (ltb c 32 || ((c == 127) || ((c == 92) || (c == 58))))
      && dirname_from (l + 1) (part ++ c ∷ []) cs

unfoldable pub dirname_ok : List ℕ → Bool
unfolding dirname_from
dirname_ok [] = false
dirname_ok (c ∷ cs) = dirname_from 0 [] (c ∷ cs)

dirname_from-short :
    (l : ℕ) (part cs : List ℕ) → dirname_from l part cs ≡ true → l + length cs + 2 < name_len
unfolding dirname_from
dirname_from-short l part [] h = ground arith
dirname_from-short l part (c ∷ cs) h = elim (Bool-cases (c == slash)) [
  | inl next ↦ ground (arith, dirname_from-short (l + 1) [] cs)
  | inr same ↦ ground (arith, dirname_from-short (l + 1) (part ++ c ∷ []) cs)
]

pub dirname_ok-short :
    (n : List ℕ) → dirname_ok n ≡ true → (0 < length n) × (length n + 2 < name_len)
unfolding dirname_ok
dirname_ok-short [] h = absurd cc
dirname_ok-short (c ∷ cs) h = (omega arith, omega (arith, dirname_from-short 0 [] (c ∷ cs) h))
