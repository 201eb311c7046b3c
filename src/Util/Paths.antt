-- ===== src/Util/Paths.antt =====
-- The path functions of src/util.c: `path_base`, `path_ext`, `path_dir` and `path_join`.
pub mod Laws
mod Tests
use flopnix.Base.{
  ℕ, zero, suc, ◌+◌, ◌-◌, Bool, true, false, ◌&&◌, ◌||◌, not, Option, none, some, List, [], ◌∷◌,
  ltb, ◌==◌, if◌then◌else◌, length, take,
}
use flopnix.Util.Format.{Arg, str, kfmt}

-- '/' and ':'.
abbrev pub is_separator : ℕ → Bool
is_separator c = (c == 47) || (c == 58)

-- The loop of `path_base`, with `b` so far.
base_from : List ℕ → List ℕ → List ℕ
base_from b [] = b
base_from b (c ∷ cs) = base_from (if is_separator c then cs else b) cs

pub path_base : List ℕ → List ℕ
unfolding base_from
path_base p = base_from p p

-- The loop of `path_ext`: what follows the last dot so far.
ext_from : Option (List ℕ) → List ℕ → Option (List ℕ)
ext_from dot [] = dot
ext_from dot (c ∷ cs) = ext_from (if c == 46 then some cs else dot) cs

pub path_ext : List ℕ → List ℕ
unfolding ext_from
path_ext p = elim (ext_from none (path_base p)) [ none ↦ [] | some ext ↦ ext ]

-- The loop of `path_dir`, at `i`: the place of the last separator, and which it is.
cut_from : ℕ → Option (ℕ × ℕ) → List ℕ → Option (ℕ × ℕ)
cut_from i cut [] = cut
cut_from i cut (c ∷ cs) = cut_from (i + 1) (if is_separator c then some (i, c) else cut) cs

-- `path_dir` into `cap` bytes, which must not be none.
pub path_dir : ℕ → List ℕ → List ℕ
unfolding cut_from
path_dir cap p = elim (cut_from 0 none p) [
  | none ↦ []
  | some (i, c) ↦
      let n = if c == 58 then i + 1 else i in take (if ltb (cap - 1) n then cap - 1 else n) p
]

-- Whether the last byte is a separator.
unfoldable pub trails : List ℕ → Bool
trails [] = false
trails (c ∷ []) = is_separator c
trails (c ∷ d ∷ ds) = trails (d ∷ ds)

-- "%s%s%s".
abbrev three_strings : List ℕ
three_strings = 37 ∷ 115 ∷ 37 ∷ 115 ∷ 37 ∷ 115 ∷ []

pub path_join : ℕ → List ℕ → List ℕ → Option (List ℕ)
unfolding trails
path_join cap dir name =
    let between = if not (length dir == 0) && not (trails dir) then 47 ∷ [] else [] in
    kfmt cap three_strings (str (some dir) ∷ str (some between) ∷ str (some name) ∷ [])
