-- ===== src/Util/Strings.antt =====
-- C strings of src/util.c: a string is the list of its bytes up to the terminating 0, and a pointer
-- into one is what is left of it from there.
pub mod Laws
mod Tests
use flopnix.Base.{
  ℕ, zero, suc, ◌+◌, ◌-◌, ◌≡◌, refl, Bool, true, false, ◌&&◌, Option, none, some, List, [], ◌∷◌,
  arith, ltb, leb, ◌==◌, if◌then◌else◌, take,
}
use flopnix.Base.Int.{ℤ, pos, negsuc, sub_ℕ}

-- `!strcmp(a, b)`: equal bytes as far as either string goes, and then both ends.
unfoldable pub same : List ℕ → List ℕ → Bool
same [] [] = true
same [] (b ∷ bs) = false
same (a ∷ us) [] = false
same (a ∷ us) (b ∷ bs) = (a == b) && same us bs

pub eq_of_same : (a b : List ℕ) → same a b ≡ true → a ≡ b
unfolding same
eq_of_same [] [] h = refl
eq_of_same [] (b ∷ bs) h = cc
eq_of_same (a ∷ us) [] h = cc
eq_of_same (a ∷ us) (b ∷ bs) h = ground (arith, eq_of_same us bs)

pub same_refl : (a : List ℕ) → same a a ≡ true
unfolding same
same_refl [] = refl
same_refl (a ∷ us) = ground (arith, same_refl us)

-- The loop that `strcmp`, `strncmp` and `strcasecmp` share: bytes count as `f` of them, and `n` of
-- them at most are read.
compare_by : (ℕ → ℕ) → ℕ → List ℕ → List ℕ → ℤ
compare_by f zero us bs = pos 0
compare_by f (suc n) [] [] = pos 0
compare_by f (suc n) [] (b ∷ bs) = sub_ℕ 0 (f b)
compare_by f (suc n) (a ∷ us) [] = sub_ℕ (f a) 0
compare_by f (suc n) (a ∷ us) (b ∷ bs) = elim (f a == f b) [
  | true ↦ compare_by f n us bs
  | false ↦ sub_ℕ (f a) (f b)
]

-- `lower` and `k_tolower`.
abbrev pub lower : ℕ → ℕ
lower c = if leb 65 c && leb c 90 then c + 32 else c

-- `k_toupper`.
abbrev pub upper : ℕ → ℕ
upper c = if leb 97 c && leb c 122 then c - 32 else c

pub strncmp : List ℕ → List ℕ → ℕ → ℤ
unfolding compare_by
strncmp a b n = compare_by (λ c. c) n a b

-- `strcasecmp`, on strings shorter than 2^31.
pub strcasecmp : List ℕ → List ℕ → ℤ
unfolding compare_by
strcasecmp a b = compare_by lower 0x80000000 a b

-- `memcmp`, on two blocks of `n` bytes at least.
pub memcmp : List ℕ → List ℕ → ℕ → ℤ
unfolding compare_by
memcmp a b n = compare_by (λ c. c) n a b

-- `k_strchr`: the rest from the first `c` on, or the end of the string for `c` 0.
unfoldable pub strchr : List ℕ → ℕ → Option (List ℕ)
strchr [] c = if c == 0 then some [] else none
strchr (d ∷ ds) c = if d == c then some (d ∷ ds) else strchr ds c

-- The inner loop of `k_strstr`: whether the needle ends before the two differ.
unfoldable pub starts : List ℕ → List ℕ → Bool
starts [] hay = true
starts (n ∷ ns) [] = false
starts (n ∷ ns) (c ∷ cs) = (c == n) && starts ns cs

-- The outer loop.
strstr_loop : List ℕ → List ℕ → Option (List ℕ)
unfolding starts
strstr_loop needle [] = none
strstr_loop needle (c ∷ cs) =
    if starts needle (c ∷ cs) then some (c ∷ cs) else strstr_loop needle cs

-- `k_strstr`.
pub strstr : List ℕ → List ℕ → Option (List ℕ)
unfolding strstr_loop
strstr hay [] = some hay
strstr hay (n ∷ ns) = strstr_loop (n ∷ ns) hay

-- `strlcpy` into `cap` bytes, which must not be none.
pub strlcpy : ℕ → List ℕ → List ℕ
strlcpy cap s = take (cap - 1) s
