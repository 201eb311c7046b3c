-- ===== src/Fs/Dirs/Names.antt =====
-- The names that renaming a directory gives.
use flopnix.Base.{
  ℕ, suc, ◌+◌, ◌-◌, ◌≤◌, ◌<◌, ◌≡◌, ◌≢◌, ◌⊎◌, refl, sym, ap, ◌∙◌, Bool, true, false, ◌||◌, not, inl,
  inr, none, some, List, [], ◌∷◌, ◌++◌, ltb, arith, Bool-cases, length, length-append, take_all,
  drop,
}
use flopnix.Util.Strings.{same}
use flopnix.Fs.Entry.{name_len}
use flopnix.Fs.Path.{slash, under, rejoin}
use flopnix.Fs.Dirs.{new_name}

-- A name that is under a directory is the directory's, a slash and more.
under-split :
    (name dir : List ℕ) → under name dir ≡ true → (base : List ℕ) × (name ≡ dir ++ slash ∷ base)
unfolding under
under-split [] [] h = absurd cc
under-split (c ∷ []) [] h = absurd cc
under-split (c ∷ d ∷ cs) [] h = (d ∷ cs, ap (λ x. x ∷ d ∷ cs) (ground (arith, h)))
under-split [] (d ∷ ds) h = absurd cc
under-split (c ∷ cs) (d ∷ ds) h =
    let first : c ≡ d = ground arith in
    let rest = under-split cs ds (ground arith) in
    (rest.0, ap (λ x. x ∷ cs) first ∙ ap (◌∷◌ d) rest.1)

drop-append :
    (dir base : List ℕ) (n : ℕ) → n ≡ length dir → drop (n + 1) (dir ++ slash ∷ base) ≡ base
drop-append [] base n e = ap (λ k. drop (k + 1) (slash ∷ base)) e
drop-append (d ∷ ds) base n e =
    ap (λ k. drop k (d ∷ ds ++ slash ∷ base))
      (let k : n + 1 ≡ suc (length ds + 1) = omega (arith, e) in k)
    ∙ drop-append ds base (length ds) refl

append_cancel : (xs : List ℕ) (ys zs : List ℕ) → xs ++ ys ≡ xs ++ zs → ys ≡ zs
append_cancel [] ys zs e = e
append_cancel (x ∷ xs) ys zs e = append_cancel xs ys zs (ap (drop 1) e)

longer : (xs : List ℕ) (c : ℕ) (ys : List ℕ) → xs ≢ xs ++ c ∷ ys
longer xs c ys e = omega (arith, ap length e, length-append xs (c ∷ ys))

-- How a name is changed.
abbrev pub Moves : (olddir newdir name name' : List ℕ) → Type 0
Moves olddir newdir name name' =
    ((name ≡ olddir) × (name' ≡ newdir))
    ⊎ ((base : List ℕ) × (name ≡ olddir ++ slash ∷ base) × (name' ≡ newdir ++ slash ∷ base))

-- Two names that move to one name were one name.
pub Moves-injective :
    (olddir newdir a b c : List ℕ) → Moves olddir newdir a c → Moves olddir newdir b c → a ≡ b
Moves-injective olddir newdir a b c m k = elim m [
  | inl top ↦ elim k [
    | inl top' ↦ top.0 ∙ sym top'.0
    | inr (base, old, new) ↦ absurd (longer newdir slash base (sym top.1 ∙ new))
  ]
  | inr (base, old, new) ↦ elim k [
    | inl top ↦ absurd (longer newdir slash base (sym top.1 ∙ new))
    | inr (base', old', new') ↦
        let same_base : slash ∷ base ≡ slash ∷ base' = append_cancel newdir _ _ (sym new ∙ new') in
        old ∙ ap (λ x. olddir ++ x) same_base ∙ sym old'
  ]
]

or_left : (a b : Bool) → (a || b) ≡ false → a ≡ false
or_left a b h = ground arith

or_right : (a b : Bool) → (a || b) ≡ false → b ≡ false
or_right a b h = ground arith

-- The answer of `fs_rejoin`.
pub rejoin-Moves :
    (name olddir newdir : List ℕ) (room : ℕ) (nn : List ℕ)
    → rejoin name olddir newdir room ≡ some nn
    → Moves olddir newdir name nn × (0 < length nn) × (length nn < room)
unfolding rejoin
rejoin-Moves name olddir newdir room nn h =
    let rest = drop (length olddir + 1) name in
    elim (Bool-cases (not (under name olddir) || ltb room (length newdir + 1 + length rest + 1))) [
      | inl out ↦ absurd (let x : none ≡ some nn = rw out at h in cc)
      | inr fits ↦
          let is : newdir ++ slash ∷ rest ≡ nn =
            ap (λ o. elim o as (λ x. List ℕ) [ none ↦ nn | some x ↦ x ]) (rw fits at h) in
          let parts = under-split name olddir (ground arith) in
          let same_base : rest ≡ parts.0 =
            ap (drop (length olddir + 1)) parts.1
            ∙ drop-append olddir parts.0 (length olddir) refl in
          let size : length nn ≡ length newdir + (1 + length rest) =
            ap length (sym is) ∙ length-append newdir (slash ∷ rest) ∙ omega arith in
          (
            inr (parts.0, parts.1, sym is ∙ ap (λ b. newdir ++ slash ∷ b) same_base),
            omega (arith, size),
            ground (arith, size),
          )
    ]

pub rejoin_wider :
    (name olddir newdir : List ℕ) (room wide : ℕ) (nn : List ℕ)
    → room ≤ wide
    → rejoin name olddir newdir room ≡ some nn
    → rejoin name olddir newdir wide ≡ some nn
unfolding rejoin
rejoin_wider name olddir newdir room wide nn le h =
    let size : ℕ = length newdir + 1 + length (drop (length olddir + 1) name) + 1 in
    elim (Bool-cases (not (under name olddir) || ltb room size)) [
      | inl out ↦ absurd (let x : none ≡ some nn = rw out at h in cc)
      | inr fits ↦
          let fits' : (not (under name olddir) || ltb wide size) ≡ false = ground (arith, fits) in
          rw fits' (rw fits at h)
    ]

-- The name that the second loop gives: the directory's own, one under it, or the name itself.
pub new_name-top :
    (olddir newdir name : List ℕ)
    → length newdir + 2 < name_len
    → same name olddir ≡ true
    → new_name olddir newdir name ≡ newdir
unfolding new_name
new_name-top olddir newdir name short top =
    rw top (take_all (name_len - 1) newdir (omega (arith, short)))

pub new_name-below :
    (olddir newdir name nn : List ℕ)
    → same name olddir ≡ false
    → under name olddir ≡ true
    → rejoin name olddir newdir name_len ≡ some nn
    → new_name olddir newdir name ≡ nn
unfolding new_name
new_name-below olddir newdir name nn below u joined =
    let r = rejoin-Moves name olddir newdir name_len nn joined in
    rw (below, u, joined) (take_all (name_len - 1) nn (omega (arith, r.2)))

pub new_name-else :
    (olddir newdir name : List ℕ)
    → (same name olddir || under name olddir) ≡ false
    → new_name olddir newdir name ≡ name
unfolding new_name
new_name-else olddir newdir name other =
    rw
      (
        or_left (same name olddir) (under name olddir) other,
        or_right (same name olddir) (under name olddir) other,
      )
      refl
