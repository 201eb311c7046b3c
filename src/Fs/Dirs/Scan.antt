-- ===== src/Fs/Dirs/Scan.antt =====
-- The first loop of renaming a directory: the names that it lets the second one give.
use flopnix.Base.{
  ℕ, ◌+◌, ◌≤◌, ◌<◌, ◌≡◌, refl, subst, sym, Bool, true, false, ◌&&◌, ◌||◌, inl, inr, Option, none,
  some, List, [], ◌∷◌, arith, Bool-cases, Option-cases, is_some, All, length,
}
use flopnix.Util.Strings.{same, eq_of_same}
use flopnix.Fs.Entry.{Entry, find, in_use, name_len}
use flopnix.Fs.Path.{under, rejoin}
use flopnix.Fs.Volume.{refused, minus_two}
use flopnix.Fs.Volume.Table.{Unnamed, not_found}
use flopnix.Fs.Dirs.{scan_names, new_name}
use flopnix.Fs.Dirs.Names.{Moves, rejoin-Moves, rejoin_wider, new_name-top, new_name-below}

pub is_none : (o : Option (ℕ × Entry)) → is_some o ≡ false → o ≡ none
is_none none h = refl
is_none (some x) h = absurd cc

module _ (olddir newdir : List ℕ) where
  abbrev pub moving : Entry → Bool
  moving e = same e.name olddir || under e.name olddir

  -- The name that an entry gets.
  abbrev pub next : Entry → List ℕ
  next e = new_name olddir newdir e.name

  -- A used entry that is renamed gets a name that fits and that no used entry of the table has.
  abbrev pub Fresh : List Entry → Entry → Type 0
  Fresh table e =
      in_use e ≡ true
      → moving e ≡ true
      → Moves olddir newdir e.name (next e)
        × (0 < length (next e))
        × (length (next e) < name_len)
        × All (Unnamed (next e)) table

  gets_name :
      (table : List Entry) (e : Entry) (nn : List ℕ)
      → next e ≡ nn
      → Moves olddir newdir e.name nn
      → 0 < length nn
      → length nn < name_len
      → All (Unnamed nn) table
      → Moves olddir newdir e.name (next e)
        × (0 < length (next e))
        × (length (next e) < name_len)
        × All (Unnamed (next e)) table
  gets_name table e nn is m p l a =
      subst
        (λ x.
          Moves olddir newdir e.name x
          × (0 < length x)
          × (length x < name_len)
          × All (Unnamed x) table)
        (sym is) (m, p, l, a)

  pub scan_names-Fresh :
      (room : ℕ) (table : List Entry) (hits h : ℕ) (es : List Entry)
      → room ≤ name_len
      → 0 < length newdir
      → length newdir + 2 < name_len
      → All (Unnamed newdir) table
      → scan_names room olddir newdir table hits es ≡ inr h
      → All (Fresh table) es
  unfolding scan_names
  scan_names-Fresh room table hits h [] r p l a s = tt
  scan_names-Fresh room table hits h (e ∷ es) r p l a s = elim (Bool-cases (in_use e && moving e)) [
    | inr rests ↦ (
      λ u w. absurd (ground arith),
      scan_names-Fresh room table hits h es r p l a (rw (rests, scan_names) at s),
    )
    | inl goes ↦ elim (Bool-cases (same e.name olddir)) [
      | inl top ↦ (
        λ u w.
            gets_name table e newdir (new_name-top olddir newdir e.name l top)
              (inl (eq_of_same e.name olddir top, refl)) p (omega (arith, l)) a,
        scan_names-Fresh room table (hits + 1) h es r p l a (rw (goes, top, scan_names) at s),
      )
      | inr below ↦ elim (Option-cases (rejoin e.name olddir newdir room)) [
        | inl miss ↦
            absurd (let x : inl minus_two ≡ inr h = rw (goes, below, miss, scan_names) at s in cc)
        | inr (nn, joined) ↦ elim (Bool-cases (is_some (find table nn))) [
          | inl taken ↦
              absurd (
                let x : inl refused ≡ inr h = rw (goes, below, joined, taken, scan_names) at s in
                cc)
          | inr free ↦ (
            λ u w.
                let wide = rejoin_wider e.name olddir newdir room name_len nn r joined in
                let q = rejoin-Moves e.name olddir newdir name_len nn wide in
                gets_name table e nn
                  (new_name-below olddir newdir e.name nn below (rw below at w) wide) q.0 q.1 q.2
                  (not_found table nn (is_none (find table nn) free)),
            scan_names-Fresh room table (hits + 1) h es r p l a
                (rw (goes, below, joined, free, scan_names) at s),
          )
        ]
      ]
    ]
  ]
