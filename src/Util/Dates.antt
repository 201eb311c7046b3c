-- ===== src/Util/Dates.antt =====
-- `dow` and `date_fmt` of src/util.c. A time is a DOS time stamp; years are from 1980 on.
pub mod Laws
mod Tests
use flopnix.Base.{
  ℕ, zero, suc, ◌+◌, ◌-◌, ◌*◌, ◌/◌, ◌%◌, ◌^◌, Bool, true, false, Option, none, some, List, [], ◌∷◌,
  ◌++◌, ltb, ◌==◌, if◌then◌else◌, length, take, get_or,
}
use flopnix.Util.Format.{Arg, int, kfmt}

-- The table of `dow`.
abbrev pub month_shift : List ℕ
month_shift = 0 ∷ 3 ∷ 2 ∷ 5 ∷ 0 ∷ 3 ∷ 5 ∷ 1 ∷ 4 ∷ 6 ∷ 2 ∷ 4 ∷ []

-- `dow`: the day of the week, 0 for Sunday.
unfoldable pub dow : ℕ → ℕ → ℕ → ℕ
dow y m d =
    let z = if ltb m 3 then y - 1 else y in
    (z + z / 4 - z / 100 + z / 400 + get_or month_shift (m - 1) 0 + d) % 7

-- The fields of a time stamp.
pub record Fields : Type 0 where
  pub year : ℕ
  pub month : ℕ
  pub day : ℕ
  pub hour : ℕ
  pub minute : ℕ
  pub second : ℕ

fields_of : ℕ → Fields
fields_of dt =
    let m = dt / 2 ^ 21 % 16 in
    record {
      year = 1980 + dt / 2 ^ 25 % 128;
      month = if ltb m 1 then 1 else if ltb 12 m then 12 else m;
      day = dt / 2 ^ 16 % 32;
      hour = dt / 2 ^ 11 % 32;
      minute = dt / 2 ^ 5 % 64;
      second = dt % 32 * 2;
    }

-- The names of the months and days, MON3, MONF and WD3.
pub record Names : Type 0 where
  pub mon3 : List (List ℕ)
  pub monf : List (List ℕ)
  pub wd3 : List (List ℕ)

-- `kfmt(t, sizeof t, "%02d", v)`, and with "%04d".
number : ℕ → ℕ → List ℕ
number width v = elim (kfmt 16 (37 ∷ 48 ∷ (48 + width) ∷ 100 ∷ []) (int false v ∷ [])) [
  | none ↦ []
  | some t ↦ t
]

-- The switch: `t` for a letter, `none` for a letter that stands for nothing.
piece_for : Names → Fields → ℕ → Option (List ℕ)
unfolding number
piece_for names f c =
    if c == b'Y'
    then some (number 4 f.year)
    else if c == b'y'
    then some (number 2 (f.year % 100))
    else if c == b'm'
    then some (number 2 f.month)
    else if c == b'd'
    then some (number 2 f.day)
    else if c == b'H'
    then some (number 2 f.hour)
    else if c == b'M'
    then some (number 2 f.minute)
    else if c == b'S'
    then some (number 2 f.second)
    else if c == b'b'
    then some (take 15 (get_or names.mon3 (f.month - 1) []))
    else if c == b'B'
    then some (take 15 (get_or names.monf (f.month - 1) []))
    else if c == b'a'
    then some (take 15 (get_or names.wd3 (dow f.year f.month f.day) []))
    else if c == b'p'
    then some (if ltb f.hour 12 then b'A' ∷ b'M' ∷ [] else b'P' ∷ b'M' ∷ [])
    else if c == b'I'
    then some (number 2 (if f.hour % 12 == 0 then 12 else f.hour % 12))
    else if c == b'%'
    then some (b'%' ∷ [])
    else none

-- One more byte, if there is room before the 0.
room_for : ℕ → List ℕ → ℕ → List ℕ
room_for cap out c = if ltb (length out + 1) cap then out ++ c ∷ [] else out

-- What a letter after '%' adds; `t` is copied as far as there is room.
add_piece : ℕ → List ℕ → ℕ → Option (List ℕ) → List ℕ
unfolding room_for
add_piece cap out c (some t) = take (cap - 1) (out ++ t)
add_piece cap out c none = room_for cap (out ++ b'%' ∷ []) c

-- The loop of `date_fmt`.
date_from : Names → Fields → ℕ → List ℕ → List ℕ → List ℕ
unfolding piece_for add_piece
date_from names f cap out [] = out
date_from names f cap out (c ∷ []) = if ltb (length out + 1) cap then out ++ c ∷ [] else out
date_from names f cap out (c ∷ d ∷ ds) = elim (ltb (length out + 1) cap) [
  | false ↦ out
  | true ↦ elim (c == b'%') [
    | false ↦ date_from names f cap (out ++ c ∷ []) (d ∷ ds)
    | true ↦ date_from names f cap (add_piece cap out d (piece_for names f d)) ds
  ]
]

pub date_fmt : Names → ℕ → List ℕ → ℕ → List ℕ
unfolding fields_of date_from
date_fmt names dt fmt cap = if cap == 0 then [] else date_from names (fields_of dt) cap [] fmt
