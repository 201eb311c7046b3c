-- ===== src/Util/Dates/Laws.antt =====
-- The days of the week follow each other, and a formatted date fits.
use flopnix.Base.{
  ℕ, zero, suc, ◌+◌, ◌-◌, ◌/◌, ◌%◌, ◌≤◌, ◌<◌, ◌≡◌, ◌∙◌, sym, ap, subst, Bool, false, ◌&&◌, ◌||◌,
  not, Option, none, some, List, [], ◌∷◌, ◌++◌, ltb, ◌==◌, if◌then◌else◌, length, take, get_or,
  arith, Bool-cases, inl, inr, length-append, length-take, not_ltb→le, not_ltb→le,
}
use flopnix.Util.Dates.{
  month_shift, dow, fields_of, Names, Fields, add_piece, room_for, piece_for, date_from, date_fmt,
}

-- The Gregorian calendar.
abbrev pub is_leap : ℕ → Bool
is_leap y = (y % 4 == 0) && (not (y % 100 == 0) || (y % 400 == 0))

abbrev pub month_days : ℕ → ℕ → ℕ
month_days y m =
    if m == 2
    then (if is_leap y then 29 else 28)
    else if (m == 4) || ((m == 6) || ((m == 9) || (m == 11)))
    then 30
    else 31

-- The day after a date.
abbrev pub next_day : ℕ → ℕ → ℕ → ℕ × ℕ × ℕ
next_day y m d =
    if ltb d (month_days y m)
    then (y, m, d + 1)
    else if ltb m 12
    then (y, m + 1, 1)
    else (y + 1, 1, 1)

dow-same : (y m d : ℕ) → dow y m (d + 1) ≡ (dow y m d + 1) % 7
unfolding dow
dow-same y m d =
    let z = if ltb m 3 then y - 1 else y in
    let k = z + z / 4 - z / 100 + z / 400 + get_or month_shift (m - 1) 0 in omega arith

-- A year more, by whether it is a leap year.
leap :
    (y : ℕ)
    → let z = y - 1 in
      0 < y
      → (y + y / 4 - y / 100 + y / 400)
        ≡ (z + z / 4 - z / 100 + z / 400 + (if is_leap y then 2 else 1))
leap y h = grind arith

month_end :
    (y m : ℕ) → 0 < y → 0 < m → m < 12 → dow y (m + 1) 1 ≡ (dow y m (month_days y m) + 1) % 7
unfolding dow
month_end y zero years months top = absurd (omega arith)
month_end y (suc zero) years months top = omega arith
month_end y (suc (suc zero)) years months top = elim (Bool-cases (is_leap y)) [
  | inl long ↦ let g = leap y years in rw long (let g' = rw long at g in omega (arith, g'))
  | inr short ↦ let g = leap y years in rw short (let g' = rw short at g in omega (arith, g'))
]
month_end y (suc (suc (suc zero))) years months top = omega arith
month_end y (suc (suc (suc (suc zero)))) years months top = omega arith
month_end y (suc (suc (suc (suc (suc zero))))) years months top = omega arith
month_end y (suc (suc (suc (suc (suc (suc zero)))))) years months top = omega arith
month_end y (suc (suc (suc (suc (suc (suc (suc zero))))))) years months top = omega arith
month_end y (suc (suc (suc (suc (suc (suc (suc (suc zero)))))))) years months top = omega arith
month_end y (suc (suc (suc (suc (suc (suc (suc (suc (suc zero))))))))) years months top =
    omega arith
month_end y (suc (suc (suc (suc (suc (suc (suc (suc (suc (suc zero)))))))))) years months top =
    omega arith
month_end y (suc (suc (suc (suc (suc (suc (suc (suc (suc (suc (suc zero))))))))))) years months
      top =
    omega arith
month_end y (suc (suc (suc (suc (suc (suc (suc (suc (suc (suc (suc (suc m)))))))))))) years months
      top =
    absurd (omega arith)

year_end : (y : ℕ) → dow (y + 1) 1 1 ≡ (dow y 12 31 + 1) % 7
unfolding dow
year_end y = omega arith

-- `dow` of the day after a date is the next day of the week, over the ends of months and years,
-- leap days included.
pub dow-next_day :
    (y m d : ℕ)
    → 0 < y
    → 0 < m
    → m ≤ 12
    → 0 < d
    → d ≤ month_days y m
    → dow (next_day y m d).0 (next_day y m d).1 (next_day y m d).2 ≡ (dow y m d + 1) % 7
dow-next_day y m d years months top days within = elim (Bool-cases (ltb d (month_days y m))) [
  | inl same ↦ rw same (dow-same y m d)
  | inr over ↦
      let full : d ≡ month_days y m = omega (arith, not_ltb→le d (month_days y m) over) in
      elim (Bool-cases (ltb m 12)) [
        | inl inside ↦ rw over (
            rw inside (
              month_end y m years months (ground arith) ∙ ap (λ x. (dow y m x + 1) % 7) (sym full)))
        | inr last ↦
            let twelve : 12 ≡ m = omega (arith, not_ltb→le m 12 last) in
            let at_end : 31 ≡ d = ap (month_days y) twelve ∙ sym full in
            rw over (
              rw last (
                subst (λ n. dow (y + 1) 1 1 ≡ (dow y n d + 1) % 7) twelve
                  (subst (λ k. dow (y + 1) 1 1 ≡ (dow y 12 k + 1) % 7) at_end (year_end y))))
      ]
]

add_piece_fits :
    (k : ℕ) (out : List ℕ) (c : ℕ) (t : Option (List ℕ))
    → length out < k
    → length (add_piece (suc k) out c t) ≤ k
unfolding add_piece room_for
add_piece_fits k out c none room = elim (Bool-cases (ltb (length (out ++ b'%' ∷ []) + 1) (suc k))) [
  | inl more ↦
      rw more
        (ground (arith, length-append out (b'%' ∷ []), length-append (out ++ b'%' ∷ []) (c ∷ [])))
  | inr stop ↦ rw stop (ground (arith, length-append out (b'%' ∷ [])))
]
add_piece_fits k out c (some t) room =
    let short : length (take k (out ++ t)) ≤ k = omega (arith, length-take k (out ++ t)) in
    let before_end : suc k - 1 ≡ k = omega arith in rw before_end short

date_from_fits :
    (names : Names) (f : Fields) (k : ℕ) (out fmt : List ℕ)
    → length out ≤ k
    → length (date_from names f (suc k) out fmt) ≤ k
unfolding date_from
date_from_fits names f k out [] h = h
date_from_fits names f k out (c ∷ []) h = elim (Bool-cases (ltb (length out + 1) (suc k))) [
  | inl room ↦ rw room (ground (arith, length-append out (c ∷ [])))
  | inr full ↦ rw full h
]
date_from_fits names f k out (c ∷ d ∷ ds) h = elim (Bool-cases (ltb (length out + 1) (suc k))) [
  | inr full ↦ rw (full, date_from) h
  | inl room ↦ elim (Bool-cases (c == b'%')) [
    | inl code ↦
        rw (room, code, date_from)
          (date_from_fits names f k (add_piece (suc k) out d (piece_for names f d)) ds
            (add_piece_fits k out d (piece_for names f d) (ground arith)))
    | inr plain ↦
        rw (room, plain, date_from)
          (date_from_fits names f k (out ++ c ∷ []) (d ∷ ds)
            (ground (arith, length-append out (c ∷ []))))
  ]
]

-- `date_fmt` leaves room for the 0 in a buffer of `k + 1` bytes, whatever the format.
pub date_fmt-Fits :
    (names : Names) (dt : ℕ) (fmt : List ℕ) (k : ℕ) → length (date_fmt names dt fmt (suc k)) ≤ k
unfolding date_fmt
date_fmt-Fits names dt fmt k =
    let room : (suc k == 0) ≡ false = ground arith in
    rw room (date_from_fits names (fields_of dt) k [] fmt (omega arith))
