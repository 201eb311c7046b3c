-- ===== src/Util/Dates/Tests.antt =====
-- A time formatted, and the leap day of 2024.
use flopnix.Base.{ℕ, ◌+◌, ◌*◌, ◌%◌, ◌^◌, ◌≡◌, ◌≤◌, refl, List, [], ◌∷◌, length, arith}
use flopnix.Util.Dates.{dow, Names, fields_of, piece_for, date_from, date_fmt}
use flopnix.Util.Dates.Laws.{next_day, dow-next_day, date_fmt-Fits}

abbrev names : Names
names = record {
  mon3 = (b'J' ∷ b'a' ∷ b'n' ∷ []) ∷ (b'F' ∷ b'e' ∷ b'b' ∷ []) ∷ [];
  monf = [];
  wd3 = [];
}

-- 29 February 2024, 13:05.
abbrev stamp : ℕ
stamp = 44 * 2 ^ 25 + 2 * 2 ^ 21 + 29 * 2 ^ 16 + 13 * 2 ^ 11 + 5 * 2 ^ 5

abbrev format : List ℕ
format = b'%' ∷ b'b' ∷ b' ' ∷ b'%' ∷ b'p' ∷ b'%' ∷ b'%' ∷ []

text : date_fmt names stamp format 32 ≡ b'F' ∷ b'e' ∷ b'b' ∷ b' ' ∷ b'P' ∷ b'M' ∷ b'%' ∷ []
unfolding date_fmt date_from fields_of piece_for
text = refl

thursday : dow 2024 2 29 ≡ 4
unfolding dow
thursday = refl

dow-next_day_example :
    dow (next_day 2024 2 29).0 (next_day 2024 2 29).1 (next_day 2024 2 29).2
    ≡ (dow 2024 2 29 + 1) % 7
dow-next_day_example =
    dow-next_day 2024 2 29 (omega arith) (omega arith) (omega arith) (omega arith) (omega arith)

date_fmt-Fits_example : length (date_fmt names stamp format 8) ≤ 7
date_fmt-Fits_example = date_fmt-Fits names stamp format 7
