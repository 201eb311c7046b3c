-- ===== src/Calc.antt =====
-- The calculator, kexts/calc.c: numbers of four places, what is typed and shown, and the keys.
mod Word
mod Divide
mod Laws
mod Tests
use flopnix.Base.{
  ℕ, zero, suc, ◌+◌, ◌-◌, ◌*◌, ◌/◌, ◌%◌, ◌^◌, Bool, true, false, ◌&&◌, ◌||◌, not, Option, none,
  some, List, [], ◌∷◌, ◌++◌, ltb, leb, ◌==◌, if◌then◌else◌, length, take, drop, get_or,
}
use flopnix.Util.Format.{Arg, str, num, kfmt}
use flopnix.Calc.Word.{is_negative, negate, magnitude, divll, less, wrap_add, fix, fmax, mul_ovf}

-- acc, entry with elen, pend and err.
pub record Calc : Type 0 where
  pub acc : ℕ
  pub entry : List ℕ
  pub pend : ℕ
  pub err : Bool

-- What the loop of `entry_val` changes.
pub record Reading : Type 0 where
  pub ip : ℕ
  pub fp : ℕ
  pub scale : ℕ
  pub neg : Bool
  pub dot : Bool

-- One character.
abbrev pub read_char : ℕ → Reading → Reading
read_char c r =
    if c == b'-'
    then record r { neg = true }
    else if c == b'.'
    then record r { dot = true }
    else if not r.dot
    then record r { ip = (r.ip * 10 + (c + 2 ^ 64 - b'0')) % 2 ^ 64 }
    else if ltb 1 r.scale
    then record r {
      scale = r.scale / 10;
      fp = (r.fp + (c + 2 ^ 64 - b'0') * (r.scale / 10)) % 2 ^ 64;
    }
    else r

unfoldable pub read_entry : Reading → List ℕ → Reading
read_entry r [] = r
read_entry r (c ∷ cs) = read_entry (read_char c r) cs

unfoldable pub entry_val : List ℕ → ℕ
unfolding read_entry
entry_val entry =
    let r = read_entry (record { ip = 0; fp = 0; scale = fix; neg = false; dot = false }) entry in
    let v = wrap_add (r.ip * fix % 2 ^ 64) r.fp in if r.neg then negate v else v

-- `frac` from its end on, without its zeros but for the first place.
abbrev trim_frac : List ℕ → List ℕ
trim_frac (a ∷ b ∷ c ∷ d ∷ []) =
    if not (d == b'0')
    then a ∷ b ∷ c ∷ d ∷ []
    else if not (c == b'0')
    then a ∷ b ∷ c ∷ []
    else if not (b == b'0')
    then a ∷ b ∷ []
    else a ∷ []
trim_frac other = other

-- The sign that is printed.
abbrev sign : ℕ → Arg
sign v = str (some (if is_negative v then b'-' ∷ [] else []))

-- `fmt_fix`, in a buffer of `room` bytes.
pub fmt_fix : ℕ → Bool → ℕ → Option (List ℕ)
fmt_fix v err room =
    if err
    then some (take (room - 1) (b'e' ∷ b'r' ∷ b'r' ∷ b'o' ∷ b'r' ∷ []))
    else let a = magnitude v in
      let ipl = divll a fix in
      let ip = ipl % 2 ^ 32 in
      let fp = wrap_add a (negate (ipl * fix % 2 ^ 64)) % 2 ^ 32 in
      if fp == 0
      then kfmt room (b'%' ∷ b's' ∷ b'%' ∷ b'u' ∷ []) (sign v ∷ num ip ∷ [])
      else elim (kfmt 8 (b'%' ∷ b'0' ∷ b'4' ∷ b'u' ∷ []) (num fp ∷ [])) [
        | none ↦ none
        | some frac ↦
            kfmt room (b'%' ∷ b's' ∷ b'%' ∷ b'u' ∷ b'.' ∷ b'%' ∷ b's' ∷ [])
              (sign v ∷ num ip ∷ str (some (trim_frac frac)) ∷ [])
      ]

-- The switch of `apply`; `none` is the error.
unfoldable pub operate : ℕ → ℕ → ℕ → Option ℕ
unfolding mul_ovf divll
operate pend acc b =
    if pend == b'+'
    then some (wrap_add acc b)
    else if pend == b'-'
    then some (wrap_add acc (negate b))
    else if pend == b'*'
    then elim (mul_ovf acc b) [ none ↦ none | some p ↦ some (divll p fix) ]
    else if pend == b'/'
    then if b == 0 then none else elim (mul_ovf acc fix) [ none ↦ none | some n ↦ some (divll n b) ]
    else some b

-- The test at the end of `apply`.
abbrev pub settle : Calc → Option ℕ → Calc
settle s none = record s { err = true }
settle s (some r) =
    if less fmax r || less r (negate fmax) then record s { err = true } else record s { acc = r }

unfoldable pub apply : Calc → Calc
unfolding operate entry_val
apply s = settle s (operate s.pend s.acc (if length s.entry == 0 then s.acc else entry_val s.entry))

-- A digit key: the loop over the entry, for the place of the dot and the number of digits.
unfoldable pub scan_entry : ℕ → Option ℕ × ℕ → List ℕ → Option ℕ × ℕ
scan_entry i r [] = r
scan_entry i (dot, digs) (c ∷ cs) =
    scan_entry (i + 1)
      (if c == b'.' then (some i, digs) else if c == b'-' then (dot, digs) else (dot, digs + 1)) cs

-- The first character of the entry is a minus.
abbrev pub starts_minus : List ℕ → Bool
starts_minus [] = false
starts_minus (c ∷ cs) = c == b'-'

-- The two tests before a digit is put down.
abbrev pub digit_fits : List ℕ → Option ℕ × ℕ → Bool
digit_fits entry (none, digs) = not (leb 9 digs)
digit_fits entry (some dot, digs) =
    not (leb 9 (dot - (if starts_minus entry then 1 else 0))) && not (ltb 4 (length entry - dot))

unfoldable pub press_digit : ℕ → Calc → Calc
unfolding scan_entry
press_digit k s =
    if digit_fits s.entry (scan_entry 0 (none, 0) s.entry) && ltb (length s.entry) 22
    then record s { entry = s.entry ++ k ∷ [] }
    else s

-- `.` is in the entry.
abbrev pub has_dot : List ℕ → Bool
has_dot [] = false
has_dot (c ∷ cs) = (c == b'.') || has_dot cs

abbrev pub press_dot : Calc → Calc
press_dot s =
    if has_dot s.entry || not (ltb (length s.entry) 20)
    then s
    else if length s.entry == 0
    then record s { entry = b'0' ∷ b'.' ∷ [] }
    else record s { entry = s.entry ++ b'.' ∷ [] }

-- The key of the sign; the two moves of the bytes take the minus away or make room for it.
abbrev pub press_sign : Calc → Calc
press_sign s =
    if length s.entry == 0
    then record s { acc = negate s.acc }
    else if starts_minus s.entry
    then record s { entry = drop 1 s.entry }
    else if ltb (length s.entry) 22
    then record s { entry = b'-' ∷ s.entry }
    else s

abbrev pub is_operator : ℕ → Bool
is_operator k = (k == b'+') || (k == b'-') || (k == b'*') || (k == b'/')

-- The entry is empty again, and `k` is pending.
abbrev pub pending : ℕ → Calc → Calc
pending k s = record s { entry = []; pend = k }

abbrev pub press_operator : ℕ → Calc → Calc
press_operator k s =
    if (length s.entry == 0) && not (s.pend == 0)
    then record s { pend = k }
    else let t = if not (length s.entry == 0) || not (s.pend == 0) then apply s else s in
      pending (if t.err then 0 else k) t

pub press : ℕ → Calc → Calc
unfolding apply press_digit
press k s =
    if k == b'C'
    then record { acc = 0; entry = []; pend = 0; err = false }
    else if s.err
    then s
    else if k == b'E'
    then record s { entry = [] }
    else if k == 8
    then record s { entry = take (length s.entry - 1) s.entry }
    else if leb b'0' k && leb k b'9'
    then press_digit k s
    else if k == b'.'
    then press_dot s
    else if k == b'~'
    then press_sign s
    else if is_operator k
    then press_operator k s
    else if k == b'='
    then pending 0 (apply s)
    else s

-- The face of a button, and its key.
abbrev btn_key : List ℕ → ℕ
btn_key (c ∷ []) = c
btn_key face = if get_or face 0 0 == b'C' then b'E' else if get_or face 0 0 == b'<' then 8 else b'~'

-- `calc_key`: the key of a key code, if it has one.
abbrev calc_key : ℕ → Option ℕ
calc_key k =
    if leb b'0' k && leb k b'9'
      || (k == b'+')
      || (k == b'-')
      || (k == b'*')
      || (k == b'/')
      || (k == b'.')
      || (k == 8)
    then some k
    else if (k == 10) || (k == b'=')
    then some b'='
    else if (k == b'c') || (k == b'C') || (k == 27)
    then some b'C'
    else none

-- `calc_mouse`: the column and the row of the button at a place of the window, if it is on one.
abbrev button_at : ℕ → ℕ → Option (ℕ × ℕ)
button_at lx ly =
    if ltb lx 8 || ltb ly 40
    then none
    else let c = (lx - 8) / 40 in
      let r = (ly - 40) / 28 in
      if ltb 3 c || ltb 4 r || leb 36 (lx - 8 - c * 40) || leb 24 (ly - 40 - r * 28)
      then none
      else some (c, r)
