-- ===== src/Util/Format.antt =====
-- `kfmt` of src/util.c. The arguments of a call are a list, each with the type that the caller gave
-- it; reading one as another type has no meaning in C, and here no result. The result is the bytes
-- before the 0; a call with no room writes nothing.
pub mod Laws
mod Tests
use flopnix.Base.{
  ℕ, zero, suc, ◌+◌, ◌-◌, ◌*◌, ◌/◌, ◌<◌, Bool, true, false, ◌&&◌, Option, none, some, List, [], ◌∷◌,
  ◌++◌, ltb, leb, ◌==◌, if◌then◌else◌, length, replicate,
}
use flopnix.Util.Number.{numstr}

-- A string, which may be null, a character, a signed number by its sign, and an unsigned one.
pub data Arg : Type 0 where
  str : Option (List ℕ) → Arg
  chr : ℕ → Arg
  int : Bool → ℕ → Arg
  num : ℕ → Arg

-- What a conversion prints: the bytes before the 0 of `s`, and `len`.
pub record Piece : Type 0 where
  pub text : List ℕ
  pub len : ℕ

abbrev pub whole : List ℕ → Piece
whole bytes = record { text = bytes; len = length bytes }

-- "(null)".
abbrev pub null_text : List ℕ
null_text = 40 ∷ 110 ∷ 117 ∷ 108 ∷ 108 ∷ 41 ∷ []

-- `tmp[0] = cc; len = 1`: the character 0 prints nothing.
abbrev pub char_piece : ℕ → Piece
char_piece c = record { text = if c == 0 then [] else c ∷ []; len = 1 }

-- The arguments left after one that was taken.
abbrev pub Taken : Type 0
Taken = Option (Piece × List Arg)

take_str : List Arg → Taken
take_str (str none ∷ as_) = some (whole null_text, as_)
take_str (str (some s) ∷ as_) = some (whole s, as_)
take_str _ = none

take_chr : List Arg → Taken
take_chr (chr c ∷ as_) = some (char_piece c, as_)
take_chr _ = none

take_int : List Arg → Taken
take_int (int neg v ∷ as_) = some (whole (numstr v 10 neg), as_)
take_int _ = none

take_num : ℕ → List Arg → Taken
take_num base (num v ∷ as_) = some (whole (numstr v base false), as_)
take_num base _ = none

-- The switch on the conversion.
unfoldable pub convert : ℕ → List Arg → Taken
unfolding take_str take_chr take_int take_num
convert c args =
    if c == 115
    then take_str args
    else if c == 99
    then take_chr args
    else if c == 100
    then take_int args
    else if c == 117
    then take_num 10 args
    else if c == 120
    then take_num 16 args
    else some (char_piece c, args)

-- How far the parse of a specification has come: before '-', before '0', or in the width.
pub data Stage : Type 0 where
  minus zeros width : Stage

-- `padc`, `pad` and `left`.
pub record Spec : Type 0 where
  pub stage : Stage
  pub padc : ℕ
  pub pad : ℕ
  pub left : Bool

abbrev pub fresh : Spec
fresh = record { stage = minus; padc = 32; pad = 0; left = false }

-- One digit of the width, which stops at 0x7fffffff.
abbrev pub grown : ℕ → ℕ → ℕ
grown pad digit = if ltb ((0x7fffffff - digit) / 10) pad then 0x7fffffff else pad * 10 + digit

in_width : ℕ → Spec → Option Spec
in_width c s =
    if leb 48 c && leb c 57
    then some (record s { stage = width; pad = grown s.pad (c - 48) })
    else none

in_zeros : ℕ → Spec → Option Spec
unfolding in_width
in_zeros c s = if c == 48 then some (record s { stage = width; padc = 48 }) else in_width c s

-- What a character does to a specification; `none` if it is the conversion.
unfoldable pub next_spec : ℕ → Spec → Option Spec
unfolding in_width in_zeros
next_spec c s = elim s.stage [
  | minus ↦ if c == 45 then some (record s { stage = zeros; left = true }) else in_zeros c s
  | zeros ↦ in_zeros c s
  | width ↦ in_width c s
]

-- PUT.
put_byte : ℕ → List ℕ → ℕ → List ℕ
put_byte cap out c = if ltb (length out + 1) cap then out ++ c ∷ [] else out

-- `while (*s) PUT(*s++)`.
put_all : ℕ → List ℕ → List ℕ → List ℕ
unfolding put_byte
put_all cap out [] = out
put_all cap out (c ∷ cs) = put_all cap (put_byte cap out c) cs

-- `while (len < pad-- && o < cap - 1) PUT(c)`, with `k` more to go.
put_pad : ℕ → ℕ → ℕ → List ℕ → List ℕ
unfolding put_byte
put_pad cap c zero out = out
put_pad cap c (suc k) out = elim (ltb (length out + 1) cap) [
  | true ↦ put_pad cap c k (put_byte cap out c)
  | false ↦ out
]

put_piece : ℕ → Spec → Piece → List ℕ → List ℕ
unfolding put_all put_pad
put_piece cap s p out =
    if s.left
    then put_pad cap 32 (s.pad - p.len) (put_all cap out p.text)
    else put_all cap (put_pad cap s.padc (s.pad - p.len) out) p.text

-- The outer loop, in a specification or not.
format_from : ℕ → List ℕ → Option Spec → List Arg → List ℕ → Option (List ℕ)
unfolding put_byte put_piece
format_from cap out none args [] = some out
format_from cap out (some s) args [] = some (put_byte cap out 37)
format_from cap out none args (c ∷ cs) = elim (c == 37) [
  | true ↦ format_from cap out (some fresh) args cs
  | false ↦ format_from cap (put_byte cap out c) none args cs
]
format_from cap out (some s) args (c ∷ cs) = elim (next_spec c s) [
  | some s' ↦ format_from cap out (some s') args cs
  | none ↦ elim (convert c args) [
    | none ↦ none
    | some (p, rest) ↦ format_from cap (put_piece cap s p out) none rest cs
  ]
]

pub kfmt : ℕ → List ℕ → List Arg → Option (List ℕ)
unfolding format_from
kfmt cap fmt args = format_from cap [] none args fmt
