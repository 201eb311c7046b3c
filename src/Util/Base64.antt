-- ===== src/Util/Base64.antt =====
-- `b64_encode`, `b64val` and `b64_decode` of src/util.c. Shifts and masks are quotients and
-- remainders by powers of two, and `|` of disjoint bits is a sum. The answer -1 is `none`; else the
-- answer is the length of the list, which are the bytes written.
pub mod Laws
mod Tests
use flopnix.Base.{
  ℕ, zero, suc, ◌+◌, ◌-◌, ◌*◌, ◌/◌, ◌%◌, ◌^◌, Bool, true, false, ◌&&◌, ◌||◌, not, Option, none,
  some, List, [], ◌∷◌, ltb, leb, ◌==◌, if◌then◌else◌, get_or,
}

-- B64.
abbrev pub alphabet : List ℕ
alphabet =
    65 ∷ 66 ∷ 67 ∷ 68 ∷ 69 ∷ 70 ∷ 71 ∷ 72 ∷ 73 ∷ 74 ∷ 75 ∷ 76 ∷ 77 ∷ 78 ∷ 79 ∷ 80 ∷ 81 ∷ 82 ∷ 83
    ∷ 84 ∷ 85 ∷ 86 ∷ 87 ∷ 88 ∷ 89 ∷ 90 ∷ 97 ∷ 98 ∷ 99 ∷ 100 ∷ 101 ∷ 102 ∷ 103 ∷ 104 ∷ 105 ∷ 106
    ∷ 107 ∷ 108 ∷ 109 ∷ 110 ∷ 111 ∷ 112 ∷ 113 ∷ 114 ∷ 115 ∷ 116 ∷ 117 ∷ 118 ∷ 119 ∷ 120 ∷ 121 ∷ 122
    ∷ 48 ∷ 49 ∷ 50 ∷ 51 ∷ 52 ∷ 53 ∷ 54 ∷ 55 ∷ 56 ∷ 57 ∷ 43 ∷ 47 ∷ []

letter : ℕ → ℕ
letter v = get_or alphabet v 0

-- '='.
abbrev pub padding : ℕ
padding = 61

-- `(b0 << 16) | (b1 << 8) | b2`.
abbrev pub word : ℕ → ℕ → ℕ → ℕ
word b0 b1 b2 = b0 * 2 ^ 16 + b1 * 2 ^ 8 + b2

-- Writes a byte in front of what follows it.
unfoldable pub push : ℕ → Option (List ℕ) → Option (List ℕ)
push c none = none
push c (some cs) = some (c ∷ cs)

-- The four letters of a round.
quad : ℕ → Bool → Bool → Option (List ℕ) → Option (List ℕ)
unfolding push letter
quad v second third rest = push (letter (v / 2 ^ 18 % 64)) (
    push (letter (v / 2 ^ 12 % 64)) (
      push (if second then letter (v / 2 ^ 6 % 64) else padding)
        (push (if third then letter (v % 64) else padding) rest)))

-- The loop of `b64_encode`, which has written `o` bytes.
encode_loop : ℕ → ℕ → List ℕ → Option (List ℕ)
unfolding quad
encode_loop cap o [] = some []
encode_loop cap o (b0 ∷ []) =
    if leb cap (o + 4) then none else quad (word b0 0 0) false false (some [])
encode_loop cap o (b0 ∷ b1 ∷ []) =
    if leb cap (o + 4) then none else quad (word b0 b1 0) true false (some [])
encode_loop cap o (b0 ∷ b1 ∷ b2 ∷ bs) = elim (leb cap (o + 4)) [
  | true ↦ none
  | false ↦ quad (word b0 b1 b2) true true (encode_loop cap (o + 4) bs)
]

pub encode : ℕ → List ℕ → Option (List ℕ)
unfolding encode_loop
encode cap bytes = if cap == 0 then none else encode_loop cap 0 bytes

b64val : ℕ → Option ℕ
b64val c =
    if leb 65 c && leb c 90
    then some (c - 65)
    else if leb 97 c && leb c 122
    then some (c - 97 + 26)
    else if leb 48 c && leb c 57
    then some (c - 48 + 52)
    else if c == 43
    then some 62
    else if c == 47
    then some 63
    else none

-- '=', '\n', '\r' and ' '.
ignored : ℕ → Bool
ignored c = (c == padding) || ((c == 10) || ((c == 13) || (c == 32)))

-- The loop of `b64_decode`, which has written `o` bytes.
decode_loop : ℕ → ℕ → ℕ → ℕ → List ℕ → Option (List ℕ)
unfolding push b64val ignored
decode_loop cap o bits acc [] = some []
decode_loop cap o bits acc (c ∷ cs) = elim (ignored c) [
  | true ↦ decode_loop cap o bits acc cs
  | false ↦ elim (b64val c) [
    | none ↦ none
    | some v ↦
        let acc' = (acc * 64 + v) % 2 ^ 32 in
        elim (leb 8 (bits + 6)) [
          | false ↦ decode_loop cap o (bits + 6) acc' cs
          | true ↦ elim (leb cap o) [
            | true ↦ none
            | false ↦
                push (acc' / 2 ^ (bits + 6 - 8) % 256)
                  (decode_loop cap (o + 1) (bits + 6 - 8) acc' cs)
          ]
        ]
  ]
]

pub decode : ℕ → List ℕ → Option (List ℕ)
unfolding decode_loop
decode cap text = decode_loop cap 0 0 0 text
