-- ===== src/Util/Address.antt =====
-- `net_parse_ip` of src/util.c. A string is its bytes before the 0; the address is the four bytes
-- as the code packs them into 32 bits.
pub mod Laws
mod Tests
use flopnix.Base.{
  ℕ, zero, suc, ◌+◌, ◌-◌, ◌*◌, ◌^◌, Bool, true, false, ◌&&◌, Option, none, some, List, [], ◌∷◌, ltb,
  leb, ◌==◌, if◌then◌else◌,
}

-- The digits of one part, with the value `v` so far and whether there was `any`: the value and what
-- follows. `none` is a value above 255, or no digit.
parse_byte : ℕ → Bool → List ℕ → Option (ℕ × List ℕ)
parse_byte v any [] = if any then some (v, []) else none
parse_byte v any (c ∷ cs) =
    let v' = v * 10 + (c - 48) in
    let rest = parse_byte v' true cs in
    if leb 48 c && leb c 57
    then (if ltb 255 v' then none else rest)
    else if any
    then some (v, c ∷ cs)
    else none

-- The loop over the parts, with `left` of them to go after this one; `scale` is the place of its
-- byte, and a '.' stands before the next.
parse_parts : ℕ → ℕ → List ℕ → Option ℕ
unfolding parse_byte
parse_parts zero scale s = elim (parse_byte 0 false s) [
  | none ↦ none
  | some (v, []) ↦ some (v * scale)
  | some (v, c ∷ cs) ↦ none
]
parse_parts (suc left) scale s = elim (parse_byte 0 false s) [
  | none ↦ none
  | some (v, []) ↦ none
  | some (v, c ∷ cs) ↦
      if c == 46
      then elim (parse_parts left (scale * 256) cs) [ none ↦ none | some r ↦ some (v * scale + r) ]
      else none
]

-- `net_parse_ip`; `none` is the answer 0.
pub net_parse_ip : List ℕ → Option ℕ
unfolding parse_parts
net_parse_ip s = parse_parts 3 1 s
