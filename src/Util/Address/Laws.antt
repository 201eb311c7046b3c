-- ===== src/Util/Address/Laws.antt =====
-- Reading an address as it is printed.
use flopnix.Base.{
  ℕ, zero, suc, ◌+◌, ◌-◌, ◌*◌, ◌/◌, ◌%◌, ◌≤◌, ◌<◌, ◌≡◌, refl, ap, ◌∙◌, Bool, true, false, some,
  List, [], ◌∷◌, ◌++◌, ltb, leb, ◌==◌, ◌&&◌, arith, Bool-cases, inl, inr,
}
use flopnix.Util.Number.{digit, digits_loop, numstr}
use flopnix.Util.Address.{parse_byte, parse_parts, net_parse_ip}

-- One more digit, as long as the value fits.
one_more :
    (v d : ℕ) (any : Bool) (cs : List ℕ)
    → d < 10
    → v * 10 + d ≤ 255
    → parse_byte v any (digit d ∷ cs) ≡ parse_byte (v * 10 + d) true cs
unfolding parse_byte
one_more v d any cs small fits =
    let is : digit d ≡ 48 + d = ground arith in
    let test : (leb 48 (48 + d) && leb (48 + d) 57) ≡ true = ground arith in
    let value : v * 10 + (48 + d - 48) ≡ v * 10 + d = omega arith in
    let below : ltb 255 (v * 10 + d) ≡ false = ground arith in
    rw is (rw test (rw value (rw below refl)))

digits-parse_byte :
    (v fuel : ℕ) (out rest : List ℕ)
    → v < fuel
    → v ≤ 255
    → parse_byte 0 false (digits_loop 10 v fuel out ++ rest) ≡ parse_byte v true (out ++ rest)
unfolding digits_loop
digits-parse_byte v zero out rest h fits = absurd (omega arith)
digits-parse_byte v (suc fuel) out rest h fits = elim (Bool-cases (v / 10 == 0)) [
  | inl last ↦
      let same : 0 * 10 + v % 10 ≡ v = ground arith in
      rw (last, digits_loop)
        (one_more 0 (v % 10) false (out ++ rest) (omega arith) (ground arith)
          ∙ ap (λ n. parse_byte n true (out ++ rest)) same)
  | inr more ↦
      let same : v / 10 * 10 + v % 10 ≡ v = omega arith in
      rw (more, digits_loop)
        (digits-parse_byte (v / 10) fuel (digit (v % 10) ∷ out) rest (ground arith) (omega arith)
          ∙ one_more (v / 10) (v % 10) true (out ++ rest) (omega arith) (omega arith)
          ∙ ap (λ n. parse_byte n true (out ++ rest)) same)
]

printed :
    (v : ℕ) (rest : List ℕ)
    → v ≤ 255
    → parse_byte 0 false (numstr v 10 false ++ rest) ≡ parse_byte v true rest
unfolding numstr
printed v rest h = digits-parse_byte v (suc v) [] rest (omega arith) h

next_part :
    (left scale v : ℕ) (cs : List ℕ) (r : ℕ)
    → v ≤ 255
    → parse_parts left (scale * 256) cs ≡ some r
    → parse_parts (suc left) scale (numstr v 10 false ++ b'.' ∷ cs) ≡ some (v * scale + r)
unfolding parse_parts parse_byte
next_part left scale v cs r h e = rw (printed v (b'.' ∷ cs) h, parse_parts) (rw e refl)

last_part :
    (scale v : ℕ) → v ≤ 255 → parse_parts zero scale (numstr v 10 false ++ []) ≡ some (v * scale)
unfolding parse_parts parse_byte
last_part scale v h = rw (printed v [] h, parse_parts) refl

-- An address as "%u.%u.%u.%u" prints it.
abbrev pub dotted : ℕ → ℕ → ℕ → ℕ → List ℕ
dotted a b c d =
    numstr a 10 false
    ++ (b'.'
        ∷ (numstr b 10 false ++ (b'.' ∷ (numstr c 10 false ++ (b'.' ∷ (numstr d 10 false ++ []))))))

-- `net_parse_ip` reads the four bytes of a printed address back, the first one lowest.
pub net_parse_ip-dotted :
    (a b c d : ℕ)
    → a ≤ 255
    → b ≤ 255
    → c ≤ 255
    → d ≤ 255
    → net_parse_ip (dotted a b c d) ≡ some (a + b * 256 + c * 65536 + d * 16777216)
unfolding net_parse_ip
net_parse_ip-dotted a b c d ha hb hc hd =
    let from_d = numstr d 10 false ++ [] in
    let from_c = numstr c 10 false ++ (b'.' ∷ from_d) in
    let from_b = numstr b 10 false ++ (b'.' ∷ from_c) in
    let e3 = last_part 16777216 d hd in
    let e2 = next_part 0 65536 c from_d (d * 16777216) hc e3 in
    let e1 = next_part 1 256 b from_c (c * 65536 + d * 16777216) hb e2 in
    let e0 : net_parse_ip (dotted a b c d) ≡ some (a * 1 + (b * 256 + (c * 65536 + d * 16777216))) =
      next_part 2 1 a from_b (b * 256 + (c * 65536 + d * 16777216)) ha e1 in
    e0 ∙ ap some (omega arith)
