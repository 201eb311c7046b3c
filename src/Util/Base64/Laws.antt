-- ===== src/Util/Base64/Laws.antt =====
-- Base64: the room that encoding needs, and decoding what was encoded.
use flopnix.Base.{
  ℕ, zero, suc, ◌+◌, ◌-◌, ◌*◌, ◌/◌, ◌%◌, ◌^◌, ◌≤◌, ◌<◌, ◌≡◌, refl, ap, ap₂, subst, Bool, true,
  false, ◌&&◌, not, Option, none, some, List, [], ◌∷◌, leb, ◌==◌, if◌then◌else◌, length, arith, All,
  Bool-cases, inl, inr,
}
use flopnix.Util.Base64.{
  letter, padding, word, push, quad, encode_loop, encode, b64val, ignored, decode_loop, decode,
}

-- That a test holds of each value below a bound, tried one by one.
each : ℕ → (ℕ → Bool) → Bool
each zero test = true
each (suc n) test = if test n then each n test else false

each-lt : (n : ℕ) (test : ℕ → Bool) (v : ℕ) → each n test ≡ true → v < n → test v ≡ true
unfolding each
each-lt zero test v e h = absurd (omega arith)
each-lt (suc n) test v e h = ground (arith, each-lt n test v)

-- `b64val` reads the letter for `v`, and the decoder does not skip it.
abbrev reads : ℕ → Bool
reads v = not (ignored (letter v)) && elim (b64val (letter v)) [ none ↦ false | some w ↦ w == v ]

all_read : each 64 reads ≡ true
unfolding each ignored letter b64val
all_read = refl

letter_read : (v : ℕ) → v < 64 → (ignored (letter v) ≡ false) × (b64val (letter v) ≡ some v)
letter_read v h = ground (arith, each-lt 64 reads v all_read h)

decode_keep :
    (cap o bits acc v : ℕ) (cs : List ℕ)
    → v < 64
    → bits < 2
    → decode_loop cap o bits acc (letter v ∷ cs)
      ≡ decode_loop cap o (bits + 6) ((acc * 64 + v) % 2 ^ 32) cs
unfolding decode_loop
decode_keep cap o bits acc v cs h b =
    let l = letter_read v h in
    let e : leb 8 (bits + 6) ≡ false = ground arith in
    rw (l.0, decode_loop, l.1, decode_loop, e, decode_loop) refl

decode_out :
    (cap o bits acc v : ℕ) (cs : List ℕ)
    → v < 64
    → 2 ≤ bits
    → o < cap
    → decode_loop cap o bits acc (letter v ∷ cs)
      ≡ push
          ((acc * 64 + v) % 2 ^ 32 / 2 ^ (bits + 6 - 8) % 256)
          (decode_loop cap (o + 1) (bits + 6 - 8) ((acc * 64 + v) % 2 ^ 32) cs)
unfolding decode_loop
decode_out cap o bits acc v cs h b room =
    let l = letter_read v h in
    let e : leb 8 (bits + 6) ≡ true = ground arith in
    let r : leb cap o ≡ false = ground arith in
    rw (l.0, decode_loop, l.1, decode_loop, e, decode_loop, r, decode_loop) refl

-- The bytes that a round of letters carries, whatever the accumulator held before.
first_byte :
    (a p q : ℕ)
    → p < 64
    → q < 64
    → ((a * 64 + p) % 2 ^ 32 * 64 + q) % 2 ^ 32 / 2 ^ 4 % 256 ≡ p * 4 + q / 16
first_byte a p q hp hq = omega arith

second_byte :
    (a q r : ℕ)
    → q < 64
    → r < 64
    → ((a * 64 + q) % 2 ^ 32 * 64 + r) % 2 ^ 32 / 2 ^ 2 % 256 ≡ q % 16 * 16 + r / 4
second_byte a q r hq hr = omega arith

third_byte :
    (a r s : ℕ)
    → r < 64
    → s < 64
    → ((a * 64 + r) % 2 ^ 32 * 64 + s) % 2 ^ 32 / 2 ^ 0 % 256 ≡ r % 4 * 64 + s
third_byte a r s hr hs = omega arith

-- The letters of a round, from its bytes.
digits :
    (b0 b1 b2 : ℕ)
    → b0 < 256
    → b1 < 256
    → b2 < 256
    → (word b0 b1 b2 / 2 ^ 18 % 64 ≡ b0 / 4)
      × (word b0 b1 b2 / 2 ^ 12 % 64 ≡ b0 % 4 * 16 + b1 / 16)
      × (word b0 b1 b2 / 2 ^ 6 % 64 ≡ b1 % 16 * 4 + b2 / 64)
      × (word b0 b1 b2 % 64 ≡ b2 % 64)
digits b0 b1 b2 h0 h1 h2 = (omega arith, omega arith, omega arith, omega arith)

-- A text of which the decoder makes these bytes, when it starts between two rounds.
abbrev Decodes : ℕ → ℕ → List ℕ → Option (List ℕ) → Type 0
Decodes cap o bytes none = Unit
Decodes cap o bytes (some text) = (acc : ℕ) → decode_loop cap o 0 acc text ≡ some bytes

padding_skipped :
    (cap o bits acc : ℕ) (cs : List ℕ)
    → decode_loop cap o bits acc (padding ∷ cs) ≡ decode_loop cap o bits acc cs
unfolding decode_loop ignored
padding_skipped cap o bits acc cs = refl

Decodes-one :
    (cap o b0 : ℕ)
    → b0 < 256
    → o < cap
    → Decodes cap o (b0 ∷ []) (quad (word b0 0 0) false false (some []))
unfolding quad push
Decodes-one cap o b0 h0 room = λ acc.
    let d = digits b0 0 0 h0 (omega arith) (omega arith) in
    rw
      (
        d.0,
        d.1,
        decode_keep cap o 0 acc (b0 / 4) _ (omega arith) (omega arith),
        decode_out cap o 6 _ (b0 % 4 * 16 + 0 / 16) _ (omega arith) (omega arith) room,
        padding_skipped,
        padding_skipped,
        first_byte acc (b0 / 4) (b0 % 4 * 16 + 0 / 16) (omega arith) (omega arith),
      )
      (unfold decode_loop in ap (λ b. some (b ∷ [])) (omega arith))

Decodes-two :
    (cap o b0 b1 : ℕ)
    → b0 < 256
    → b1 < 256
    → o + 1 < cap
    → Decodes cap o (b0 ∷ b1 ∷ []) (quad (word b0 b1 0) true false (some []))
unfolding quad push
Decodes-two cap o b0 b1 h0 h1 room = λ acc.
    let d = digits b0 b1 0 h0 h1 (omega arith) in
    let p = b0 / 4 in
    let q = b0 % 4 * 16 + b1 / 16 in
    let r = b1 % 16 * 4 + 0 / 64 in
    rw
      (
        d.0,
        d.1,
        d.2,
        decode_keep cap o 0 acc p _ (omega arith) (omega arith),
        decode_out cap o 6 _ q _ (omega arith) (omega arith) (omega arith),
        decode_out cap (o + 1) 4 _ r _ (omega arith) (omega arith) room,
        padding_skipped,
        first_byte acc p q (omega arith) (omega arith),
        second_byte ((acc * 64 + p) % 2 ^ 32) q r (omega arith) (omega arith),
      )
      (unfold decode_loop in ap₂ (λ b c. some (b ∷ c ∷ [])) (omega arith) (omega arith))

Decodes-push :
    (cap o b0 b1 b2 : ℕ) (bytes : List ℕ) (rest : Option (List ℕ))
    → b0 < 256
    → b1 < 256
    → b2 < 256
    → o + 2 < cap
    → Decodes cap (o + 1 + 1 + 1) bytes rest
    → Decodes cap o (b0 ∷ b1 ∷ b2 ∷ bytes) (quad (word b0 b1 b2) true true rest)
unfolding quad push
Decodes-push cap o b0 b1 b2 bytes none h0 h1 h2 room tail = tt
Decodes-push cap o b0 b1 b2 bytes (some text) h0 h1 h2 room tail = λ acc.
    let d = digits b0 b1 b2 h0 h1 h2 in
    let p = b0 / 4 in
    let q = b0 % 4 * 16 + b1 / 16 in
    let r = b1 % 16 * 4 + b2 / 64 in
    let s = b2 % 64 in
    rw
      (
        d.0,
        d.1,
        d.2,
        d.3,
        decode_keep cap o 0 acc p _ (omega arith) (omega arith),
        decode_out cap o 6 _ q _ (omega arith) (omega arith) (omega arith),
        decode_out cap (o + 1) 4 _ r _ (omega arith) (omega arith) (omega arith),
        decode_out cap (o + 1 + 1) 2 _ s _ (omega arith) (omega arith) (omega arith),
        tail,
        first_byte acc p q (omega arith) (omega arith),
        second_byte ((acc * 64 + p) % 2 ^ 32) q r (omega arith) (omega arith),
        third_byte (((acc * 64 + p) % 2 ^ 32 * 64 + q) % 2 ^ 32) r s (omega arith) (omega arith),
      )
      (ap₂ (λ b c. some (b ∷ c)) (omega arith)
        (ap₂ (λ b c. b ∷ c ∷ bytes) (omega arith) (omega arith)))

encode_loop-Decodes :
    (cap n room o : ℕ) (bytes : List ℕ)
    → All (λ b. b < 256) bytes
    → o + length bytes ≤ room
    → Decodes room o bytes (encode_loop cap n bytes)
unfolding encode_loop
encode_loop-Decodes cap n room o [] a h = λ acc. unfold decode_loop in refl
encode_loop-Decodes cap n room o (b0 ∷ []) a h = elim (Bool-cases (leb cap (n + 4))) [
  | inl full ↦ rw full tt
  | inr fits ↦ rw fits (Decodes-one room o b0 a.0 (omega arith))
]
encode_loop-Decodes cap n room o (b0 ∷ b1 ∷ []) a h = elim (Bool-cases (leb cap (n + 4))) [
  | inl full ↦ rw full tt
  | inr fits ↦ rw fits (Decodes-two room o b0 b1 a.0 a.1.0 (omega arith))
]
encode_loop-Decodes cap n room o (b0 ∷ b1 ∷ b2 ∷ bs) a h = elim (Bool-cases (leb cap (n + 4))) [
  | inl full ↦ rw (full, encode_loop) tt
  | inr fits ↦
      rw (fits, encode_loop)
        (Decodes-push room o b0 b1 b2 bs (encode_loop cap (n + 4) bs) a.0 a.1.0 a.1.1.0
          (omega arith)
          (encode_loop-Decodes cap (n + 4) room (o + 1 + 1 + 1) bs a.1.1.1 (omega arith)))
]

-- What `b64_encode` makes of bytes, `b64_decode` turns back into them, if its output has room for
-- them.
pub decode-encode :
    (cap room : ℕ) (bytes text : List ℕ)
    → All (λ b. b < 256) bytes
    → length bytes ≤ room
    → encode cap bytes ≡ some text
    → decode room text ≡ some bytes
unfolding encode decode
decode-encode cap room bytes text a h e =
    let d = encode_loop-Decodes cap 0 room 0 bytes a (omega arith) in
    elim (Bool-cases (cap == 0)) [
      | inl none_fits ↦ absurd (ground (arith, rw none_fits at e))
      | inr some_fits ↦
          let made : encode_loop cap 0 bytes ≡ some text = rw some_fits at e in
          let d' : Decodes room 0 bytes (some text) = rw made at d in d' 0
    ]

-- The room that a text of `n` letters takes behind the `o` bytes written, and the 0 after it.
abbrev pub Fits : ℕ → ℕ → ℕ → Option (List ℕ) → Type 0
Fits cap o n none = cap ≤ o + n
Fits cap o n (some text) = (o + n < cap) × (length text ≡ n)

quad-Fits :
    (cap o n v : ℕ) (second third : Bool) (rest : Option (List ℕ))
    → Fits cap (o + 4) n rest
    → Fits cap o (4 + n) (quad v second third rest)
unfolding quad push
quad-Fits cap o n v second third none f = omega arith
quad-Fits cap o n v second third (some text) f = (omega arith, omega arith)

encode_loop-Fits :
    (cap o : ℕ) (bytes : List ℕ)
    → o < cap
    → Fits cap o ((length bytes + 2) / 3 * 4) (encode_loop cap o bytes)
unfolding encode_loop
encode_loop-Fits cap o [] h = (omega arith, omega arith)
encode_loop-Fits cap o (b0 ∷ []) h = elim (Bool-cases (leb cap (o + 4))) [
  | inl full ↦ rw full (ground arith)
  | inr fits ↦
      rw fits (quad-Fits cap o 0 (word b0 0 0) false false (some []) (ground arith, omega arith))
]
encode_loop-Fits cap o (b0 ∷ b1 ∷ []) h = elim (Bool-cases (leb cap (o + 4))) [
  | inl full ↦ rw full (ground arith)
  | inr fits ↦
      rw fits (quad-Fits cap o 0 (word b0 b1 0) true false (some []) (ground arith, omega arith))
]
encode_loop-Fits cap o (b0 ∷ b1 ∷ b2 ∷ bs) h =
    let size : 4 + (length bs + 2) / 3 * 4 ≡ (length (b0 ∷ b1 ∷ b2 ∷ bs) + 2) / 3 * 4 =
      omega arith in
    elim (Bool-cases (leb cap (o + 4))) [
      | inl full ↦ rw (full, encode_loop) (ground arith)
      | inr fits ↦
          rw (fits, encode_loop)
            (subst (λ n. Fits cap o n (quad (word b0 b1 b2) true true (encode_loop cap (o + 4) bs)))
              size
              (quad-Fits cap o ((length bs + 2) / 3 * 4) (word b0 b1 b2) true true
                (encode_loop cap (o + 4) bs) (encode_loop-Fits cap (o + 4) bs (ground arith))))
    ]

-- `b64_encode` answers -1 exactly if four letters for every three bytes begun, and the 0 behind
-- them, do not fit; else it writes exactly those letters.
pub encode-Fits :
    (cap : ℕ) (bytes : List ℕ) → Fits cap 0 ((length bytes + 2) / 3 * 4) (encode cap bytes)
unfolding encode
encode-Fits cap bytes = elim (Bool-cases (cap == 0)) [
  | inl none_fits ↦ rw none_fits (ground arith)
  | inr some_fits ↦ rw some_fits (encode_loop-Fits cap 0 bytes (ground arith))
]
