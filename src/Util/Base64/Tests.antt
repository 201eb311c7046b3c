-- ===== src/Util/Base64/Tests.antt =====
-- Base64 of three short texts, and the theorems there.
use flopnix.Base.{◌≡◌, refl, some, [], ◌∷◌, arith}
use flopnix.Util.Base64.{encode, decode}
use flopnix.Util.Base64.Laws.{decode-encode}

-- "Hi!" is "SGkh".
encode_run : encode 80 (72 ∷ 105 ∷ 33 ∷ []) ≡ some (83 ∷ 71 ∷ 107 ∷ 104 ∷ [])
unfolding encode
encode_run = refl

decode-encode_example : decode 3 (83 ∷ 71 ∷ 107 ∷ 104 ∷ []) ≡ some (72 ∷ 105 ∷ 33 ∷ [])
decode-encode_example =
    decode-encode 80 3 (72 ∷ 105 ∷ 33 ∷ []) (83 ∷ 71 ∷ 107 ∷ 104 ∷ [])
      (omega arith, (omega arith, (omega arith, tt))) (omega arith) encode_run
