-- ===== src/Util/Hash.antt =====
-- The checksum and the hash of src/util.c.
use Prim.Native.Nat.{bit_xor}
use flopnix.Base.{
  ℕ, zero, suc, ◌*◌, ◌≡◌, refl, List, [], ◌∷◌, ◌/◌, ◌%◌, ◌++◌, ◌==◌, ◌^◌, if◌then◌else◌,
}

-- A bit of `crc32`.
abbrev crc_bit : ℕ → ℕ
crc_bit c = bit_xor (c / 2) (if c % 2 == 1 then 0xEDB88320 else 0)

-- The eight bits of a byte.
unfoldable crc_bits : ℕ → ℕ → ℕ
crc_bits zero c = c
crc_bits (suc k) c = crc_bits k (crc_bit c)

-- The loop of `crc32`.
unfoldable crc_from : ℕ → List ℕ → ℕ
crc_from c [] = c
crc_from c (b ∷ bs) = crc_from (crc_bits 8 (bit_xor c b)) bs

crc32 : List ℕ → ℕ
unfolding crc_bits crc_from
crc32 bytes = bit_xor (crc_from 0xFFFFFFFF bytes) 0xFFFFFFFF

-- The loop of `hash_fnv`.
unfoldable fnv_from : ℕ → List ℕ → ℕ
fnv_from h [] = h
fnv_from h (b ∷ bs) = fnv_from (bit_xor h b * 16777619 % 2 ^ 32) bs

hash_fnv : List ℕ → ℕ
unfolding fnv_from
hash_fnv bytes = fnv_from 2166136261 bytes

-- The published check values: of "123456789" for the checksum, of "a" for the hash.
crc32_check : crc32 (b'1' ∷ b'2' ∷ b'3' ∷ b'4' ∷ b'5' ∷ b'6' ∷ b'7' ∷ b'8' ∷ b'9' ∷ []) ≡ 0xCBF43926
unfolding crc32
crc32_check = refl

hash_fnv_check : hash_fnv (b'a' ∷ []) ≡ 0xE40C292C
unfolding hash_fnv
hash_fnv_check = refl

-- Both go on over a second part from what the first left.
crc_from-++ : (c : ℕ) (xs ys : List ℕ) → crc_from c (xs ++ ys) ≡ crc_from (crc_from c xs) ys
unfolding crc_from
crc_from-++ c [] ys = refl
crc_from-++ c (b ∷ bs) ys = crc_from-++ (crc_bits 8 (bit_xor c b)) bs ys

fnv_from-++ : (h : ℕ) (xs ys : List ℕ) → fnv_from h (xs ++ ys) ≡ fnv_from (fnv_from h xs) ys
unfolding fnv_from
fnv_from-++ h [] ys = refl
fnv_from-++ h (b ∷ bs) ys = fnv_from-++ (bit_xor h b * 16777619 % 2 ^ 32) bs ys
