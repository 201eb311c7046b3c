-- ===== src/Util/Streams/Tests.antt =====
-- "abc" written to a fixed buffer of two bytes and to a growing one, and read back.
use flopnix.Base.{ℕ, ◌≡◌, refl, true, false, List, [], ◌∷◌, take, arith}
use flopnix.Util.Streams.{Stream, ms_write, ms_read}
use flopnix.Util.Streams.Laws.{IsStream, ms_write-IsStream, reads_back, ms_read-ms_write}

abbrev abc : List ℕ
abc = b'a' ∷ b'b' ∷ b'c' ∷ []

abbrev fixed : Stream
fixed = record { present = true; buf = λ j. 0; cap = 2; len = 0; pos = 0; owned = false }

abbrev growing : Stream
growing = record { present = true; buf = λ j. 0; cap = 2; len = 0; pos = 0; owned = true }

fixed-IsStream : IsStream fixed
fixed-IsStream = record { pos_le = omega arith; len_le = omega arith; cap_le = omega arith }

growing-IsStream : IsStream growing
growing-IsStream = record { pos_le = omega arith; len_le = omega arith; cap_le = omega arith }

fills : (ms_write true abc fixed).0 ≡ 2
unfolding ms_write
fills = refl

grows : ((ms_write true abc growing).0 ≡ 3) × ((ms_write true abc growing).1.cap ≡ 4)
unfolding ms_write
grows = (refl, refl)

ms_write-IsStream_example : IsStream (ms_write true abc growing).1 × IsStream (ms_read 5 growing).1
ms_write-IsStream_example = ms_write-IsStream true abc 5 growing growing-IsStream

ms_read-ms_write_example :
    reads_back 0 (ms_write true abc fixed) ≡ (true, take (ms_write true abc fixed).0 abc)
ms_read-ms_write_example = ms_read-ms_write true abc fixed fixed-IsStream
