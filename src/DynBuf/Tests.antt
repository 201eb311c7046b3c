-- ===== src/DynBuf/Tests.antt =====
-- A growing array whose memory comes from a kernel that gives at most 100 bytes.
use flopnix.Base.{ℕ, ◌≡◌, refl, true, false, ltb, if◌then◌else◌}
use flopnix.DynBuf.{DynBuf, db_reserve}

abbrev small_kernel : ℕ → ℕ → ℕ
small_kernel p bytes = if ltb 100 bytes then 0 else 4096

abbrev nothing : DynBuf
nothing = record { memory = 0; capacity = 0 }

-- Doubling asks for 32 elements of 4 bytes, which are too many; 20 are given.
second_try :
    db_reserve small_kernel nothing 20 4 16 1000 ≡ (true, record { memory = 4096; capacity = 20 })
unfolding db_reserve
second_try = refl

refused : db_reserve small_kernel nothing 30 4 16 1000 ≡ (false, nothing)
unfolding db_reserve
refused = refl

-- A count above the limit.
too_many : db_reserve small_kernel nothing 20 4 16 19 ≡ (false, nothing)
unfolding db_reserve
too_many = refl
