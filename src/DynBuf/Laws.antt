-- ===== src/DynBuf/Laws.antt =====
-- What growing an array promises.
use flopnix.Base.{ℕ, ◌*◌, ◌/◌, ◌≤◌, ◌<◌, ◌≡◌, ◌≢◌, ◌⊎◌, Bool, true, false}
use flopnix.DynBuf.{DynBuf}

-- Why a request for more than the buffer holds is refused: elements of no size, a limit whose bytes
-- do not fit into 32 bits, a count above the limit, no first capacity, or `krealloc`, which has no
-- room for `count` elements.
abbrev pub Refused : (ℕ → ℕ → ℕ) → DynBuf → (count width initial limit : ℕ) → Type 0
Refused krealloc b count width initial limit =
    (width ≡ 0)
    ⊎ (0xFFFFFFFF / width < limit)
    ⊎ (limit < count)
    ⊎ ((b.capacity < count) × (initial ≡ 0))
    ⊎ ((b.capacity < count) × (krealloc b.memory (count * width) ≡ 0))

-- A buffer with room for `count` elements: as it was, or with the block that `krealloc` gave for the
-- elements of the new capacity.
abbrev pub Roomy : (ℕ → ℕ → ℕ) → DynBuf → (count width limit : ℕ) → DynBuf → Type 0
Roomy krealloc b count width limit new =
    ((count ≤ b.capacity) × (new ≡ b))
    ⊎ ((b.capacity < count)
        × (count ≤ new.capacity)
        × (new.capacity ≤ limit)
        × (new.memory ≢ 0)
        × (krealloc b.memory (new.capacity * width) ≡ new.memory))

-- What the answer means.
abbrev pub Reserved :
    (ℕ → ℕ → ℕ) → DynBuf → (count width initial limit : ℕ) → Bool × DynBuf → Type 0
Reserved krealloc b count width initial limit (true, new) = Roomy krealloc b count width limit new
Reserved krealloc b count width initial limit (false, new) =
    (new ≡ b) × Refused krealloc b count width initial limit
