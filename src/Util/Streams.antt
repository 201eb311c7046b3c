-- ===== src/Util/Streams.antt =====
-- The memory streams of src/util.c. What stands in the buffer is a function of the offset; what
-- `kmalloc` and `krealloc` answer, a buffer that holds what the old one held or none, is an
-- argument of the calls that ask.
pub mod Laws
mod Tests
use flopnix.Base.{
  ℕ, zero, suc, ◌+◌, ◌-◌, ◌*◌, ◌%◌, ◌^◌, Bool, true, false, ◌&&◌, ◌||◌, not, Option, none, some,
  List, [], ◌∷◌, ltb, leb, ◌==◌, if◌then◌else◌, length, take,
}

-- MemStream. `buf` may be null, which `present` tells.
pub record Stream : Type 0 where
  pub present : Bool
  pub buf : ℕ → ℕ
  pub cap : ℕ
  pub len : ℕ
  pub pos : ℕ
  pub owned : Bool

pub ms_open : (ℕ → ℕ) → ℕ → Stream
ms_open buf cap = record { present = true; buf = buf; cap = cap; len = 0; pos = 0; owned = false }

-- No buffer; also what `ms_free` leaves.
abbrev pub closed : Stream
closed = record { present = false; buf = λ j. 0; cap = 0; len = 0; pos = 0; owned = false }

-- `ms_alloc`; `answer` is what the bytes of the new block hold, if there is one.
pub ms_alloc : Option (ℕ → ℕ) → ℕ → Bool × Stream
ms_alloc none cap = (false, closed)
ms_alloc (some bytes) cap = (
  true,
  record {
    present = true;
    buf = bytes;
    cap = if cap == 0 then 256 else cap;
    len = 0;
    pos = 0;
    owned = true;
  },
)

-- Whether `ms_free` gives the buffer back, and the stream after it.
pub ms_free : Stream → Bool × Stream
ms_free s = (s.owned && s.present, closed)

-- MS_MAX.
abbrev pub ms_max : ℕ
ms_max = 2 ^ 30

-- `while (nc < want) nc *= 2`, at most `fuel` rounds.
unfoldable pub double_until : ℕ → ℕ → ℕ → ℕ
double_until zero want nc = nc
double_until (suc fuel) want nc = elim (ltb nc want) [
  | true ↦ double_until fuel want (nc * 2 % 2 ^ 32)
  | false ↦ nc
]

-- `ms_grow`.
pub ms_grow : Bool → ℕ → Stream → Bool × Stream
unfolding double_until
ms_grow answer need s =
    let want = s.pos + need in
    let nc = if s.cap == 0 then 256 else s.cap in
    if ltb ms_max need || ltb (ms_max - need) s.pos
    then (false, s)
    else if leb want s.cap
    then (true, s)
    else if not s.owned || not answer
    then (false, s)
    else (true, record s { present = true; cap = double_until want want nc })

-- `memcpy(buf + at, bytes, n)` for all of `bytes`.
unfoldable pub written : (ℕ → ℕ) → ℕ → List ℕ → ℕ → ℕ
written buf at [] j = buf j
written buf at (c ∷ cs) j = if j == at then c else written buf (at + 1) cs j

-- The `n` bytes from `at`.
unfoldable pub window : (ℕ → ℕ) → ℕ → ℕ → List ℕ
window buf at zero = []
window buf at (suc n) = buf at ∷ window buf (at + 1) n

-- The end of `ms_write`, with the `n` bytes that are written.
put_bytes : List ℕ → Stream → ℕ × Stream
unfolding written
put_bytes bytes s =
    let stop = s.pos + length bytes in
    (
      length bytes,
      record s {
        buf = written s.buf s.pos bytes;
        pos = stop;
        len = if ltb s.len stop then stop else s.len;
      },
    )

pub ms_write : Bool → List ℕ → Stream → ℕ × Stream
unfolding ms_grow put_bytes
ms_write answer bytes s =
    let g = ms_grow answer (length bytes) s in
    let room = if ltb s.pos s.cap then s.cap - s.pos else 0 in
    let n = if ltb (length bytes) room then length bytes else room in
    if g.0 then put_bytes bytes g.1 else if n == 0 then (0, s) else put_bytes (take n bytes) s

pub ms_read : ℕ → Stream → List ℕ × Stream
unfolding window
ms_read n s =
    let avail = if ltb s.pos s.len then s.len - s.pos else 0 in
    let k = if ltb avail n then avail else n in (window s.buf s.pos k, record s { pos = s.pos + k })

-- `ms_seek`; `false` is -1.
pub ms_seek : ℕ → Stream → Bool × Stream
ms_seek pos s = if ltb s.len pos then (false, s) else (true, record s { pos = pos })
