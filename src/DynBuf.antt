-- ===== src/DynBuf.antt =====
-- Growing arrays of the extensions, src/dynbuf.h with src/buffer_core.inc. `krealloc` of the kernel
-- is an argument: what it answers for a number of bytes. `mem_track` keeps a table for diagnosis.
mod Laws
mod Tests
use flopnix.Base.{
  ℕ, zero, suc, ◌*◌, ◌/◌, ◌%◌, ◌^◌, Bool, true, false, ◌&&◌, ◌||◌, not, ltb, leb, ◌==◌,
  if◌then◌else◌,
}

-- The loop of `buffer_capacity`.
unfoldable pub grow_capacity : (rounds : ℕ) → ℕ → ℕ → ℕ → ℕ
grow_capacity zero needed limit cap_ = cap_
grow_capacity (suc k) needed limit cap_ =
    let rest = grow_capacity k needed limit (if ltb (limit / 2) cap_ then limit else cap_ * 2) in
    if ltb cap_ needed then rest else cap_

-- `buffer_capacity`; 0 is no capacity.
unfoldable pub buffer_capacity : ℕ → ℕ → ℕ → ℕ → ℕ
unfolding grow_capacity
buffer_capacity current needed initial limit =
    if ltb limit needed || ltb limit current || (initial == 0)
    then 0
    else let start =
        if not (current == 0) then current else if ltb initial limit then initial else limit in
      grow_capacity needed needed limit start

-- DynBuf; 0 is a null pointer.
pub record DynBuf : Type 0 where
  pub memory : ℕ
  pub capacity : ℕ

-- The answer of `krealloc` put in place, or of a second call with less.
abbrev pub reallocated : (ℕ → ℕ → ℕ) → DynBuf → ℕ → ℕ → ℕ → Bool × DynBuf
reallocated krealloc b count width cap_ =
    let p = krealloc b.memory (cap_ * width % 2 ^ 32) in
    let again = (p == 0) && ltb count cap_ in
    let q = if again then krealloc b.memory (count * width % 2 ^ 32) else p in
    if q == 0
    then (false, b)
    else (true, record { memory = q; capacity = if again then count else cap_ })

-- `db_reserve`.
unfoldable pub db_reserve : (ℕ → ℕ → ℕ) → DynBuf → (count width initial limit : ℕ) → Bool × DynBuf
unfolding buffer_capacity
db_reserve krealloc b count width initial limit =
    if (width == 0) || ltb (0xFFFFFFFF / width) limit || ltb limit count
    then (false, b)
    else if leb count b.capacity
    then (true, b)
    else let cap_ = buffer_capacity b.capacity count initial limit in
      if cap_ == 0 then (false, b) else reallocated krealloc b count width cap_

-- `db_trim`; `kfree` of the memory changes nothing else of the buffer.
unfoldable pub db_trim : (ℕ → ℕ → ℕ) → DynBuf → (count width : ℕ) → DynBuf
db_trim krealloc b count width =
    if count == 0
    then record { memory = 0; capacity = 0 }
    else if (width == 0) || leb b.capacity count || ltb (0xFFFFFFFF / width) count
    then b
    else let p = krealloc b.memory (count * width % 2 ^ 32) in
      if p == 0 then b else record { memory = p; capacity = count }

-- `db_free`.
db_free : (ℕ → ℕ → ℕ) → DynBuf → DynBuf
unfolding db_trim
db_free krealloc b = db_trim krealloc b 0 1
