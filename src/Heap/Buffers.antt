-- ===== src/Heap/Buffers.antt =====
-- `mem_track`, `mem_untrack` and `mem_buffer` of src/heap.c: the table of named buffers that a
-- panic screen shows. A slot of size 0 is free.
pub mod Laws
mod Tests
use flopnix.Base.{
  ℕ, zero, suc, ◌+◌, ◌-◌, Bool, true, false, ◌&&◌, ◌||◌, not, Option, none, some, List, [], ◌∷◌,
  ◌==◌, if◌then◌else◌, set, take, replicate,
}

-- MemBuffer.
pub record Buffer : Type 0 where
  pub name : List ℕ
  pub base : ℕ
  pub size : ℕ
  pub owner : ℕ

-- `panic_buffers` before any call.
abbrev pub no_buffers : List Buffer
no_buffers = replicate 32 (record { name = []; base = 0; size = 0; owner = 0 })

-- `mem_untrack`.
unfoldable pub untrack : ℕ → List Buffer → List Buffer
untrack ptr [] = []
untrack ptr (b ∷ bs) = (if b.base == ptr then record b { size = 0 } else b) ∷ untrack ptr bs

-- The loop of `mem_track` from slot `i` on: the slot that has the buffer already, else the last
-- free one.
unfoldable pub slot_for : ℕ → ℕ → Option ℕ → List Buffer → Option ℕ
slot_for ptr i slot [] = slot
slot_for ptr i slot (b ∷ bs) =
    if not (b.size == 0) && (b.base == ptr)
    then some i
    else slot_for ptr (i + 1) (if b.size == 0 then some i else slot) bs

-- `mem_track` for the owner that `kext_owner_now` answers; a name or a pointer may be null.
unfoldable pub track : ℕ → Option (List ℕ) → ℕ → ℕ → List Buffer → List Buffer
unfolding slot_for untrack
track owner none ptr size bs = bs
track owner (some name) ptr size bs =
    if ptr == 0 then bs else if size == 0 then untrack ptr bs else elim (slot_for ptr 0 none bs) [
      | none ↦ bs
      | some i ↦ set bs i (record { name = take 23 name; base = ptr; size = size; owner = owner })
    ]

-- `mem_buffer`: the used slot with that number among the used ones.
unfoldable pub buffer : ℕ → List Buffer → Option Buffer
buffer index [] = none
buffer zero (b ∷ bs) = if b.size == 0 then buffer zero bs else some b
buffer (suc k) (b ∷ bs) = if b.size == 0 then buffer (suc k) bs else buffer k bs
