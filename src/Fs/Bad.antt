-- ===== src/Fs/Bad.antt =====
-- The list of unreadable sectors, src/fsbad.inc. A C array with its count is the list of its
-- first `n` numbers; a sector is read and written as its 256 words of 16 bits.
pub mod Kept
pub mod Laws
pub mod Stored
mod Tests
use flopnix.Base.{
  ℕ, zero, suc, ◌+◌, ◌-◌, ◌*◌, ◌%◌, ◌/◌, ◌^◌, Bool, true, false, ◌&&◌, ◌||◌, not, Option, none,
  some, List, [], ◌∷◌, ltb, leb, ◌==◌, if◌then◌else◌, length, get_or, get_elem?,
}

-- FB_MAX.
abbrev pub max_bad : ℕ
max_bad = 240

-- FB_MAGIC.
abbrev pub bad_magic : ℕ
bad_magic = 0x31444142

-- The words of a sector; FB_OFF is 12 bytes, so the record of `fsbad.inc` starts at word 6.
abbrev pub Sector : Type 0
Sector = ℕ → ℕ

abbrev pub bad_word : ℕ
bad_word = 6

unfoldable pub write_word : Sector → ℕ → ℕ → Sector
write_word sec at v j = if j == at then v else sec j

-- A 32-bit read of two words.
unfoldable pub long_at : Sector → ℕ → ℕ
long_at sec at = sec at + sec (at + 1) * 2 ^ 16

unfoldable pub write_long : Sector → ℕ → ℕ → Sector
unfolding write_word
write_long sec at v = write_word (write_word sec at (v % 2 ^ 16)) (at + 1) (v / 2 ^ 16)

-- The loop of `fb_parse` from entry `i` on, with `left` entries to go; `last` is `w[2 + i]`.
-- `none` is the early `return 0`.
parse_loop : Sector → ℕ → ℕ → ℕ → ℕ → ℕ → Option (List ℕ)
parse_loop sec first end zero i last = some []
parse_loop sec first end (suc left) i last =
    let v = sec (bad_word + 3 + i) in
    let rest = parse_loop sec first end left (i + 1) v in
    if ltb v first || (leb end v || (not (i == 0) && leb v last))
    then none
    else elim rest [ none ↦ none | some vs ↦ some (v ∷ vs) ]

-- `fb_parse`: the bad sectors that a superblock records, none if the record is not sound.
unfoldable pub parse : Sector → ℕ → ℕ → List ℕ
unfolding long_at parse_loop
parse sec first end =
    if not (long_at sec bad_word == bad_magic) || ltb max_bad (sec (bad_word + 2))
    then []
    else elim (parse_loop sec first end (sec (bad_word + 2)) 0 0) [ none ↦ [] | some vs ↦ vs ]

-- The loop of `fb_store`, from entry `i` on with `left` entries to go.
store_loop : ℕ → ℕ → List ℕ → Sector → Sector
store_loop zero i list sec = sec
store_loop (suc left) i list sec =
    store_loop left (i + 1) list (write_word sec (bad_word + 3 + i) (get_or list i 0))

-- The magic and the count that `fb_store` writes first.
header : Sector → List ℕ → Sector
unfolding write_long write_word
header sec list =
    write_word (write_long sec bad_word bad_magic) (bad_word + 2) (length list % 2 ^ 16)

-- `fb_store`.
pub store : Sector → List ℕ → Sector
store sec list = store_loop max_bad 0 list (header sec list)

-- `fb_clash`: the first listed sector in `len` sectors from `start`; `none` is -1.
unfoldable pub clash : List ℕ → ℕ → ℕ → Option ℕ
clash [] start len = none
clash (b ∷ bs) start len = if leb start b && ltb (b - start) len then some b else clash bs start len

-- The first loop of `fb_add`: the place of the first number that is not below `lba`.
unfoldable pub position : List ℕ → ℕ → ℕ
position [] lba = 0
position (b ∷ bs) lba = if ltb b lba then suc (position bs lba) else 0

-- The second loop of `fb_add`, with its store: the tail moves up and `v` takes the place.
unfoldable pub insert_at : List ℕ → ℕ → ℕ → List ℕ
insert_at bs zero v = v ∷ bs
insert_at [] (suc i) v = v ∷ []
insert_at (b ∷ bs) (suc i) v = b ∷ insert_at bs i v

-- `at < *n && list[at] == lba`, with the entry that is read, if there is one.
unfoldable pub listed_at : Option ℕ → ℕ → Bool
listed_at none lba = false
listed_at (some b) lba = b == lba

-- What `fb_add` returns: 0, -1 and 1.
pub data Added : Type 0 where
  listed full added : Added

-- `fb_add`, with the new list.
unfoldable pub add : List ℕ → ℕ → Added × List ℕ
unfolding position insert_at listed_at
add list lba =
    let at = position list lba in
    if listed_at (get_elem? list at) lba
    then (listed, list)
    else if leb max_bad (length list)
    then (full, list)
    else (added, insert_at list at (lba % 2 ^ 16))

-- `fb_del`, with the new list: the tail moves down over the first entry that is `lba`.
unfoldable pub del : List ℕ → ℕ → Bool × List ℕ
del [] lba = (false, [])
del (b ∷ bs) lba =
    let (found, rest) = del bs lba in if b == lba then (true, bs) else (found, b ∷ rest)
