-- ===== src/Fs/Bad/Stored.antt =====
-- The superblock's record of the bad sectors: what is read is sound, and what is written is read
-- back.
use flopnix.Base.{
  le→leb, lt→ltb, le→not_ltb, ap, ◌∙◌, ◌⊎◌, ℕ, zero, suc, ◌+◌, ◌-◌, ◌≤◌, ◌<◌, ◌≡◌, ◌≢◌, refl, inl,
  inr, false, ◌&&◌, ◌||◌, not, Option, none, some, List, [], ◌∷◌, arith, ltb, leb, ◌==◌,
  if◌then◌else◌, length, get_or, All, Bool-cases,
}
use flopnix.Base.Sorted.{Above, IsIncreasing}
use flopnix.Fs.Bad.{
  max_bad, bad_magic, bad_word, Sector, write_word, long_at, parse_loop, parse, header, store_loop,
  store,
}

-- A sector number of the data area.
abbrev pub InArea : ℕ → ℕ → ℕ → Type 0
InArea first end x = (first ≤ x) × (x < end)

abbrev Sound : ℕ → ℕ → ℕ → ℕ → ℕ → Option (List ℕ) → Type 0
Sound first end left i last none = Unit {0}
Sound first end left i last (some vs) =
    (i ≢ 0 → Above last vs) × IsIncreasing vs × All (InArea first end) vs × (length vs ≡ left)

Sound-cons :
    (first end left i last v : ℕ) (r : Option (List ℕ))
    → (ltb v first || (leb end v || (not (i == 0) && leb v last))) ≡ false
    → Sound first end left (i + 1) v r
    → Sound first end (suc left) i last (elim r [ none ↦ none | some vs ↦ some (v ∷ vs) ])
Sound-cons first end left i last v none ok s = tt
Sound-cons first end left i last v (some vs) ok s =
    let below : Above v vs = s.0 (omega arith) in
    (λ ne. (ground arith, below), below, ((ground arith, ground arith), s.2), ground arith)

parse_loop-Sound :
    (sec : Sector) (first end left i last : ℕ)
    → Sound first end left i last (parse_loop sec first end left i last)
unfolding parse_loop
parse_loop-Sound sec first end zero i last = (λ ne. tt, tt, tt, refl)
parse_loop-Sound sec first end (suc left) i last =
    let v : ℕ = sec (bad_word + 3 + i) in
    elim (Bool-cases (ltb v first || (leb end v || (not (i == 0) && leb v last)))) [
      | inl bad ↦ rw bad tt
      | inr ok ↦
          rw ok (
            Sound-cons first end left i last v _ ok (parse_loop-Sound sec first end left (i + 1) v))
    ]

abbrev pub IsBadList : ℕ → ℕ → List ℕ → Type 0
IsBadList first end vs = IsIncreasing vs × All (InArea first end) vs × (length vs ≤ max_bad)

Sound-IsBadList :
    (first end left : ℕ) (r : Option (List ℕ))
    → left ≤ max_bad
    → Sound first end left 0 0 r
    → IsBadList first end (elim r [ none ↦ [] | some vs ↦ vs ])
Sound-IsBadList first end left none h s = (tt, tt, omega arith)
Sound-IsBadList first end left (some vs) h s = (s.1, s.2, omega arith)

-- Whatever a superblock holds, `fb_parse` gives a strictly increasing list of at most FB_MAX
-- sectors of the data area.
pub parse-IsBadList : (sec : Sector) (first end : ℕ) → IsBadList first end (parse sec first end)
unfolding parse
parse-IsBadList sec first end =
    elim (Bool-cases
      (not (long_at sec bad_word == bad_magic) || ltb max_bad (sec (bad_word + 2)))) [
        | inl bad ↦ rw bad (tt, tt, omega arith)
        | inr ok ↦ rw ok (
            Sound-IsBadList first end (sec (bad_word + 2)) _ (ground arith)
              (parse_loop-Sound sec first end (sec (bad_word + 2)) 0 0))
      ]

-- The words from `at` on are the list.
abbrev Reads : Sector → ℕ → List ℕ → Type 0
Reads sec at [] = Unit {0}
Reads sec at (v ∷ vs) = (sec at ≡ v) × Reads sec (suc at) vs

parse_loop-Reads :
    (sec : Sector) (first end i last : ℕ) (vs : List ℕ)
    → Reads sec (bad_word + 3 + i) vs
    → All (InArea first end) vs
    → Above last vs
    → parse_loop sec first end (length vs) i last ≡ some vs
unfolding parse_loop
parse_loop-Reads sec first end i last [] r a s = refl
parse_loop-Reads sec first end i last (v ∷ vs) r a s =
    let later : bad_word + 3 + (i + 1) ≡ suc (bad_word + 3 + i) = omega arith in
    ground (arith, r.0, parse_loop-Reads sec first end (i + 1) v vs (rw later r.1) a.1 s.1)

store_loop_at :
    (left i : ℕ) (list : List ℕ) (sec : Sector) (j : ℕ)
    → store_loop left i list sec j ≡ (
        if leb (bad_word + 3 + i) j && ltb j (bad_word + 3 + i + left)
        then get_or list (j - (bad_word + 3)) 0
        else sec j)
unfolding store_loop write_word
store_loop_at zero i list sec j = ground arith
store_loop_at (suc left) i list sec j =
    let here : j ≡ bad_word + 3 + i → get_or list i 0 ≡ get_or list (j - (bad_word + 3)) 0 =
      λ e. ap (λ k. get_or list k 0) (omega arith) in
    ground (
      arith,
      here,
      store_loop_at left (i + 1) list (write_word sec (bad_word + 3 + i) (get_or list i 0)) j,
    )

-- Words that agree with the list from `at` on read it.
Reads-get_or :
    (sec : Sector) (at : ℕ) (vs : List ℕ)
    → ((k : ℕ) → k < length vs → sec (at + k) ≡ get_or vs k 0)
    → Reads sec at vs
Reads-get_or sec at [] h = tt
Reads-get_or sec at (v ∷ vs) h = (
  ap sec (omega arith) ∙ h 0 (omega arith),
  Reads-get_or sec (suc at) vs λ k less. ap sec (omega arith) ∙ h (suc k) (omega arith),
)

store_at :
    (sec : Sector) (list : List ℕ) (j : ℕ)
    → store sec list j ≡ (
        if leb (bad_word + 3) j && ltb j (bad_word + 3 + max_bad)
        then get_or list (j - (bad_word + 3)) 0
        else header sec list j)
unfolding store
store_at sec list j = store_loop_at max_bad 0 list (header sec list) j

store-Reads :
    (sec : Sector) (list : List ℕ)
    → length list ≤ max_bad
    → Reads (store sec list) (bad_word + 3) list
store-Reads sec list h = Reads-get_or _ _ list λ k less.
    let inside : bad_word + 3 + k < bad_word + 3 + max_bad = omega arith in
    let entry : bad_word + 3 + k - (bad_word + 3) ≡ k = omega arith in
    rw (store_at, le→leb (bad_word + 3) (bad_word + 3 + k) (omega arith), lt→ltb _ _ inside, entry)

-- The words of the magic and of the count.
store_header :
    (sec : Sector) (list : List ℕ)
    → length list ≤ max_bad
    → (long_at (store sec list) bad_word ≡ bad_magic)
      × (store sec list (bad_word + 2) ≡ length list)
unfolding long_at
store_header sec list h = (
  rw (store_at sec list bad_word, store_at sec list (bad_word + 1)) (unfold header in refl),
  rw (store_at sec list (bad_word + 2)) (unfold header in omega arith),
)

-- The superblock reads back the list that `fb_store` writes to it, if that is a strictly
-- increasing list of at most FB_MAX sectors of the data area; the other words of the sector are
-- kept.
pub parse-store :
    (sec : Sector) (first end : ℕ) (list : List ℕ)
    → Above 0 list
    → All (InArea first end) list
    → length list ≤ max_bad
    → (parse (store sec list) first end ≡ list)
      × ((j : ℕ) → (j < bad_word) ⊎ (bad_word + 3 + max_bad ≤ j) → store sec list j ≡ sec j)
unfolding parse
parse-store sec first end list s a h = (
  rw ((store_header sec list h).0, (store_header sec list h).1)
      (rw (le→not_ltb max_bad (length list) h)
        (rw (parse_loop-Reads (store sec list) first end 0 0 list (store-Reads sec list h) a s))),
  λ j out. rw (store_at sec list j) (unfold header in ground arith),
)
