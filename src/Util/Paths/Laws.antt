-- ===== src/Util/Paths/Laws.antt =====
-- Taking a path apart at its last separator, and joining the parts again.
use flopnix.Base.{
  ℕ, suc, ◌+◌, ◌-◌, ◌<◌, ◌≡◌, ◌⊎◌, refl, sym, ap, ◌∙◌, subst, true, false, ◌&&◌, not, Option, none,
  some, List, [], ◌∷◌, ◌++◌, append_assoc, append-nil, ltb, ◌==◌, if◌then◌else◌, length, take,
  arith, All, Bool-cases, inl, inr, length-append, take_prefix,
}
use flopnix.Util.Format.{str, convert, next_spec}
use flopnix.Util.Format.Laws.{render, kfmt-render, cut}
use flopnix.Util.Paths.{is_separator, base_from, path_base, cut_from, path_dir, trails, path_join}

-- A path with no separator, or one cut at its last separator into what stands before it, the
-- separator and what follows.
abbrev Parts : List ℕ → Option (ℕ × ℕ) → List ℕ → Type 0
Parts p none base = (base ≡ p) × All (λ c. is_separator c ≡ false) base
Parts p (some (i, c)) base =
    (front : List ℕ) × (p ≡ front ++ c ∷ base)
    × (length front ≡ i)
    × (is_separator c ≡ true)
    × All (λ d. is_separator d ≡ false) base

All-snoc :
    (bs : List ℕ) (c : ℕ)
    → All (λ d. is_separator d ≡ false) bs
    → is_separator c ≡ false
    → All (λ d. is_separator d ≡ false) (bs ++ c ∷ [])
All-snoc [] c a h = (h, tt)
All-snoc (b ∷ bs) c a h = (a.0, All-snoc bs c a.1 h)

longer :
    (front held : List ℕ) (c : ℕ) (k : Option (ℕ × ℕ))
    → is_separator c ≡ false
    → Parts front k held
    → Parts (front ++ c ∷ []) k (held ++ c ∷ [])
longer front held c none plain h = (ap (λ l. l ++ c ∷ []) h.0, All-snoc held c h.1 plain)
longer front held c (some (i, s)) plain h = (
  h.0,
  ap (λ l. l ++ c ∷ []) h.1 ∙ append_assoc h.0 (s ∷ held) (c ∷ []),
  h.2,
  h.3,
  All-snoc held c h.4 plain,
)

-- The two loops in step: `front` has been read, and what they hold of it stays if no separator
-- follows.
loops-Parts :
    (front held rest : List ℕ) (k : Option (ℕ × ℕ))
    → Parts front k held
    → Parts (front ++ rest) (cut_from (length front) k rest) (base_from (held ++ rest) rest)
unfolding cut_from base_from
loops-Parts front held [] k h =
    subst (λ p. Parts p k (held ++ [])) (sym (append-nil front))
      (subst (λ b. Parts front k b) (sym (append-nil held)) h)
loops-Parts front held (c ∷ cs) k h = elim (Bool-cases (is_separator c)) [
  | inl sep ↦
      let next : Parts (front ++ c ∷ []) (some (length front, c)) [] =
        (front, refl, refl, sep, tt) in
      let ih = loops-Parts (front ++ c ∷ []) [] cs (some (length front, c)) next in
      rw sep (
        subst
          (λ n. Parts (front ++ c ∷ cs) (cut_from n (some (length front, c)) cs) (base_from cs cs))
          (length-append front (c ∷ []))
          (subst
            (λ p.
              Parts p (cut_from (length (front ++ c ∷ [])) (some (length front, c)) cs)
                (base_from cs cs))
            (append_assoc front (c ∷ []) cs) ih))
  | inr plain ↦
      let next = longer front held c k plain h in
      let ih = loops-Parts (front ++ c ∷ []) (held ++ c ∷ []) cs k next in
      rw plain (
        subst (λ n. Parts (front ++ c ∷ cs) (cut_from n k cs) (base_from (held ++ c ∷ cs) cs))
          (length-append front (c ∷ []))
          (subst
            (λ b.
              Parts (front ++ c ∷ cs) (cut_from (length (front ++ c ∷ [])) k cs) (base_from b cs))
            (append_assoc held (c ∷ []) cs)
            (subst
              (λ p.
                Parts p (cut_from (length (front ++ c ∷ [])) k cs)
                  (base_from ((held ++ c ∷ []) ++ cs) cs))
              (append_assoc front (c ∷ []) cs) ih)))
]

path-Parts : (p : List ℕ) → Parts p (cut_from 0 none p) (path_base p)
unfolding path_base
path-Parts p = loops-Parts [] [] p none (refl, tt)

-- What `path_dir` and `path_base` make of a path: all of it is the base if it has no separator; else
-- a '/' stands between the two, or the directory ends with the ':'. The base has no separator.
abbrev pub Split : List ℕ → List ℕ → List ℕ → Type 0
Split p dir base =
    (((base ≡ p) × (dir ≡ []))
      ⊎ ((dir ++ 47 ∷ base ≡ p)
          ⊎ ((front : List ℕ) × (dir ≡ front ++ 58 ∷ []) × (front ++ 58 ∷ base ≡ p))))
    × All (λ c. is_separator c ≡ false) base

take_front :
    (front : List ℕ) (rest : List ℕ) (n : ℕ) → n ≡ length front → take n (front ++ rest) ≡ front
take_front front rest n e = ap (λ k. take k (front ++ rest)) e ∙ take_prefix front rest

cut_at :
    (cap : ℕ) (p base : List ℕ) (k : Option (ℕ × ℕ))
    → length p < cap
    → Parts p k base
    → Split p
        (elim k [
          | none ↦ []
          | some (i, c) ↦
              let n = if c == 58 then i + 1 else i in
              take (if ltb (cap - 1) n then cap - 1 else n) p
        ])
        base
cut_at cap p base none room h = (inl (h.0, refl), h.1)
cut_at cap p base (some (i, c)) room (front, whole, len, sep, clean) =
    let size : length p ≡ length front + suc (length base) =
      ap length whole ∙ length-append front (c ∷ base) in
    elim (Bool-cases (c == 58)) [
      | inl colon ↦
          let fits : ltb (cap - 1) (i + 1) ≡ false = ground arith in
          let is : c ≡ 58 = ground arith in
          let dir : take (i + 1) p ≡ front ++ 58 ∷ [] =
            ap (take (i + 1))
              (whole ∙ ap (λ x. front ++ x ∷ base) is ∙ sym (append_assoc front (58 ∷ []) base))
            ∙ take_front (front ++ 58 ∷ []) base (i + 1)
                (omega (arith, length-append front (58 ∷ []))) in
          rw colon (
            rw fits
              (inr (inr (front, dir, ap (λ x. front ++ x ∷ base) (sym is) ∙ sym whole)), clean))
      | inr slash ↦
          let fits : ltb (cap - 1) i ≡ false = ground arith in
          let is : c ≡ 47 = ground arith in
          let dir : take i p ≡ front =
            ap (take i) whole ∙ take_front front (c ∷ base) i (omega arith) in
          rw slash (
            rw fits (
              inr (
                  inl (
                    ap (λ d. d ++ 47 ∷ base) dir
                    ∙ ap (λ x. front ++ x ∷ base) (sym is)
                    ∙ sym whole)),
              clean,
            ))
    ]

-- A path that fits in `cap` bytes is taken apart at its last separator.
pub path_dir-Split :
    (cap : ℕ) (p : List ℕ) → length p < cap → Split p (path_dir cap p) (path_base p)
unfolding path_dir
path_dir-Split cap p room = cut_at cap p (path_base p) (cut_from 0 none p) room (path-Parts p)

zero_sub : (n : ℕ) → 0 - n ≡ 0
zero_sub n = omega arith

three :
    (a b c : List ℕ) (k : ℕ)
    → cut k (
        render none
          (str (some a) ∷ str (some b) ∷ str (some c) ∷ [])
          (37 ∷ 115 ∷ 37 ∷ 115 ∷ 37 ∷ 115 ∷ []))
      ≡ some (take k (a ++ (b ++ c)))
unfolding render next_spec convert
three a b c k = rw (zero_sub (length a)) (
    rw (zero_sub (length b))
      (rw (zero_sub (length c)) (ap (λ t. some (take k (a ++ (b ++ t)))) (append-nil c))))

-- `path_join` gives the directory, a '/' unless that is empty or ends with a separator, and the
-- name, as far as there is room.
pub path_join_lem :
    (k : ℕ) (dir name : List ℕ)
    → path_join (suc k) dir name
      ≡ some (
          take k
            (dir ++ ((if not (length dir == 0) && not (trails dir) then 47 ∷ [] else []) ++ name)))
unfolding path_join
path_join_lem k dir name =
    let between = if not (length dir == 0) && not (trails dir) then 47 ∷ [] else [] in
    kfmt-render k _ (str (some dir) ∷ str (some between) ∷ str (some name) ∷ [])
    ∙ three dir between name k
