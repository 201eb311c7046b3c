-- ===== src/Util/Format/Laws.antt =====
-- `kfmt` writes the beginning of the full text, as much as there is room for.
use flopnix.Base.{
  ℕ, zero, suc, ◌+◌, ◌-◌, ◌≤◌, ◌≡◌, refl, sym, ap, ◌∙◌, true, false, Option, none, some, List, [],
  ◌∷◌, ◌++◌, append_assoc, append-nil, ltb, ◌==◌, if◌then◌else◌, length, take, replicate, arith,
  Bool-cases, Option-cases, inl, inr, length-append, length-take, take_all,
}
use flopnix.Util.Format.{
  Arg, Piece, Spec, fresh, convert, next_spec, put_byte, put_all, put_pad, put_piece, format_from,
  kfmt,
}

-- The full text of a piece, with its padding.
abbrev pub padded : Spec → Piece → List ℕ
padded s p =
    if s.left
    then p.text ++ replicate (s.pad - p.len) 32
    else replicate (s.pad - p.len) s.padc ++ p.text

abbrev pub before : List ℕ → Option (List ℕ) → Option (List ℕ)
before text none = none
before text (some rest) = some (text ++ rest)

-- The text of a format with no bound on its length.
unfoldable pub render : Option Spec → List Arg → List ℕ → Option (List ℕ)
render none args [] = some []
render (some s) args [] = some (37 ∷ [])
render none args (c ∷ cs) = elim (c == 37) [
  | true ↦ render (some fresh) args cs
  | false ↦ before (c ∷ []) (render none args cs)
]
render (some s) args (c ∷ cs) = elim (next_spec c s) [
  | some s' ↦ render (some s') args cs
  | none ↦ elim (convert c args) [
    | none ↦ none
    | some (p, rest) ↦ before (padded s p) (render none rest cs)
  ]
]

-- The first bytes of a text that may be missing.
abbrev pub cut : ℕ → Option (List ℕ) → Option (List ℕ)
cut k none = none
cut k (some text) = some (take k text)

take_past : (k : ℕ) (xs ys : List ℕ) → k ≤ length xs → take k (xs ++ ys) ≡ take k xs
take_past zero xs ys h = refl
take_past (suc k) [] ys h = absurd (omega arith)
take_past (suc k) (x ∷ xs) ys h = ap (◌∷◌ x) (take_past k xs ys (omega arith))

put_cut : (k c : ℕ) (text : List ℕ) → put_byte (suc k) (take k text) c ≡ take k (text ++ c ∷ [])
unfolding put_byte
put_cut k c text = elim (Bool-cases (ltb (length text) k)) [
  | inl room ↦
      let all : take k text ≡ text = take_all k text (ground arith) in
      let fits : ltb (length text + 1) (suc k) ≡ true = ground arith in
      rw all
        (rw fits (sym (take_all k (text ++ c ∷ []) (ground (arith, length-append text (c ∷ []))))))
  | inr full ↦
      let stops : ltb (length (take k text) + 1) (suc k) ≡ false =
        ground (arith, length-take k text) in
      rw stops (sym (take_past k text (c ∷ []) (ground arith)))
]

put_all_cut : (k : ℕ) (text cs : List ℕ) → put_all (suc k) (take k text) cs ≡ take k (text ++ cs)
unfolding put_all
put_all_cut k text [] = ap (take k) (sym (append-nil text))
put_all_cut k text (c ∷ cs) =
    ap (λ out. put_all (suc k) out cs) (put_cut k c text)
    ∙ put_all_cut k (text ++ c ∷ []) cs
    ∙ ap (take k) (append_assoc text (c ∷ []) cs)

put_pad_cut :
    (k c n : ℕ) (text : List ℕ) → put_pad (suc k) c n (take k text) ≡ take k (text ++ replicate n c)
unfolding put_pad
put_pad_cut k c zero text = ap (take k) (sym (append-nil text))
put_pad_cut k c (suc n) text = elim (Bool-cases (ltb (length (take k text) + 1) (suc k))) [
  | inl room ↦
      rw (room, put_pad)
        (ap (put_pad (suc k) c n) (put_cut k c text)
          ∙ put_pad_cut k c n (text ++ c ∷ [])
          ∙ ap (take k) (append_assoc text (c ∷ []) (replicate n c)))
  | inr full ↦
      rw (full, put_pad)
        (sym (take_past k text (replicate (suc n) c) (ground (arith, length-take k text))))
]

put_piece_cut :
    (k : ℕ) (s : Spec) (p : Piece) (text : List ℕ)
    → put_piece (suc k) s p (take k text) ≡ take k (text ++ padded s p)
unfolding put_piece
put_piece_cut k s p text = elim (Bool-cases s.left) [
  | inl left ↦ simp left (
      ap (put_pad (suc k) 32 (s.pad - p.len)) (put_all_cut k text p.text)
      ∙ put_pad_cut k 32 (s.pad - p.len) (text ++ p.text)
      ∙ ap (take k) (append_assoc text p.text (replicate (s.pad - p.len) 32)))
  | inr right ↦ simp right (
      ap (λ out. put_all (suc k) out p.text) (put_pad_cut k s.padc (s.pad - p.len) text)
      ∙ put_all_cut k (text ++ replicate (s.pad - p.len) s.padc) p.text
      ∙ ap (take k) (append_assoc text (replicate (s.pad - p.len) s.padc) p.text))
]

cut-before :
    (k : ℕ) (text more : List ℕ) (rest : Option (List ℕ))
    → cut k (before (text ++ more) rest) ≡ cut k (before text (before more rest))
cut-before k text more none = refl
cut-before k text more (some r) = ap (λ t. some (take k t)) (append_assoc text more r)

format_from-cut :
    (k : ℕ) (text : List ℕ) (s : Option Spec) (args : List Arg) (fmt : List ℕ)
    → format_from (suc k) (take k text) s args fmt ≡ cut k (before text (render s args fmt))
unfolding format_from render
format_from-cut k text none args [] = ap (λ t. some (take k t)) (sym (append-nil text))
format_from-cut k text (some s) args [] = ap some (put_cut k 37 text)
format_from-cut k text none args (c ∷ cs) = elim (Bool-cases (c == 37)) [
  | inl percent ↦ rw (percent, format_from, render) (format_from-cut k text (some fresh) args cs)
  | inr plain ↦
      rw (plain, format_from, render)
        (ap (λ out. format_from (suc k) out none args cs) (put_cut k c text)
          ∙ format_from-cut k (text ++ c ∷ []) none args cs
          ∙ cut-before k text (c ∷ []) (render none args cs))
]
format_from-cut k text (some s) args (c ∷ cs) = elim (Option-cases (next_spec c s)) [
  | inr (s', more) ↦ rw (more, format_from, render) (format_from-cut k text (some s') args cs)
  | inl conversion ↦ elim (Option-cases (convert c args)) [
    | inl wrong ↦ rw (conversion, format_from, render, wrong, format_from, render) refl
    | inr ((p, rest), got) ↦
        rw (conversion, format_from, render, got, format_from, render)
          (ap (λ out. format_from (suc k) out none rest cs) (put_piece_cut k s p text)
            ∙ format_from-cut k (text ++ padded s p) none rest cs
            ∙ cut-before k text (padded s p) (render none rest cs))
  ]
]

cut_nothing : (k : ℕ) (r : Option (List ℕ)) → cut k (before [] r) ≡ cut k r
cut_nothing k none = refl
cut_nothing k (some text) = refl

-- `kfmt` into `k + 1` bytes gives the first `k` bytes of the text that the format has when there is
-- no bound, widths, padding and conversions included, so that the 0 always fits.
pub kfmt-render :
    (k : ℕ) (fmt : List ℕ) (args : List Arg) → kfmt (suc k) fmt args ≡ cut k (render none args fmt)
unfolding kfmt
kfmt-render k fmt args =
    ap (λ out. format_from (suc k) out none args fmt) (sym (take_all k [] (omega arith)))
    ∙ format_from-cut k [] none args fmt
    ∙ cut_nothing k (render none args fmt)
