-- ===== src/Util/Strings/Laws.antt =====
-- `k_strstr` finds the first occurrence.
use flopnix.Base.{
  ℕ, ◌≡◌, refl, sym, ap, ◌∙◌, arith, true, false, Option, none, some, List, [], ◌∷◌, ◌++◌,
  Bool-cases, inl, inr,
}
use flopnix.Util.Strings.{starts, strstr_loop, strstr}

-- A text that begins with the needle.
abbrev pub Begins : List ℕ → List ℕ → Type 0
Begins needle text = (tail : List ℕ) × (text ≡ needle ++ tail)

-- Whether a needle begins at no place of `skipped` when `rest` follows it.
abbrev pub Absent : List ℕ → List ℕ → List ℕ → Type 0
Absent needle [] rest = Unit {0}
Absent needle (c ∷ cs) rest = (Begins needle (c ∷ (cs ++ rest)) → ⊥) × Absent needle cs rest

-- The first occurrence of a needle in a text, or none at any place, its end included.
abbrev pub FirstIn : List ℕ → List ℕ → Option (List ℕ) → Type 0
FirstIn hay needle none = Absent needle hay [] × (Begins needle [] → ⊥)
FirstIn hay needle (some rest) =
    (skipped : List ℕ) × (hay ≡ skipped ++ rest) × Begins needle rest × Absent needle skipped rest

-- The inner loop decides it.
starts-Begins : (needle text : List ℕ) → starts needle text ≡ true → Begins needle text
unfolding starts
starts-Begins [] text h = (text, refl)
starts-Begins (n ∷ ns) [] h = absurd cc
starts-Begins (n ∷ ns) (c ∷ cs) h =
    let first : c ≡ n = ground (arith, h) in
    let rest = starts-Begins ns cs (ground (arith, h)) in
    (rest.0, ap (λ x. x ∷ cs) first ∙ ap (◌∷◌ n) rest.1)

starts-append : (needle tail : List ℕ) → starts needle (needle ++ tail) ≡ true
unfolding starts
starts-append [] tail = refl
starts-append (n ∷ ns) tail = ground (arith, starts-append ns tail)

mismatch : (needle text : List ℕ) → starts needle text ≡ false → Begins needle text → ⊥
mismatch needle text h b =
    let yes : starts needle text ≡ true = ap (starts needle) b.1 ∙ starts-append needle b.0 in
    absurd (let e : true ≡ false = sym yes ∙ h in cc)

pub nil_append : (cs : List ℕ) → cs ++ [] ≡ cs
nil_append [] = refl
nil_append (c ∷ cs) = ap (◌∷◌ c) (nil_append cs)

FirstIn-later :
    (c : ℕ) (cs needle : List ℕ) (r : Option (List ℕ))
    → (Begins needle (c ∷ cs) → ⊥)
    → FirstIn cs needle r
    → FirstIn (c ∷ cs) needle r
FirstIn-later c cs needle none miss f = ((rw (nil_append cs) miss, f.0), f.1)
FirstIn-later c cs needle (some rest) miss f =
    (c ∷ f.0, ap (◌∷◌ c) f.1, f.2, (rw (← f.1) miss, f.3))

strstr_loop-FirstIn : (n : ℕ) (ns hay : List ℕ) → FirstIn hay (n ∷ ns) (strstr_loop (n ∷ ns) hay)
unfolding strstr_loop
strstr_loop-FirstIn n ns [] = (tt, mismatch (n ∷ ns) [] (unfold starts in refl))
strstr_loop-FirstIn n ns (c ∷ cs) = elim (Bool-cases (starts (n ∷ ns) (c ∷ cs))) [
  | inl here ↦ rw here ([], refl, starts-Begins (n ∷ ns) (c ∷ cs) here, tt)
  | inr miss ↦ rw miss (
      FirstIn-later c cs (n ∷ ns) _ (mismatch (n ∷ ns) (c ∷ cs) miss) (strstr_loop-FirstIn n ns cs))
]

-- `k_strstr` answers what is left of the text from the first place on where the needle's bytes stand,
-- and null only if they stand at no place of it.
pub strstr-FirstIn : (hay needle : List ℕ) → FirstIn hay needle (strstr hay needle)
unfolding strstr
strstr-FirstIn hay [] = ([], refl, (hay, refl), tt)
strstr-FirstIn hay (n ∷ ns) = strstr_loop-FirstIn n ns hay
