-- ===== src/Calc/Laws.antt =====
-- What the calculator keeps from key to key.
use flopnix.Base.{
  ℕ, ◌-◌, ◌*◌, ◌%◌, ◌^◌, ◌≤◌, ◌<◌, ◌≡◌, refl, Bool, true, false, ◌&&◌, ◌||◌, not, Option, none,
  some, List, [], ◌∷◌, ◌++◌, inl, inr, ltb, leb, ◌==◌, if◌then◌else◌, arith, Bool-cases, length,
  take, drop, length-append, length-take, length-drop,
}
use flopnix.Calc.Word.{negate, magnitude, divll, less, wrap_add, fix, fmax, mul_ovf}
use flopnix.Calc.Divide.{divll-lt}
use flopnix.Calc.{
  Calc, entry_val, operate, settle, apply, scan_entry, digit_fits, press_digit, press_dot,
  press_sign, is_operator, pending, press_operator, press, has_dot, starts_minus,
}

-- The entry and its 0 fit into `entry[24]`, and the number is one of nine digits and four places.
abbrev pub IsCalc : Calc → Type 0
IsCalc s = (length s.entry ≤ 22) × (s.acc < 2 ^ 64) × (magnitude s.acc ≤ fmax)

abbrev Fits : Option ℕ → Type 0
Fits none = ℕ
Fits (some r) = r < 2 ^ 64

mul_ovf-Fits : (a b : ℕ) → Fits (mul_ovf a b)
unfolding mul_ovf
mul_ovf-Fits a b = elim (Bool-cases (not (a == 0) && not (divll (a * b % 2 ^ 64) a == b))) [
  | inl e ↦ rw e 0
  | inr e ↦ rw e (omega arith)
]

then_divll :
    (o : Option ℕ) (d : ℕ)
    → d < 2 ^ 64
    → Fits o
    → Fits (elim o as (λ x. Option ℕ) [ none ↦ none | some n ↦ some (divll n d) ])
then_divll none d h f = 0
then_divll (some n) d h f = divll-lt n d f h

Fits-if : (b : Bool) (x y : Option ℕ) → Fits x → Fits y → Fits (if b then x else y)
Fits-if true x y f g = f
Fits-if false x y f g = g

wrap_add-lt : (a b : ℕ) → wrap_add a b < 2 ^ 64
wrap_add-lt a b = omega arith

operate-Fits : (pend acc b : ℕ) → b < 2 ^ 64 → Fits (operate pend acc b)
unfolding operate
operate-Fits pend acc b h = Fits-if (pend == b'+') (some (wrap_add acc b)) _ (wrap_add-lt acc b) (
    Fits-if (pend == b'-') (some (wrap_add acc (negate b))) _ (wrap_add-lt acc (negate b)) (
      Fits-if (pend == b'*') _ _ (then_divll (mul_ovf acc b) fix (omega arith) (mul_ovf-Fits acc b))
        (Fits-if (pend == b'/') _ (some b)
          (Fits-if (b == 0) none _ 0 (then_divll (mul_ovf acc fix) b h (mul_ovf-Fits acc fix))) h)))

entry_sign : (neg : Bool) (a b : ℕ) → (if neg then negate (wrap_add a b) else wrap_add a b) < 2 ^ 64
entry_sign true a b = omega arith
entry_sign false a b = omega arith

entry_val_fits : (entry : List ℕ) → entry_val entry < 2 ^ 64
unfolding entry_val
entry_val_fits entry = entry_sign _ _ _

in_range : (r : ℕ) → r < 2 ^ 64 → (less fmax r || less r (negate fmax)) ≡ false → magnitude r ≤ fmax
in_range r f e = ground arith

settle-IsCalc : (s : Calc) (o : Option ℕ) → IsCalc s → Fits o → IsCalc (settle s o)
settle-IsCalc s none is f = is
settle-IsCalc s (some r) is f = elim (Bool-cases (less fmax r || less r (negate fmax))) [
  | inl e ↦ rw e is
  | inr e ↦ rw e (is.0, f, in_range r f e)
]

operand : (b : Bool) (s : Calc) → IsCalc s → (if b then s.acc else entry_val s.entry) < 2 ^ 64
operand true s is = is.1
operand false s is = entry_val_fits s.entry

-- Two ways to go on, and both keep it.
IsCalc-if :
    (b : Bool) (s t : Calc)
    → (b ≡ true → IsCalc s)
    → (b ≡ false → IsCalc t)
    → IsCalc (if b then s else t)
IsCalc-if true s t f g = f refl
IsCalc-if false s t f g = g refl

apply-IsCalc : (s : Calc) → IsCalc s → IsCalc (apply s)
unfolding apply
apply-IsCalc s is =
    settle-IsCalc s _ is (operate-Fits s.pend s.acc _ (operand (length s.entry == 0) s is))

pending-IsCalc : (k : ℕ) (s : Calc) → IsCalc s → IsCalc (pending k s)
pending-IsCalc k s is = (omega arith, is.1, is.2)

append_fits :
    (b : Bool) (xs : List ℕ) (k : ℕ) → (b && ltb (length xs) 22) ≡ true → length (xs ++ k ∷ []) ≤ 22
append_fits b xs k e = ground (arith, length-append xs (k ∷ []))

dot_fits :
    (b : Bool) (xs : List ℕ)
    → (b || not (ltb (length xs) 20)) ≡ false
    → length (xs ++ b'.' ∷ []) ≤ 22
dot_fits b xs e = ground (arith, length-append xs (b'.' ∷ []))

drop_fits : (xs : List ℕ) → length xs ≤ 22 → length (drop 1 xs) ≤ 22
drop_fits xs h = omega (arith, length-drop 1 xs, h)

take_fits : (xs : List ℕ) → length xs ≤ 22 → length (take (length xs - 1) xs) ≤ 22
take_fits xs h = omega (arith, length-take (length xs - 1) xs, h)

negate_fits :
    (acc : ℕ)
    → acc < 2 ^ 64
    → magnitude acc ≤ fmax
    → (negate acc < 2 ^ 64) × (magnitude (negate acc) ≤ fmax)
negate_fits acc h is = (omega arith, ground arith)

press_digit-IsCalc : (k : ℕ) (s : Calc) → IsCalc s → IsCalc (press_digit k s)
unfolding press_digit
press_digit-IsCalc k s is =
    IsCalc-if _ _ s
      (λ e.
        (append_fits (digit_fits s.entry (scan_entry 0 (none, 0) s.entry)) s.entry k e, is.1, is.2))
      (λ e. is)

press_dot-IsCalc : (s : Calc) → IsCalc s → IsCalc (press_dot s)
press_dot-IsCalc s is =
    IsCalc-if _ s _ (λ e. is)
      (λ e.
        IsCalc-if (length s.entry == 0) _ _ (λ none. (omega arith, is.1, is.2))
          (λ more. (dot_fits (has_dot s.entry) s.entry e, is.1, is.2)))

press_sign-IsCalc : (s : Calc) → IsCalc s → IsCalc (press_sign s)
press_sign-IsCalc s is =
    IsCalc-if (length s.entry == 0) _ _
      (λ empty. let n = negate_fits s.acc is.1 is.2 in (is.0, n.0, n.1))
      (λ more.
        IsCalc-if (starts_minus s.entry) _ _ (λ m. (drop_fits s.entry is.0, is.1, is.2))
          (λ m.
            IsCalc-if (ltb (length s.entry) 22) _ s (λ e. (ground arith, is.1, is.2)) (λ e. is)))

press_operator-IsCalc : (k : ℕ) (s : Calc) → IsCalc s → IsCalc (press_operator k s)
press_operator-IsCalc k s is =
    IsCalc-if ((length s.entry == 0) && not (s.pend == 0)) _ _ (λ e. is)
      (λ e.
        let t = if not (length s.entry == 0) || not (s.pend == 0) then apply s else s in
        pending-IsCalc (if t.err then 0 else k) t (
          IsCalc-if (not (length s.entry == 0) || not (s.pend == 0)) (apply s) s
            (λ e. apply-IsCalc s is) (λ e. is)))

-- Every key leaves the calculator with an entry that fits into its 24 bytes, its 0 included, and a
-- number of at most nine digits before the point.
pub press-IsCalc : (k : ℕ) (s : Calc) → IsCalc s → IsCalc (press k s)
unfolding press
press-IsCalc k s is =
    IsCalc-if (k == b'C') _ _ (λ e. (omega arith, omega arith, omega arith))
      (λ e.
        IsCalc-if s.err s _ (λ e. is)
          (λ e.
            IsCalc-if (k == b'E') _ _ (λ e. (omega arith, is.1, is.2))
              (λ e.
                IsCalc-if (k == 8) _ _ (λ e. (take_fits s.entry is.0, is.1, is.2))
                  (λ e.
                    IsCalc-if (leb b'0' k && leb k b'9') _ _ (λ e. press_digit-IsCalc k s is)
                      (λ e.
                        IsCalc-if (k == b'.') _ _ (λ e. press_dot-IsCalc s is)
                          (λ e.
                            IsCalc-if (k == b'~') _ _ (λ e. press_sign-IsCalc s is)
                              (λ e.
                                IsCalc-if (is_operator k) _ _ (λ e. press_operator-IsCalc k s is)
                                  (λ e.
                                    IsCalc-if (k == b'=') _ s
                                      (λ e. pending-IsCalc 0 (apply s) (apply-IsCalc s is))
                                      (λ e. is)))))))))
