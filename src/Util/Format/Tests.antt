-- ===== src/Util/Format/Tests.antt =====
-- A format with a width and two arguments, and the theorem there.
use flopnix.Base.{ℕ, ◌≡◌, refl, none, some, List, [], ◌∷◌}
use flopnix.Util.Number.{numstr}
use flopnix.Util.Format.{Arg, str, num, kfmt, next_spec, convert}
use flopnix.Util.Format.Laws.{render, cut, kfmt-render}

-- "%s=%04x".
abbrev format : List ℕ
format = b'%' ∷ b's' ∷ b'=' ∷ b'%' ∷ b'0' ∷ b'4' ∷ b'x' ∷ []

abbrev args : List Arg
args = str (some (b'a' ∷ [])) ∷ num 31 ∷ []

formats : kfmt 20 format args ≡ some (b'a' ∷ b'=' ∷ b'0' ∷ b'0' ∷ b'1' ∷ b'f' ∷ [])
unfolding kfmt numstr next_spec convert
formats = refl

cuts_off : kfmt 5 format args ≡ some (b'a' ∷ b'=' ∷ b'0' ∷ b'0' ∷ [])
unfolding kfmt numstr next_spec convert
cuts_off = refl

kfmt-render_example : kfmt 5 format args ≡ cut 4 (render none args format)
kfmt-render_example = kfmt-render 4 format args
