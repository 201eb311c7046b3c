-- ===== src/Shell/Tests.antt =====
-- Runs of the paths, and the theorems at an input.
use flopnix.Base.{◌≡◌, refl, arith, true, some, [], ◌∷◌}
use flopnix.Shell.{norm_path, spec_split, spec_make}
use flopnix.Shell.Laws.{IsRelative, norm_path-IsRelative, spec_split-spec_make}

-- " A:Floppy/\x" is "x".
normal :
    norm_path 64
      (b' ' ∷ b'A' ∷ b':' ∷ b'F' ∷ b'l' ∷ b'o' ∷ b'p' ∷ b'p' ∷ b'y' ∷ b'/' ∷ 92 ∷ b'x' ∷ [])
    ≡ b'x' ∷ []
unfolding norm_path
normal = refl

spec_split-spec_make_example :
    spec_split 64 (spec_make 64 true (some (b'x' ∷ []))) ≡ (true, true, b'/' ∷ b'x' ∷ [])
spec_split-spec_make_example = spec_split-spec_make 64 true (some (b'x' ∷ [])) (omega arith)

norm_path-IsRelative_example : IsRelative 64 (norm_path 64 (92 ∷ b'x' ∷ []))
norm_path-IsRelative_example = norm_path-IsRelative 64 (92 ∷ b'x' ∷ []) (omega arith)
