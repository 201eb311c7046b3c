-- ===== src/Util/Paths/Tests.antt =====
-- "docs/a.txt" taken apart, and the theorem there.
use flopnix.Base.{ℕ, ◌≡◌, refl, List, [], ◌∷◌}
use flopnix.Util.Paths.{path_base, path_ext, path_dir}

abbrev path : List ℕ
path = b'd' ∷ b'/' ∷ b'a' ∷ b'.' ∷ b't' ∷ []

parts :
    (path_base path ≡ b'a' ∷ b'.' ∷ b't' ∷ [])
    × (path_ext path ≡ b't' ∷ [])
    × (path_dir 64 path ≡ b'd' ∷ [])
unfolding path_base path_ext path_dir
parts = (refl, refl, refl)
