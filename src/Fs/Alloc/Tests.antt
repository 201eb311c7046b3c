-- ===== src/Fs/Alloc/Tests.antt =====
-- `alloc` on a small volume, and its theorem there.
use flopnix.Base.{ℕ, ◌≡◌, refl, List, [], ◌∷◌, arith, some, ◌*◌}
use flopnix.Fs.Bad.{clash}
use flopnix.Fs.Entry.{Entry}
use flopnix.Fs.Alloc.{alloc}
use flopnix.Fs.Alloc.Laws.{FirstFree, alloc-FirstFree}

abbrev file : ℕ → ℕ → Entry
file start nsect = record {
  name = start ∷ [];
  size = nsect * 512;
  mtime = 0;
  start = start;
  nsect = nsect;
  used = 1;
  attr = 0;
}

abbrev files : List Entry
files = file 303 2 ∷ file 299 3 ∷ []

alloc_run : alloc files (306 ∷ []) 299 320 2 ≡ some 307
unfolding alloc clash
alloc_run = refl

alloc-FirstFree_example : FirstFree files (306 ∷ []) 299 320 2 (alloc files (306 ∷ []) 299 320 2)
alloc-FirstFree_example = alloc-FirstFree files (306 ∷ []) 299 320 2 (omega arith)
