-- ===== src/Heap/Buffers/Tests.antt =====
-- Tracking a buffer in an empty table of two slots, and the theorems there.
use flopnix.Base.{◌≡◌, refl, some, List, [], ◌∷◌}
use flopnix.Heap.Buffers.{Buffer, track, slot_for}
use flopnix.Heap.Buffers.Laws.{tracked}

abbrev none_yet : List Buffer
none_yet =
    record { name = []; base = 0; size = 0; owner = 0 }
    ∷ record { name = []; base = 0; size = 0; owner = 0 }
    ∷ []

tracks : tracked 4096 (track 0 (some (b'a' ∷ [])) 4096 100 none_yet) ≡ 100
unfolding tracked track slot_for
tracks = refl
