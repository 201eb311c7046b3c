-- ===== src/Fs/Read/Blocks.antt =====
-- What reading the sectors of a file gives, when they hold its bytes.
use flopnix.Base.{
  ℕ, zero, suc, ◌+◌, ◌*◌, ◌/◌, ◌%◌, ◌≡◌, refl, sym, ap, ap₂, ◌∙◌, true, none, some, List, [], ◌∷◌,
  ◌++◌, append-nil, inl, inr, ltb, ◌==◌, if◌then◌else◌, arith, Bool-cases, Option-cases, length,
  take, drop, take-append-drop, take_prefix, drop_prefix, length-drop, take_all,
}
use flopnix.Fs.Drive.{SectorBytes, Drive, IsDrive, run}
use flopnix.Fs.Drive.Laws.{length-run, run-add, run_same}
use flopnix.Fs.Read.{flat, rest_of, read_bytes}
use flopnix.Fs.Write.{full_blocks, tail_block, sectors_for, blocks_of}
use flopnix.Fs.Write.Laws.{length-full_blocks}
use flopnix.Fs.Write.Place.{some-eq}

take_nil : (n : ℕ) → take {A = ℕ} n [] ≡ []
take_nil zero = refl
take_nil (suc n) = refl

take-drop : (a b : ℕ) (bytes : List ℕ) → take a bytes ++ take b (drop a bytes) ≡ take (a + b) bytes
take-drop zero b bytes = let same : b ≡ 0 + b = omega arith in ap (λ n. take n bytes) same
take-drop (suc a) b [] = take_nil b ∙ sym (take_nil (suc a + b))
take-drop (suc a) b (x ∷ xs) =
    let same : suc (a + b) ≡ suc a + b = omega arith in
    ap (◌∷◌ x) (take-drop a b xs) ∙ ap (λ n. take n (x ∷ xs)) same

flat-full_blocks : (n : ℕ) (bytes : List ℕ) → flat (full_blocks n bytes) ≡ take (n * 512) bytes
unfolding flat full_blocks
flat-full_blocks zero bytes = refl
flat-full_blocks (suc n) bytes =
    let same : 512 + n * 512 ≡ suc n * 512 = omega arith in
    ap (◌++◌ (take 512 bytes)) (flat-full_blocks n (drop 512 bytes))
    ∙ take-drop 512 (n * 512) bytes
    ∙ ap (λ k. take k bytes) same

append_split :
    {A : Type 0} (xs ys us vs : List A)
    → length xs ≡ length us
    → xs ++ ys ≡ us ++ vs
    → (xs ≡ us) × (ys ≡ vs)
append_split xs ys us vs n e = (
  sym (take_prefix xs ys)
      ∙ ap (take (length xs)) e
      ∙ ap (λ k. take k (us ++ vs)) n
      ∙ take_prefix us vs,
  sym (drop_prefix xs ys)
      ∙ ap (drop (length xs)) e
      ∙ ap (λ k. drop k (us ++ vs)) n
      ∙ drop_prefix us vs,
)

-- The full sectors of a file, and its last one, if it has more.
parts :
    (f : ℕ → SectorBytes) (start : ℕ) (bytes : List ℕ)
    → run f start (sectors_for (length bytes)) ≡ blocks_of bytes
    → let full = length bytes / 512 in
      (run f start full ≡ full_blocks full bytes)
      × (ltb full (sectors_for (length bytes)) ≡ true
          → run f (start + full) 1 ≡ tail_block full bytes ∷ [])
unfolding blocks_of
parts f start bytes e =
    let full = length bytes / 512 in
    let n : length (run f start full) ≡ length (full_blocks full bytes) =
      length-run f start full ∙ sym (length-full_blocks full bytes) in
    elim (Bool-cases (ltb full (sectors_for (length bytes)))) [
      | inl more ↦
          let size : sectors_for (length bytes) ≡ full + 1 = ground arith in
          let both =
            append_split _ _ _ _ n
              (sym (run-add f start full 1) ∙ ap (run f start) (sym size) ∙ rw more at e) in
          (both.0, λ h. both.1)
      | inr exact ↦
          let size : sectors_for (length bytes) ≡ full = ground arith in
          (
            ap (run f start) (sym size) ∙ (rw exact at e) ∙ append-nil (full_blocks full bytes),
            λ h. absurd cc,
          )
    ]

module _ (d : Drive) (sound : IsDrive d) where
  -- The full sectors as `read_bytes` reads them.
  head_read :
      (start full : ℕ) (bytes : List ℕ) (s : d.State)
      → run (d.content s) start full ≡ full_blocks full bytes
      → let head = if full == 0 then (some [], s) else d.read_many start full s in
        ((blocks : List SectorBytes) → head.0 ≡ some blocks → flat blocks ≡ take (full * 512) bytes)
        × ((j : ℕ) → d.content head.1 j ≡ d.content s j)
  head_read start full bytes s disk =
      let whole : flat (run (d.content s) start full) ≡ take (full * 512) bytes =
        ap flat disk ∙ flat-full_blocks full bytes in
      elim (Bool-cases (full == 0)) [
        | inl nothing ↦
            let z : full ≡ 0 = ground arith in
            let none_read : flat [] ≡ take (full * 512) bytes = rw z (unfold flat in refl) in
            rw nothing ((λ blocks e. ap flat (sym (some-eq e)) ∙ none_read), λ j. refl)
        | inr more ↦ rw more (
          (λ blocks e. ap flat (sound.read_gives start full s blocks e) ∙ whole),
          λ j. sound.read_keeps start full s j,
        )
      ]

  -- The rest of the last sector.
  tail_read :
      (start : ℕ) (bytes : List ℕ) (s : d.State) (last : List SectorBytes)
      → let full = length bytes / 512 in
        run (d.content s) (start + full) 1 ≡ tail_block full bytes ∷ []
        → (d.read_many (start + full) 1 s).0 ≡ some last
        → rest_of (length bytes % 512) last ≡ drop (full * 512) bytes
  unfolding tail_block
  tail_read start bytes s last disk e =
      let full = length bytes / 512 in
      let is = sound.read_gives (start + full) 1 s last e ∙ disk in
      let size : length bytes % 512 ≡ length (drop (full * 512) bytes) =
        omega (arith, length-drop (full * 512) bytes) in
      ap (rest_of (length bytes % 512)) is
      ∙ ap (λ n. take n (tail_block full bytes)) size
      ∙ take_prefix (drop (full * 512) bytes) _

  -- What `read_bytes` answers on the sectors of a file.
  pub read_bytes-blocks :
      (start : ℕ) (bytes read_back : List ℕ) (s : d.State)
      → run (d.content s) start (sectors_for (length bytes)) ≡ blocks_of bytes
      → (read_bytes d start (length bytes) s).0 ≡ some read_back
      → read_back ≡ bytes
  unfolding read_bytes
  read_bytes-blocks start bytes read_back s disk answer =
      let full = length bytes / 512 in
      let p = parts (d.content s) start bytes disk in
      let head = if full == 0 then (some [], s) else d.read_many start full s in
      let h = head_read start full bytes s p.0 in
      elim (Option-cases head.0) [
        | inl lost ↦ absurd (let x : none ≡ some read_back = rw (lost, read_bytes) at answer in cc)
        | inr (blocks, got_head) ↦ elim (Bool-cases (length bytes % 512 == 0)) [
          | inl even ↦
              let x : some (flat blocks) ≡ some read_back =
                rw even at (rw (got_head, read_bytes) at answer) in
              sym (some-eq x) ∙ h.0 blocks got_head ∙ take_all (full * 512) bytes (ground arith)
          | inr odd ↦ elim (Option-cases (d.read_many (start + full) 1 head.1).0) [
            | inl lost ↦ absurd (
                let x : none ≡ some read_back =
                  rw lost at (rw odd at (rw (got_head, read_bytes) at answer)) in
                cc)
            | inr (last, got_tail) ↦
                let x : some (flat blocks ++ rest_of (length bytes % 512) last) ≡ some read_back =
                  rw got_tail at (rw odd at (rw (got_head, read_bytes) at answer)) in
                let more : ltb full (sectors_for (length bytes)) ≡ true = ground arith in
                let still =
                  run_same (d.content head.1) (d.content s) (start + full) 1 (λ j lo hi. h.1 j) in
                sym (some-eq x)
                ∙ ap₂ ◌++◌ (h.0 blocks got_head)
                    (tail_read start bytes head.1 last (still ∙ p.1 more) got_tail)
                ∙ take-append-drop (full * 512) bytes
          ]
        ]
      ]
