-- ===== src/Fs/Write/Laws.antt =====
-- The two writes of a pass put the sectors of the file in their place, and write no other sector.
use flopnix.Base.{
  ℕ, zero, suc, ◌+◌, ◌/◌, ◌≤◌, ◌≡◌, refl, sym, ap, ap₂, ◌∙◌, subst, Bool, true, false, ◌&&◌, List,
  [], ◌∷◌, ◌++◌, append-nil, inl, inr, ltb, ◌==◌, if◌then◌else◌, arith, Bool-cases, length,
  length-append,
}
use flopnix.Fs.Drive.{SectorBytes, Drive, IsDrive, run}
use flopnix.Fs.Drive.Laws.{Away, Away-part, run-add, run_same}
use flopnix.Fs.Volume.{Volume}
use flopnix.Fs.Write.{full_blocks, tail_block, sectors_for, blocks_of, put_blocks, put_file}

pub length-full_blocks : (n : ℕ) (bytes : List ℕ) → length (full_blocks n bytes) ≡ n
unfolding full_blocks
length-full_blocks zero bytes = refl
length-full_blocks (suc n) bytes = ap suc (length-full_blocks n _)

-- The sectors of a file are as many as `sectors_for` its size.
pub length-blocks_of : (bytes : List ℕ) → length (blocks_of bytes) ≡ sectors_for (length bytes)
unfolding blocks_of
length-blocks_of bytes =
    let full = length bytes / 512 in
    let n = length-full_blocks full bytes in
    elim (Bool-cases (ltb full (sectors_for (length bytes)))) [
      | inl more ↦
          rw more
            (ground (arith, length-append (full_blocks full bytes) (tail_block full bytes ∷ [])))
      | inr exact ↦ rw exact (ground (arith, length-append (full_blocks full bytes) []))
    ]

no_blocks :
    (f : ℕ → SectorBytes) (start full : ℕ) (bytes : List ℕ)
    → full ≡ 0
    → run f start full ≡ full_blocks full bytes
unfolding run full_blocks
no_blocks f start full bytes z = rw z refl

module _ (d : Drive) (sound : IsDrive d) where
  put_blocks_keeps :
      (lba : ℕ) (bs : List SectorBytes) (v : Volume) (s : d.State) (j : ℕ)
      → Away lba (length bs) j
      → d.content (put_blocks d lba bs v s).1 j ≡ d.content s j
  unfolding put_blocks
  put_blocks_keeps lba bs v s j a =
      let w = sound.write_elsewhere lba bs s j a in
      elim (Bool-cases (d.write_many lba bs s).0) [
        | inr bad ↦ rw bad w
        | inl ok ↦ elim (Bool-cases (length v.bad == 0)) [
          | inl clean ↦ rw ok (rw clean w)
          | inr check ↦ rw ok (rw check (sound.verify_keeps lba bs (d.write_many lba bs s).1 j ∙ w))
        ]
      ]

  put_blocks_done :
      (lba : ℕ) (bs : List SectorBytes) (v : Volume) (s : d.State)
      → (put_blocks d lba bs v s).0 ≡ true
      → run (d.content (put_blocks d lba bs v s).1) lba (length bs) ≡ bs
  unfolding put_blocks
  put_blocks_done lba bs v s = elim (Bool-cases (d.write_many lba bs s).0) [
    | inr bad ↦ rw bad (λ h. absurd cc)
    | inl ok ↦
        let w = sound.write_done lba bs s ok in
        elim (Bool-cases (length v.bad == 0)) [
          | inl clean ↦ rw ok (rw clean (λ h. w))
          | inr check ↦ rw ok (
              rw check (λ h.
                run_same (d.content (d.verify lba bs (d.write_many lba bs s).1).1)
                  (d.content (d.write_many lba bs s).1) lba (length bs)
                  (λ j p q. sound.verify_keeps lba bs (d.write_many lba bs s).1 j)
                ∙ w))
        ]
  ]

  -- What the two writes do: on success the sectors of the file stand in their place; in any case
  -- the sectors elsewhere hold what they held.
  abbrev pub Put : ℕ → List ℕ → d.State → Bool × d.State → Type 0
  Put start bytes s r =
      (r.0 ≡ true → run (d.content r.1) start (sectors_for (length bytes)) ≡ blocks_of bytes)
      × ((j : ℕ) → Away start (sectors_for (length bytes)) j → d.content r.1 j ≡ d.content s j)

  -- The first write, of the `full` sectors, if there are any.
  head_Put :
      (start full : ℕ) (bytes : List ℕ) (v : Volume) (s : d.State)
      → let h = if full == 0 then (true, s) else put_blocks d start (full_blocks full bytes) v s in
        (h.0 ≡ true → run (d.content h.1) start full ≡ full_blocks full bytes)
        × ((j : ℕ) → Away start full j → d.content h.1 j ≡ d.content s j)
  head_Put start full bytes v s =
      let n = length-full_blocks full bytes in
      elim (Bool-cases (full == 0)) [
        | inl nothing ↦
            rw nothing ((λ h. no_blocks (d.content s) start full bytes (ground arith)), λ j a. refl)
        | inr more ↦ rw more (
          λ h.
              subst
                (λ k.
                  run (d.content (put_blocks d start (full_blocks full bytes) v s).1) start k
                  ≡ full_blocks full bytes)
                n (put_blocks_done start (full_blocks full bytes) v s h),
          λ j a.
              put_blocks_keeps start (full_blocks full bytes) v s j
                (subst (λ k. Away start k j) (sym n) a),
        )
      ]

  -- The second write, of the tail, after the full sectors.
  tail_Put :
      (start : ℕ) (bytes : List ℕ) (v : Volume) (s0 s : d.State)
      → let full = length bytes / 512 in
        run (d.content s) start full ≡ full_blocks full bytes
        → ((j : ℕ) → Away start full j → d.content s j ≡ d.content s0 j)
        → ltb full (sectors_for (length bytes)) ≡ true
        → Put start bytes s0 (put_blocks d (start + full) (tail_block full bytes ∷ []) v s)
  unfolding blocks_of
  tail_Put start bytes v s0 s head keeps more =
      let full = length bytes / 512 in
      let last = tail_block full bytes ∷ [] in
      let p = put_blocks d (start + full) last v s in
      let size : sectors_for (length bytes) ≡ full + 1 = ground arith in
      (
        λ ok.
            ap (run (d.content p.1) start) size
            ∙ run-add (d.content p.1) start full 1
            ∙ ap₂ ◌++◌
                (run_same (d.content p.1) (d.content s) start full
                    (λ j lo hi. put_blocks_keeps (start + full) last v s j (inl hi))
                  ∙ head)
                (put_blocks_done (start + full) last v s ok)
            ∙ rw more refl,
        λ j a.
            put_blocks_keeps (start + full) last v s j (
              Away-part start (sectors_for (length bytes)) (start + full) 1 j (omega arith)
                (omega (arith, size)) a)
            ∙ keeps j (
                Away-part start (sectors_for (length bytes)) start full j (omega arith)
                  (omega (arith, size)) a),
      )

  -- The first write, when there is no tail.
  only_head_Put :
      (start : ℕ) (bytes : List ℕ) (ok : Bool) (s0 s : d.State)
      → let full = length bytes / 512 in
        (ok ≡ true → run (d.content s) start full ≡ full_blocks full bytes)
        → ((j : ℕ) → Away start full j → d.content s j ≡ d.content s0 j)
        → (ok ≡ true → ltb full (sectors_for (length bytes)) ≡ false)
        → Put start bytes s0 (ok, s)
  unfolding blocks_of
  only_head_Put start bytes ok s0 s head keeps exact =
      let full = length bytes / 512 in
      let least : full ≤ sectors_for (length bytes) = ground arith in
      (
        λ e.
            let none_left = exact e in
            let size : sectors_for (length bytes) ≡ full = ground arith in
            ap (run (d.content s) start) size
            ∙ head e
            ∙ sym (append-nil (full_blocks full bytes))
            ∙ rw none_left refl,
        λ j a. keeps j (
            Away-part start (sectors_for (length bytes)) start full j (omega arith) (omega arith)
              a),
      )

  -- A pass that reports success has put the bytes of the file, filled up with 0 to whole sectors,
  -- in the sectors from its start; in any case it has written no other sector.
  pub put_file-Put :
      (start : ℕ) (bytes : List ℕ) (v : Volume) (s : d.State)
      → Put start bytes s (put_file d start bytes v s)
  unfolding put_file
  put_file-Put start bytes v s =
      let full = length bytes / 512 in
      let head = if full == 0 then (true, s) else put_blocks d start (full_blocks full bytes) v s in
      let h = head_Put start full bytes v s in
      elim (Bool-cases (head.0 && ltb full (sectors_for (length bytes)))) [
        | inl more ↦
            rw more (tail_Put start bytes v s head.1 (h.0 (ground arith)) h.1 (ground arith))
        | inr only ↦ rw only (only_head_Put start bytes head.0 s head.1 h.0 h.1 (λ e. ground arith))
      ]
