-- ===== src/Fs/Read/Laws.antt =====
-- Reading a file gives the bytes that were written to it.
use flopnix.Base.{
  ℕ, ◌+◌, ◌/◌, ◌%◌, ◌≤◌, ◌≡◌, ◌≢◌, ◌⊎◌, ◌&&◌, All, refl, sym, ap, ◌∙◌, true, some, List, [], ◌∷◌,
  ◌++◌, inl, inr, ltb, ◌==◌, if◌then◌else◌, arith, Bool-cases, Option-cases, length, take, take_all,
}
use flopnix.Fs.Drive.{SectorBytes, Drive, IsDrive, run}
use flopnix.Fs.Drive.Laws.{run_same}
use flopnix.Fs.Entry.{Entry, find}
use flopnix.Util.Strings.{same, eq_of_same}
use flopnix.Fs.Read.{io_error, got, Cached, fc_read, flat, rest_of, read_bytes, read}
use flopnix.Fs.Volume.{Volume}
use flopnix.Fs.Write.{sectors_for, blocks_of}
use flopnix.Fs.Write.Place.{some-eq}
use flopnix.Fs.Read.Blocks.{read_bytes-blocks}

-- A drive that answers every read.
abbrev pub Answers : Drive → Type 0
Answers d = (a n : ℕ) (s : d.State) → (bs : List SectorBytes) × ((d.read_many a n s).0 ≡ some bs)

read_bytes-some :
    (d : Drive) (start size : ℕ) (s : d.State)
    → Answers d
    → (bytes : List ℕ) × ((read_bytes d start size s).0 ≡ some bytes)
unfolding read_bytes
read_bytes-some d start size s answers =
    let full = size / 512 in
    let head = if full == 0 then (some [], s) else d.read_many start full s in
    let h : (bs : List SectorBytes) × (head.0 ≡ some bs) = elim (Bool-cases (full == 0)) [
      | inl nothing ↦ rw nothing ([], refl)
      | inr more ↦ rw more (answers start full s)
    ] in
    let t = answers (start + full) 1 head.1 in
    elim (Bool-cases (size % 512 == 0)) [
      | inl even ↦ rw (h.1, read_bytes) (rw (even, read_bytes) (flat h.0, refl))
      | inr odd ↦
          rw (h.1, read_bytes)
            (rw (odd, read_bytes)
              (rw (t.1, read_bytes) (flat h.0 ++ rest_of (size % 512) t.0, refl)))
    ]

-- Each copy of a file that the cache has holds its bytes.
abbrev pub Faithful : List Cached → Entry → List ℕ → Type 0
Faithful cache e bytes =
    All (λ c. c.size ≡ e.size → c.start ≡ e.start → c.name ≡ e.name → c.bytes ≡ bytes) cache

fc_read-Faithful :
    (cache : List Cached) (e : Entry) (bytes found : List ℕ)
    → Faithful cache e bytes
    → fc_read cache e (length bytes) ≡ some found
    → found ≡ bytes
unfolding fc_read
fc_read-Faithful [] e bytes found f h = absurd cc
fc_read-Faithful (c ∷ cs) e bytes found f h =
    elim (Bool-cases ((c.size == e.size) && ((c.start == e.start) && same c.name e.name))) [
      | inr other ↦ fc_read-Faithful cs e bytes found f.1 (rw (other, fc_read) at h)
      | inl hit ↦
          let x : some (take (length bytes) c.bytes) ≡ some found = rw (hit, fc_read) at h in
          let name : c.name ≡ e.name = eq_of_same c.name e.name (ground (arith, hit)) in
          let is : c.bytes ≡ bytes = f.0 (ground (arith, hit)) (ground (arith, hit)) name in
          sym (some-eq x)
          ∙ ap (take (length bytes)) is
          ∙ take_all (length bytes) bytes (omega arith)
    ]

-- A file whose sectors hold some bytes is read as those bytes, from the drive or from the cache, if
-- the volume is mounted, the buffer has room for them, the drive keeps its laws and answers every
-- read, and a copy that the cache has of the file holds its bytes. FS_EIO is the answer only if the
-- epoch has changed while the sectors were read.
pub read-bytes :
    (d : Drive) (cache : List Cached) (name bytes : List ℕ) (max i : ℕ) (e : Entry) (v : Volume)
    (s : d.State)
    → IsDrive d
    → Answers d
    → (d.ensure v s).0.0 ≡ true
    → find (d.ensure v s).0.1.table name ≡ some (i, e)
    → e.size ≡ length bytes
    → run (d.content s) e.start (sectors_for (length bytes)) ≡ blocks_of bytes
    → Faithful cache e bytes
    → length bytes ≤ max
    → let r = read d cache name max v s in
      (r.0 ≡ got bytes) ⊎ ((r.0 ≡ io_error) × (d.epoch r.3 ≢ d.epoch (d.ensure v s).1))
unfolding read
read-bytes d cache name bytes max i e v s sound answers up hit size disk faithful room =
    let m = d.ensure v s in
    let n = if ltb e.size max then e.size else max in
    let all : n ≡ length bytes = ground arith in
    let still =
      run_same (d.content m.1) (d.content s) e.start (sectors_for (length bytes))
        (λ j lo hi. sound.ensure_keeps v s j) in
    let r = read_bytes-some d e.start n m.1 answers in
    let q : r.0 ≡ bytes =
      read_bytes-blocks d sound e.start bytes r.0 m.1 (still ∙ disk)
        (ap (λ k. (read_bytes d e.start k m.1).0) (sym all) ∙ r.1) in
    elim (Option-cases (fc_read cache e n)) [
      | inr (found, cached) ↦
          let is =
            fc_read-Faithful cache e bytes found faithful
              (ap (fc_read cache e) (sym all) ∙ cached) in
          rw (up, read) (rw (hit, read) (rw (cached, read) (inl (ap got is))))
      | inl no_copy ↦ elim (Bool-cases (d.epoch (read_bytes d e.start n m.1).1 == d.epoch m.1)) [
        | inl same_epoch ↦
            rw (up, read)
              (rw (hit, read)
                (rw (no_copy, read) (rw (r.1, read) (rw (same_epoch, read) (inl (ap got q))))))
        | inr changed ↦
            rw (up, read)
              (rw (hit, read)
                (rw (no_copy, read)
                  (rw (r.1, read)
                    (rw (changed, read) (inr (refl, λ x. ground (arith, changed, x)))))))
      ]
    ]
