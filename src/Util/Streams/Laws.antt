-- ===== src/Util/Streams/Laws.antt =====
-- A stream gives back what was written to it, and stays within its buffer.
use flopnix.Base.{
  ℕ, zero, suc, ◌+◌, ◌-◌, ◌*◌, ◌%◌, ◌^◌, ◌≤◌, ◌<◌, ◌≡◌, ◌⊎◌, refl, sym, ap, ◌∙◌, subst, Bool, true,
  false, ◌||◌, not, List, [], ◌∷◌, ltb, leb, ◌==◌, if◌then◌else◌, length, take, arith, Bool-cases,
  inl, inr, length-take, take_all,
}
use flopnix.Util.Streams.{
  Stream, ms_max, double_until, ms_grow, written, window, put_bytes, ms_write, ms_read, ms_seek,
}

-- Doubling a positive number up to MS_MAX reaches any number in this range, with no wrap-around and
-- less than twice too far; as many rounds as that number are enough.
pub double_until-reaches :
    (fuel want nc : ℕ)
    → 0 < nc
    → want ≤ ms_max
    → want ≤ nc + fuel
    → (want ≤ double_until fuel want nc)
      × ((double_until fuel want nc ≡ nc) ⊎ (double_until fuel want nc < 2 * want))
unfolding double_until
double_until-reaches zero want nc pos top enough = (omega arith, inl refl)
double_until-reaches (suc fuel) want nc pos top enough = elim (Bool-cases (ltb nc want)) [
  | inl less ↦
      let fits : nc * 2 % 2 ^ 32 ≡ nc * 2 = ground arith in
      let ih = double_until-reaches fuel want (nc * 2) (omega arith) top (omega arith) in
      rw (less, fits, double_until)
        (ih.0, inr (elim ih.1 [ inl same ↦ ground (arith, same) | inr small ↦ small ]))
  | inr done ↦ rw (done, double_until) (ground arith, inl refl)
]

-- A stream that is within its buffer, whose size is at most 2^31.
pub record IsStream (s : Stream) : Type 0 where
  pub pos_le : s.pos ≤ s.len
  pub len_le : s.len ≤ s.cap
  pub cap_le : s.cap ≤ 2 ^ 31

-- What `ms_grow` changes: only the capacity, which holds what is needed if it succeeds.
grow_lem :
    (answer : Bool) (need : ℕ) (s : Stream)
    → IsStream s
    → IsStream (ms_grow answer need s).1
      × ((ms_grow answer need s).0 ≡ true → s.pos + need ≤ (ms_grow answer need s).1.cap)
      × ((ms_grow answer need s).1.pos ≡ s.pos)
      × ((ms_grow answer need s).1.len ≡ s.len)
unfolding ms_grow
grow_lem answer need s w =
    let nc = if s.cap == 0 then 256 else s.cap in
    let pos : 0 < nc = ground arith in
    elim (Bool-cases (ltb ms_max need || ltb (ms_max - need) s.pos)) [
      | inl big ↦ rw big (w, λ h. absurd cc, refl, refl)
      | inr small ↦ elim (Bool-cases (leb (s.pos + need) s.cap)) [
        | inl room ↦ rw small (rw room (w, λ h. ground arith, refl, refl))
        | inr over ↦ elim (Bool-cases (not s.owned || not answer)) [
          | inl fixed ↦ rw small (rw over (rw fixed (w, λ h. absurd cc, refl, refl)))
          | inr grows ↦
              let below : s.pos + need ≤ ms_max = ground arith in
              let big =
                double_until-reaches (s.pos + need) (s.pos + need) nc pos below (omega arith) in
              let new_cap = double_until (s.pos + need) (s.pos + need) nc in
              let enough : s.len ≤ new_cap = let len = w.len_le in ground arith in
              let top : new_cap ≤ 2 ^ 31 =
                let cap = w.cap_le in
                elim big.1 [ inl same ↦ ground arith | inr small2 ↦ omega arith ] in
              rw small (
                rw over (
                  rw grows (
                    record { pos_le = w.pos_le; len_le = enough; cap_le = top },
                    λ h. big.0,
                    refl,
                    refl,
                  )))
        ]
      ]
    ]

put_bytes-IsStream :
    (bs : List ℕ) (s : Stream)
    → IsStream s
    → s.pos + length bs ≤ s.cap
    → IsStream (put_bytes bs s).1
unfolding put_bytes
put_bytes-IsStream bs s w room =
    let len = w.len_le in
    let pos = w.pos_le in record { pos_le = ground arith; len_le = ground arith; cap_le = w.cap_le }

-- How far `ms_write` gets, and the stream that it writes to.
write_cases :
    (answer : Bool) (bs : List ℕ) (s : Stream)
    → IsStream s
    → (g : Stream) × (n : ℕ) × IsStream g
      × (g.pos ≡ s.pos)
      × (g.len ≡ s.len)
      × (s.pos + length (take n bs) ≤ g.cap)
      × ((ms_write answer bs s ≡ put_bytes (take n bs) g)
          ⊎ ((ms_write answer bs s ≡ (0, s)) × (take n bs ≡ [])))
unfolding ms_write
write_cases answer bs s w =
    let room = if ltb s.pos s.cap then s.cap - s.pos else 0 in
    let n = if ltb (length bs) room then length bs else room in
    let g = grow_lem answer (length bs) s w in
    elim (Bool-cases (ms_grow answer (length bs) s).0) [
      | inl ok ↦
          let all : take (length bs) bs ≡ bs = take_all (length bs) bs (omega arith) in
          (
            (ms_grow answer (length bs) s).1,
            length bs,
            g.0,
            g.2,
            g.3,
            rw all (g.1 ok),
            inl (rw ok (ap (λ t. put_bytes t (ms_grow answer (length bs) s).1) (sym all))),
          )
      | inr no_room ↦ elim (Bool-cases (n == 0)) [
        | inl nothing ↦ (
          s,
          0,
          w,
          refl,
          refl,
          (let pos = w.pos_le in let len = w.len_le in omega arith),
          inr (rw no_room (rw nothing refl), refl),
        )
        | inr some_room ↦ (
          s,
          n,
          w,
          refl,
          refl,
          ground (arith, length-take n bs),
          inl (rw no_room (rw some_room refl)),
        )
      ]
    ]

-- `ms_write` and `ms_read` keep a stream within its buffer, whatever `krealloc` answers.
pub ms_write-IsStream :
    (answer : Bool) (bs : List ℕ) (n : ℕ) (s : Stream)
    → IsStream s
    → IsStream (ms_write answer bs s).1 × IsStream (ms_read n s).1
unfolding ms_read
ms_write-IsStream answer bs n s w =
    let c = write_cases answer bs s w in
    let pos = w.pos_le in
    (
      elim c.6 [
        | inl puts ↦
            subst (λ r. IsStream r.1) (sym puts)
              (put_bytes-IsStream (take c.1 bs) c.0 c.2
                (subst (λ p. p + length (take c.1 bs) ≤ c.0.cap) (sym c.3) c.5))
        | inr kept ↦ subst (λ r. IsStream r.1) (sym kept.0) w
      ],
      record { pos_le = ground arith; len_le = w.len_le; cap_le = w.cap_le },
    )

window_later :
    (buf : ℕ → ℕ) (at c n start : ℕ)
    → at < start
    → window (λ j. if j == at then c else buf j) start n ≡ window buf start n
unfolding window
window_later buf at c zero start h = refl
window_later buf at c (suc n) start h =
    let other : (start == at) ≡ false = ground arith in
    rw other (ap (◌∷◌ (buf start)) (window_later buf at c n (start + 1) (omega arith)))

window-written :
    (buf : ℕ → ℕ) (at : ℕ) (bs : List ℕ) → window (written buf at bs) at (length bs) ≡ bs
unfolding window written
window-written buf at [] = refl
window-written buf at (c ∷ cs) =
    let here : (at == at) ≡ true = ground arith in
    rw here (
      ap (◌∷◌ c) (
        window_later (written buf (at + 1) cs) at c (length cs) (at + 1) (omega arith)
        ∙ window-written buf (at + 1) cs))

take_as_long : (n : ℕ) (bs : List ℕ) → take (length (take n bs)) bs ≡ take n bs
take_as_long zero bs = refl
take_as_long (suc n) [] = refl
take_as_long (suc n) (b ∷ bs) = ap (◌∷◌ b) (take_as_long n bs)

-- What seeking back to `start` and reading as much as was written gives.
abbrev pub reads_back : ℕ → ℕ × Stream → Bool × List ℕ
reads_back start w = ((ms_seek start w.1).0, (ms_read w.0 (ms_seek start w.1).1).0)

put_bytes_back :
    (bs : List ℕ) (s : Stream) → IsStream s → reads_back s.pos (put_bytes bs s) ≡ (true, bs)
unfolding put_bytes ms_seek ms_read
put_bytes_back bs s w =
    let stop = s.pos + length bs in
    let new_len = if ltb s.len stop then stop else s.len in
    let ok : ltb new_len s.pos ≡ false = ground arith in
    let avail : (if ltb s.pos new_len then new_len - s.pos else 0) ≡ new_len - s.pos =
      ground arith in
    let all : ltb (new_len - s.pos) (length bs) ≡ false = ground arith in
    rw ok (rw avail (rw all (ap (λ t. (true, t)) (window-written s.buf s.pos bs))))

nothing_back : (s : Stream) → IsStream s → reads_back s.pos (0, s) ≡ (true, [])
unfolding ms_seek ms_read window
nothing_back s w =
    let pos = w.pos_le in
    let ok : ltb s.len s.pos ≡ false = ground arith in
    let avail : ℕ = if ltb s.pos s.len then s.len - s.pos else 0 in
    let zero_read : (if ltb avail 0 then avail else 0) ≡ 0 = ground arith in
    rw ok (ap (λ k. (true, window s.buf s.pos k)) zero_read)

-- Seeking back to where a write began and reading as many bytes as it wrote gives the bytes, as far
-- as they were written, with a buffer that grows or not.
pub ms_read-ms_write :
    (answer : Bool) (bs : List ℕ) (s : Stream)
    → IsStream s
    → reads_back s.pos (ms_write answer bs s) ≡ (true, take (ms_write answer bs s).0 bs)
unfolding put_bytes
ms_read-ms_write answer bs s w =
    let c = write_cases answer bs s w in
    elim c.6 [
      | inl puts ↦ rw puts (
          subst
            (λ p.
              reads_back p (put_bytes (take c.1 bs) c.0) ≡ (true, take (length (take c.1 bs)) bs))
            c.3
            (put_bytes_back (take c.1 bs) c.0 c.2
              ∙ ap (λ t. (true, t)) (sym (take_as_long c.1 bs))))
      | inr kept ↦ rw kept.0 (nothing_back s w)
    ]
