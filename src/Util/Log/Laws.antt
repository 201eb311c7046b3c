-- ===== src/Util/Log/Laws.antt =====
-- The buffers hold the last bytes of all that was ever written to them.
use flopnix.Base.{
  ℕ, ◌+◌, ◌-◌, ◌*◌, ◌%◌, ◌^◌, ◌≤◌, ◌<◌, ◌≡◌, ◌⊎◌, refl, sym, ap, ◌∙◌, subst, inl, inr, false, List,
  [], ◌∷◌, ◌++◌, append_assoc, append-nil, ltb, if◌then◌else◌, length, take, drop, arith,
  Bool-cases, length-append, not_ltb→le, ltb→lt, length-take, length-drop, take-append-drop,
  take_all,
}
use flopnix.Util.Log.{log_half, trace_half, make_room, klog, Trace, ktrace}

-- The buffer fits with its 0 and ends where the history ends. It is all of the history, or the
-- history does not fit with its 0 and half of the buffer or more is in use.
abbrev pub IsTail : ℕ → List ℕ → List ℕ → Type 0
IsTail half history held =
    (length held < 2 * half)
    × ((old : List ℕ) × (old ++ held ≡ history))
    × ((held ≡ history) ⊎ ((2 * half ≤ length history) × (half ≤ length held)))

shift : (a b c d : List ℕ) → (a ++ b) ++ (c ++ d) ≡ (a ++ (b ++ c)) ++ d
shift a b c d = sym (append_assoc (a ++ b) c d) ∙ ap (λ l. l ++ d) (append_assoc a b c)

length_of_tail : (old held history : List ℕ) → old ++ held ≡ history → length held ≤ length history
length_of_tail old held history e = omega (arith, length-append old held, ap length e)

make_room-IsTail :
    (half n : ℕ) (history held new : List ℕ)
    → IsTail half history held
    → length new ≡ n
    → n < half
    → IsTail half (history ++ new) (make_room half n held ++ new)
make_room-IsTail half n history held new t len less =
    elim (Bool-cases (ltb (2 * half) (length held + n + 1))) [
      | inr fits ↦ rw fits (
        omega (arith, length-append held new, not_ltb→le (2 * half) (length held + n + 1) fits),
        (t.1.0, sym (append_assoc t.1.0 held new) ∙ ap (λ l. l ++ new) t.1.1),
        elim t.2 [
          | inl all ↦ inl (ap (λ l. l ++ new) all)
          | inr past ↦ inr (
            omega (arith, past.0, length-append history new),
            omega (arith, past.1, length-append held new),
          )
        ],
      )
      | inl full ↦
          let k = length held - half in
          rw full (
            omega (
              arith,
              length-append (drop k held) new,
              length-drop k held,
              ltb→lt (2 * half) (length held + n + 1) full,
              t.0,
            ),
            (
              t.1.0 ++ take k held,
              (shift t.1.0 (take k held) (drop k held) new)
                  ∙ ap (λ l. (t.1.0 ++ l) ++ new) (take-append-drop k held)
                  ∙ ap (λ l. l ++ new) t.1.1,
            ),
            inr (
              omega (
                arith,
                length_of_tail t.1.0 held history t.1.1,
                length-append history new,
                ltb→lt (2 * half) (length held + n + 1) full,
              ),
              omega (
                arith,
                length-append (drop k held) new,
                length-drop k held,
                ltb→lt (2 * half) (length held + n + 1) full,
              ),
            ),
          )
    ]

-- `klog` in turn on each message.
unfoldable pub log_all : List (List ℕ) → List ℕ → List ℕ
unfolding klog
log_all [] held = held
log_all (s ∷ ss) held = log_all ss (klog s held)

-- The messages one after the other, each cut to 1023 bytes.
pub logged : List (List ℕ) → List ℕ
logged [] = []
logged (s ∷ ss) = take (log_half - 1) s ++ logged ss

cut : (n : ℕ) (s : List ℕ) → take (if ltb n (length s) then n else length s) s ≡ take n s
cut n s = elim (Bool-cases (ltb n (length s))) [
  | inl long ↦ rw long refl
  | inr short ↦
      rw short
        (take_all (length s) s (omega arith) ∙ sym (take_all n s (not_ltb→le n (length s) short)))
]

klog-IsTail :
    (s history held : List ℕ)
    → IsTail log_half history held
    → IsTail log_half (history ++ take (log_half - 1) s) (klog s held)
unfolding klog
klog-IsTail s history held t =
    let n = if ltb (log_half - 1) (length s) then log_half - 1 else length s in
    let r =
      make_room-IsTail log_half n history held (take n s) t (length-take n s ∙ ground arith)
        (ground arith) in
    subst (λ l. IsTail log_half (history ++ l) (make_room log_half n held ++ take n s))
      (cut (log_half - 1) s) r

log_all_from :
    (ss : List (List ℕ)) (history held : List ℕ)
    → IsTail log_half history held
    → IsTail log_half (history ++ logged ss) (log_all ss held)
unfolding log_all logged
log_all_from [] history held t = subst (λ l. IsTail log_half l held) (sym (append-nil history)) t
log_all_from (s ∷ ss) history held t =
    subst (λ l. IsTail log_half l (log_all ss (klog s held)))
      (append_assoc history (take (log_half - 1) s) (logged ss))
      (log_all_from ss (history ++ take (log_half - 1) s) (klog s held)
        (klog-IsTail s history held t))

-- The log holds the end of all messages logged so far, each cut to its first 1023 bytes, always with
-- room for the 0 in its 2048 bytes: all of them while they fit with the 0, and at least 1024 bytes
-- when they do not.
pub log_all-IsTail : (ss : List (List ℕ)) → IsTail log_half (logged ss) (log_all ss [])
log_all-IsTail ss = log_all_from ss [] [] (omega arith, ([], refl), inl refl)

-- `ktrace`, with a line that comes from its buffer of 208 bytes, keeps the end of all that was
-- traced, and counts its bytes modulo 2^32.
pub ktrace-IsTail :
    (line history : List ℕ) (t : Trace)
    → length line < 208
    → IsTail trace_half history t.held
    → t.seq ≡ length history % 2 ^ 32
    → IsTail trace_half (history ++ line) (ktrace line t).held
      × ((ktrace line t).seq ≡ length (history ++ line) % 2 ^ 32)
unfolding ktrace
ktrace-IsTail line history t short tail count =
    let fits : ltb trace_half (length line) ≡ false = ground arith in
    let all : take (length line) line ≡ line = take_all (length line) line (omega arith) in
    rw (fits, all)
      (
        make_room-IsTail trace_half (length line) history t.held line tail refl (omega arith),
        omega (arith, length-append history line, count),
      )
