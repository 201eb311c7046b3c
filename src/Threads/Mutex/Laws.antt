-- ===== src/Threads/Mutex/Laws.antt =====
-- Mutual exclusion, and that a mutex is free exactly if nobody owns it.
use flopnix.Base.{
  ℕ, ◌-◌, ◌<◌, ◌≡◌, ◌≢◌, refl, sym, ◌∙◌, inl, inr, Bool, true, false, ◌&&◌, ◌||◌, not, Option, none,
  some, ltb, leb, ◌==◌, arith, Bool-cases, ==_self, ap,
}
use flopnix.Threads.Mutex.{
  Mutex, Locks, put, is_owner, owner_dead, abandoned, entered, lock_round, release, left,
}

-- Free without owner and depth, or held by a thread at some depth.
abbrev pub IsMutex : Mutex → Type 0
IsMutex x =
    (x.held ≡ false → (x.owner ≡ none) × (x.depth ≡ 0))
    × (x.held ≡ true → (0 < x.depth) × ((t : ℕ) × (x.owner ≡ some t)))

-- The mutex is held, by that thread.
abbrev pub Holds : ℕ → Mutex → Type 0
Holds t x = (x.held ≡ true) × (x.owner ≡ some t)

-- After a round that got the mutex the thread holds it, one level deeper if it did before, and
-- no living thread but itself held it before. After one that did not, another living thread holds
-- it as before, and the thread waits.
abbrev pub Tried : (ℕ → Bool) → ℕ → ℕ → Locks → Bool × Locks → Type 0
Tried dead self m l (true, k) =
    Holds self (k.mutex m) × ((t : ℕ) → Holds t (l.mutex m) → dead t ≡ false → t ≡ self)
Tried dead self m l (false, k) =
    ((t : ℕ) × (t ≢ self)
      × (dead t ≡ false)
      × Holds t (l.mutex m)
      × Holds t (k.mutex m)
      × ((k.mutex m).depth ≡ (l.mutex m).depth))
    × (k.wait self ≡ some m)

abandoned-IsMutex : (dead : ℕ → Bool) (x : Mutex) → IsMutex x → IsMutex (abandoned dead x)
unfolding abandoned
abandoned-IsMutex dead x v = elim (Bool-cases (x.held && owner_dead dead x.owner)) [
  | inl gone ↦ rw gone ((λ f. (refl, refl)), (λ t. absurd cc))
  | inr here ↦ rw here v
]

entered-IsMutex : (self : ℕ) (x : Mutex) → IsMutex x → IsMutex (entered self x)
unfolding entered
entered-IsMutex self x v = elim (Bool-cases x.held) [
  | inl h ↦ rw h ((λ f. absurd cc), (λ t. (omega arith, (v.1 h).1)))
  | inr f ↦ rw f ((λ c. absurd cc), (λ t. (omega arith, (self, refl))))
]

left-IsMutex : (x : Mutex) → IsMutex x → IsMutex (left x)
unfolding left
left-IsMutex x v = elim (Bool-cases (leb x.depth 1)) [
  | inl last ↦ rw last ((λ f. (refl, refl)), (λ t. absurd cc))
  | inr deeper ↦
      rw deeper ((λ f. absurd (ground (arith, (v.0 f).1))), (λ t. (ground arith, (v.1 t).1)))
]

owner_is : (o : Option ℕ) (t : ℕ) → is_owner o t ≡ true → o ≡ some t
unfolding is_owner
owner_is none t h = absurd cc
owner_is (some u) t h = ap some (ground arith)

not_owner : (o : Option ℕ) (t u : ℕ) → is_owner o t ≡ false → o ≡ some u → u ≢ t
unfolding is_owner
not_owner o t u h e = λ q. let w : is_owner (some u) t ≡ false = rw e at h in ground (arith, q)

dies :
    (dead : ℕ → Bool) (o : Option ℕ) (t : ℕ)
    → owner_dead dead o ≡ true
    → o ≡ some t
    → dead t ≡ false
    → ⊥
unfolding owner_dead
dies dead o t h e a = let w : owner_dead dead (some t) ≡ true = rw e at h in let q = sym w ∙ a in cc

alive :
    (dead : ℕ → Bool) (o : Option ℕ) (t : ℕ)
    → owner_dead dead o ≡ false
    → o ≡ some t
    → dead t ≡ false
unfolding owner_dead
alive dead o t h e = let w : owner_dead dead (some t) ≡ false = rw e at h in w

some_same : {a b : ℕ} → some a ≡ some b → a ≡ b
some_same {a} {b} e = ap (λ o. elim o [ none ↦ a | some x ↦ x ]) e

-- One round of `mtx_lock` on a mutex in order either takes it, and then no other living thread had
-- it, or finds another living thread that has it, leaves it to that thread, and notes the wait.
pub lock_round-Tried :
    (dead : ℕ → Bool) (self m : ℕ) (l : Locks)
    → IsMutex (l.mutex m)
    → Tried dead self m l (lock_round dead self m l)
unfolding lock_round abandoned
lock_round-Tried dead self m l v =
    let x = l.mutex m in
    elim (Bool-cases (x.held && owner_dead dead x.owner)) [
      | inl gone ↦ rw gone (
        rw (==_self m) (refl, refl),
        (λ t h a.
            let o : owner_dead dead x.owner ≡ true = ground arith in
            absurd (dies dead x.owner t o h.1 a)),
      )
      | inr here ↦ rw here (elim (Bool-cases x.held) [
        | inr free ↦
            rw free (rw (==_self m) (refl, refl), λ t h a. absurd (let q = sym free ∙ h.0 in cc))
        | inl held ↦ elim (Bool-cases (is_owner x.owner self)) [
          | inl own ↦
              rw (held, own)
                (
                  rw (==_self m) (refl, owner_is x.owner self own),
                  (λ t h a. some_same (sym h.1 ∙ owner_is x.owner self own)),
                )
          | inr other ↦
              let o = (v.1 held).1 in
              rw (held, other)
                (
                  (
                    o.0,
                    not_owner x.owner self o.0 other o.1,
                    alive dead x.owner o.0 (ground arith) o.1,
                    (held, o.1),
                    rw (==_self m) (refl, o.1),
                    rw (==_self m) refl,
                  ),
                  rw (==_self self) refl,
                )
        ]
      ])
    ]

put-IsMutex :
    (f : ℕ → Mutex) (k : ℕ) (x : Mutex)
    → ((j : ℕ) → IsMutex (f j))
    → IsMutex x
    → (j : ℕ) → IsMutex (put f k x j)
put-IsMutex f k x v w j = elim (Bool-cases (j == k)) [
  | inl here ↦ rw here w
  | inr other ↦ rw other (v j)
]

-- Every mutex is free without an owner, or held by a thread at some depth, after a round of
-- `mtx_lock`, if that was so before.
pub lock_round-IsMutex :
    (dead : ℕ → Bool) (self m : ℕ) (l : Locks)
    → ((j : ℕ) → IsMutex (l.mutex j))
    → (j : ℕ) → IsMutex ((lock_round dead self m l).1.mutex j)
unfolding lock_round
lock_round-IsMutex dead self m l v =
    let x = abandoned dead (l.mutex m) in
    let w = abandoned-IsMutex dead (l.mutex m) (v m) in
    elim (Bool-cases (not x.held || is_owner x.owner self)) [
      | inl in_ ↦ rw in_ (put-IsMutex l.mutex m (entered self x) v (entered-IsMutex self x w))
      | inr out ↦ rw out (put-IsMutex l.mutex m (record x { want = put x.want self true }) v w)
    ]

-- What a release leaves of the mutex that the thread has: one level less, or a free mutex after
-- the last level; and every mutex is in order still.
pub release_lem :
    (self m : ℕ) (l : Locks)
    → ((j : ℕ) → IsMutex (l.mutex j))
    → Holds self (l.mutex m)
    → ((j : ℕ) → IsMutex ((release self m l).mutex j))
      × (((release self m l).mutex m).depth ≡ (l.mutex m).depth - 1)
      × (((release self m l).mutex m).held ≡ ltb 1 (l.mutex m).depth)
unfolding release left
release_lem self m l v h =
    let own : is_owner (l.mutex m).owner self ≡ true = rw h.1 (unfold is_owner in ==_self self) in
    rw own (
      put-IsMutex l.mutex m (left (l.mutex m)) v (left-IsMutex (l.mutex m) (v m)),
      rw (==_self m) (ground arith),
      rw (==_self m) (ground (arith, h.0)),
    )
