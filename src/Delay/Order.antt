-- ===== src/Delay/Order.antt =====
-- Delayed packets wait in the order of their times, those of one time in the order they came.
use native.Mathlib.Nat.{mod-eq_of_lt}
use udpspeeder.Base.{
  ℕ, suc, ◌+◌, ◌%◌, ◌^◌, ◌≤◌, ◌<◌, ◌≡◌, ◌≢◌, refl, ap, Bool, true, false, not, List, [], ◌∷◌, ◌++◌,
  some, ◌⊎◌, length, All, leb, ◌==◌, ◌&&◌, arith, Bool-cases, Option-cases, subst, ◌>>=◌, inl, inr,
}
use udpspeeder.Sending.{Dest, Net, Setting}
use udpspeeder.Delay.{Timed, Delay, Reply, ok, fail, insert, handle, add}

abbrev pub IsSorted : List Timed → Type 0
IsSorted [] = Unit {0}
IsSorted (x ∷ q) = All (λ y. x.time ≤ y.time) q × IsSorted q

All-insert :
    (t : ℕ) (q : List Timed) (x : Timed)
    → All (λ y. t ≤ y.time) q
    → t ≤ x.time
    → All (λ y. t ≤ y.time) (insert q x)
All-insert t [] x a h = (h, tt)
All-insert t (y ∷ q) x a h = elim (Bool-cases (leb y.time x.time)) [
  | inl on ↦ rw on (a.0, All-insert t q x a.1 h)
  | inr here ↦ rw here (h, a)
]

pub All-later :
    (s t : ℕ) (q : List Timed) → s < t → All (λ y. t ≤ y.time) q → All (λ y. s < y.time) q
All-later s t [] h a = tt
All-later s t (y ∷ q) h a = (omega (arith, a.0), All-later s t q h a.1)

All-weaken : (s t : ℕ) (q : List Timed) → s ≤ t → All (λ y. t ≤ y.time) q → All (λ y. s ≤ y.time) q
All-weaken s t [] h a = tt
All-weaken s t (y ∷ q) h a = (omega (arith, a.0), All-weaken s t q h a.1)

insert-IsSorted : (q : List Timed) (x : Timed) → IsSorted q → IsSorted (insert q x)
insert-IsSorted [] x o = (tt, tt)
insert-IsSorted (y ∷ q) x o = elim (Bool-cases (leb y.time x.time)) [
  | inl on ↦ rw on (All-insert y.time q x o.0 (ground arith), insert-IsSorted q x o.1)
  | inr here ↦
      let before : x.time ≤ y.time = ground (arith, here) in
      rw here ((before, All-weaken x.time y.time q before o.0), o)
]

-- The place of a new entry: behind those of its time and before.
insert-place :
    (q : List Timed) (x : Timed)
    → IsSorted q
    → (before : List Timed) × (after : List Timed) × (q ≡ before ++ after)
      × (insert q x ≡ before ++ x ∷ after)
      × All (λ y. y.time ≤ x.time) before
      × All (λ y. x.time < y.time) after
insert-place [] x o = ([], [], refl, refl, tt, tt)
insert-place (y ∷ q) x o = elim (Bool-cases (leb y.time x.time)) [
  | inl on ↦
      let (before, after, split, placed, early, late) = insert-place q x o.1 in
      let early_y : y.time ≤ x.time = ground (arith, on) in
      (
        y ∷ before,
        after,
        ap (◌∷◌ y) split,
        rw (insert, on) (ap (◌∷◌ y) placed),
        (early_y, early),
        late,
      )
  | inr here ↦
      let late_y : x.time < y.time = ground (arith, here) in
      ([], y ∷ q, refl, rw (insert, here) refl, tt, (late_y, All-later x.time y.time q late_y o.0))
]

pub has_room :
    (capacity n : ℕ)
    → (capacity ≡ 0) ⊎ (n < capacity)
    → not (capacity == 0) && leb capacity n ≡ false
has_room capacity n (inl e) = ground (arith, e)
has_room capacity n (inr h) = ground (arith, h)

nonzero : (delay : ℕ) → delay ≢ 0 → (delay == 0) ≡ false
nonzero delay h = ground (arith, h)

insert-length : (q : List Timed) (x : Timed) → length (insert q x) ≡ suc (length q)
insert-length [] x = refl
insert-length (y ∷ q) x = ground (arith, insert-length q x)

module _ (Info : Type 0) (g : Setting) where
  -- A packet with a delay waits behind those that are due no later and before the others, where the
  -- capacity allows it, memory is found and the time stays below 64 bits; nothing is sent, and the order
  -- stays.
  pub add-IsSorted :
      (now : ℕ) (w : Net Info) (q : Delay) (delay : ℕ) (d : Dest) (s : List ℕ)
      → IsSorted q.delay_mp
      → (q.capacity ≡ 0) ⊎ (length q.delay_mp < q.capacity)
      → delay ≢ 0
      → now + delay < 2 ^ 64
      → (q' : Delay) × (before : List Timed) × (after : List Timed) × (add Info g now true w q delay
            d s
          ≡ some (w, q', ok))
        × IsSorted q'.delay_mp
        × (q.delay_mp ≡ before ++ after)
        × (q'.delay_mp
            ≡ before
              ++ record { time = now + delay; item = record { dest = d; bytes = s } } ∷ after)
        × All (λ y. y.time ≤ now + delay) before
        × All (λ y. now + delay < y.time) after
  unfolding add
  add-IsSorted now w q delay d s o room later fits =
      let x : Timed = record { time = now + delay; item = record { dest = d; bytes = s } } in
      let (before, after, split, placed, early, late) = insert-place q.delay_mp x o in
      (
        record q { delay_mp = insert q.delay_mp x },
        before,
        after,
        rw (has_room q.capacity (length q.delay_mp) room, nonzero delay later, mod-eq_of_lt fits)
            refl,
        insert-IsSorted q.delay_mp x o,
        split,
        placed,
        early,
        late,
      )

  -- Where the capacity is not 0 and not passed, no call of add passes it, and a full queue refuses and
  -- stays as it is.
  pub add-capacity :
      (now : ℕ) (allocated : Bool) (w : Net Info) (q : Delay) (delay : ℕ) (d : Dest) (s : List ℕ)
      → q.capacity ≢ 0
      → length q.delay_mp ≤ q.capacity
      → ((length q.delay_mp ≡ q.capacity)
          × (add Info g now allocated w q delay d s ≡ some (w, q, fail)))
        ⊎ ((length q.delay_mp < q.capacity)
            × ((w' : Net Info) (q' : Delay) (r : Reply)
                → add Info g now allocated w q delay d s ≡ some (w', q', r)
                → length q'.delay_mp ≤ q'.capacity))
  unfolding add
  add-capacity now allocated w q delay d s limited within =
      elim (Bool-cases (leb q.capacity (length q.delay_mp))) [
        | inl full ↦ inl (ground (arith, full, within), rw (nonzero q.capacity limited, full) refl)
        | inr room ↦ inr (
          ground (arith, room),
          λ w' q' r e.
              let e' = rw (add, nonzero q.capacity limited, room) at e in
              elim (Bool-cases (delay == 0)) [
                | inl at_once ↦
                    elim (Option-cases (handle Info g w (record { dest = d; bytes = s }))) [
                      | inl failed ↦ absurd (cc (rw (at_once, failed) at e'))
                      | inr ((w1, o), done) ↦
                          let same : q ≡ q' = cc (rw (at_once, done, ◌>>=◌) at e') in
                          subst (λ p. length p.delay_mp ≤ p.capacity) same within
                    ]
                | inr wait ↦ elim (Bool-cases allocated) [
                  | inl found ↦
                      let x : Timed = record {
                        time = (now + delay) % 2 ^ 64;
                        item = record { dest = d; bytes = s };
                      } in
                      let same : record q { delay_mp = insert q.delay_mp x } ≡ q' =
                        cc (rw (wait, found) at e') in
                      subst (λ p. length p.delay_mp ≤ p.capacity) same
                        (ground (arith, insert-length q.delay_mp x, room))
                  | inr null ↦
                      let same : q ≡ q' = cc (rw (wait, null) at e') in
                      subst (λ p. length p.delay_mp ≤ p.capacity) same within
                ]
              ],
        )
      ]
