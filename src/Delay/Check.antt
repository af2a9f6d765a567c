-- ===== src/Delay/Check.antt =====
-- check sends what is due, in the order of the times, and sets the timer for the rest.
use udpspeeder.Base.{
  ℕ, suc, ◌≤◌, ◌<◌, ◌≡◌, refl, ◌∙◌, ap, List, [], ◌∷◌, ◌++◌, Option, some, All, leb, arith, ◌>>=◌,
  Bool-cases, Option-cases, inl, inr,
}
use udpspeeder.Sending.{Net, Setting}
use udpspeeder.Delay.{Timed, Delay, timer_for, handle, send_due, check}
use udpspeeder.Delay.Order.{IsSorted, All-later}

All-before : (s t : ℕ) (q : List Timed) → s ≤ t → All (λ y. t < y.time) q → All (λ y. s < y.time) q
All-before s t [] h a = tt
All-before s t (y ∷ q) h a = (omega (arith, a.0), All-before s t q h a.1)

module _ (Info : Type 0) (g : Setting) where
  -- The entries handled one after the other.
  abbrev pub handle_all : Net Info → List Timed → Option (Net Info)
  handle_all w [] = some w
  handle_all w (x ∷ q) = handle Info g w x.item >>= λ (w', o). handle_all w' q

  module _ (clock : ℕ → ℕ) (steady : (i : ℕ) → clock i ≤ clock (suc i)) where
    record Split (i : ℕ) (q : List Timed) : Type 0 where
      sent : List Timed
      rest : List Timed
      readings : ℕ
      whole : q ≡ sent ++ rest
      run :
          (w : Net Info)
          → send_due Info g clock i w q ≡ handle_all w sent >>= (λ w'. some (w', rest, readings))
      reached : clock i ≤ clock readings
      due : All (λ y. y.time ≤ clock readings) sent
      pending : All (λ y. clock i < y.time) rest

    split : (i : ℕ) (q : List Timed) → IsSorted q → Split i q
    split i [] o = record {
      sent = [];
      rest = [];
      readings = i;
      whole = refl;
      run = λ w. refl;
      reached = omega arith;
      due = tt;
      pending = tt;
    }
    split i (x ∷ q) o = elim (Bool-cases (leb x.time (clock i))) [
      | inl due_now ↦
          let r = split (suc i) q o.1 in
          let before : clock i ≤ clock r.readings = omega (arith, r.reached, steady i) in
          record {
            sent = x ∷ r.sent;
            rest = r.rest;
            readings = r.readings;
            whole = ap (◌∷◌ x) r.whole;
            run = λ w. elim (Option-cases (handle Info g w x.item)) [
              | inl failed ↦ rw (send_due, due_now, failed) refl
              | inr ((w', o'), done) ↦ rw (send_due, due_now, done, ◌>>=◌) (r.run w')
            ];
            reached = before;
            due =
                (let h : x.time ≤ clock r.readings = ground (arith, due_now, before) in (h, r.due));
            pending = All-before (clock i) (clock (suc i)) r.rest (steady i) r.pending;
          }
      | inr not_yet ↦ record {
        sent = [];
        rest = x ∷ q;
        readings = suc i;
        whole = refl;
        run = λ w. rw (send_due, not_yet) refl;
        reached = steady i;
        due = tt;
        pending =
            (let h : clock i < x.time = ground (arith, not_yet) in
              (h, All-later (clock i) x.time q h o.0));
      }
    ]

    -- With a clock that does not go back and packets waiting in the order of their times, check sends a
    -- front part of them in that order and fails only where a sending fails; all of that part is due at
    -- the last reading of the clock and nothing of the rest is due at the first, and the timer is set to
    -- the time until the first of the rest, or stopped if none is left.
    pub check_sends_due :
        (w : Net Info) (q : Delay) (x : Timed) (mp : List Timed)
        → IsSorted q.delay_mp
        → q.delay_mp ≡ x ∷ mp
        → (sent : List Timed) × (rest : List Timed) × (n : ℕ) × (q.delay_mp ≡ sent ++ rest)
          × (check Info g clock w q
              ≡ handle_all w sent >>= (λ w'.
                some (w', record q { delay_mp = rest; timer = timer_for (clock n) rest })))
          × All (λ y. y.time ≤ clock n) sent
          × All (λ y. clock 0 < y.time) rest
    unfolding check
    check_sends_due w q x mp o waiting =
        let r = split 0 q.delay_mp o in
        (r.sent, r.rest, r.readings, r.whole, started ∙ finished, r.due, r.pending)
      where
        set : Net Info × List Timed × ℕ → Option (Net Info × Delay)
        set (w', rest, i) =
            some (w', record q { delay_mp = rest; timer = timer_for (clock i) rest })

        started : check Info g clock w q ≡ send_due Info g clock 0 w q.delay_mp >>= set
        started = rw (check, waiting) refl

        finished :
            send_due Info g clock 0 w q.delay_mp >>= set
            ≡ handle_all w (split 0 q.delay_mp o).sent
              >>= (λ w'. set (w', (split 0 q.delay_mp o).rest, (split 0 q.delay_mp o).readings))
        finished = elim (Option-cases (handle_all w (split 0 q.delay_mp o).sent)) [
          | inl failed ↦ rw ((split 0 q.delay_mp o).run w, failed, ◌>>=◌) refl
          | inr (w', done) ↦ rw ((split 0 q.delay_mp o).run w, done, ◌>>=◌) refl
        ]
