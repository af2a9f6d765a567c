-- ===== src/Delay.antt =====
-- delay_manager_t of delay_manager.h and delay_manager.cpp, and delay_send and delay_send_batch of misc.cpp:
-- packets that are sent later. A multimap is a list in the order of its keys, with equal keys in the order
-- of their insertion. Times are microseconds of 64 bits; the timer is a number of them, where the source has
-- seconds as a double. `none` is a failed `assert` of the sending.
pub mod Order
pub mod Check
pub mod Paths
pub mod Standing
use udpspeeder.Base.{
  ℕ, zero, suc, ◌+◌, ◌-◌, ◌%◌, ◌^◌, Bool, true, false, not, List, [], ◌∷◌, Option, none, some,
  length, ltb, leb, ◌==◌, ◌&&◌, if◌then◌else◌, ◌>>=◌,
}
use udpspeeder.Sending.{Dest, Net, Setting, Outcome, my_send, my_send_batch}

pub record DelayData : Type 0 where
  pub dest : Dest
  pub bytes : List ℕ

pub record Timed : Type 0 where
  pub time : ℕ
  pub item : DelayData

pub record Delay : Type 0 where
  pub capacity : ℕ
  pub delay_mp : List Timed
  pub timer : Option ℕ

-- The values that `add` returns: 0 and -1.
pub data Reply : Type 0 where
  ok fail : Reply

-- `delay_mp.insert(make_pair(time, item))`
abbrev pub insert : List Timed → Timed → List Timed
insert [] x = x ∷ []
insert (y ∷ q) x = let rest = y ∷ insert q x in if leb y.time x.time then rest else x ∷ y ∷ q

-- What one packet finds: the time, whether malloc finds room, and the number that is drawn.
pub record Moment : Type 0 where
  pub now : ℕ
  pub allocated : Bool
  pub random : ℕ

abbrev pub all_zero : List (ℕ × List ℕ) → Bool
all_zero [] = true
all_zero ((delay, s) ∷ ss) = (delay == 0) && all_zero ss

abbrev pub packets : List (ℕ × List ℕ) → List (List ℕ)
packets [] = []
packets ((delay, s) ∷ ss) = s ∷ packets ss

-- `timer_value`, with 0 in place of what is negative.
abbrev pub timer_for : ℕ → List Timed → Option ℕ
timer_for now [] = none
timer_for now (x ∷ q) = some (x.time - now)

module _ (Info : Type 0) (g : Setting) where
  unfoldable pub handle : Net Info → DelayData → Option (Net Info × Outcome)
  handle w x = my_send Info g w x.dest x.bytes

  -- `now` is what get_current_time_us returns, and `allocated` whether malloc finds room.
  unfoldable pub add :
      (now : ℕ) (allocated : Bool)
      → Net Info
      → Delay
      → (delay : ℕ) → Dest
      → List ℕ
      → Option (Net Info × Delay × Reply)
  add now allocated w q delay d s =
      if not (q.capacity == 0) && leb q.capacity (length q.delay_mp)
      then some (w, q, fail)
      else if delay == 0
      then handle w (record { dest = d; bytes = s }) >>= (λ (w', o). some (w', q, ok))
      else if not allocated
      then some (w, q, fail)
      else some (
        w,
        record q {
          delay_mp =
              insert q.delay_mp
                (record { time = (now + delay) % 2 ^ 64; item = record { dest = d; bytes = s } });
        },
        ok,
      )

  -- The loop of check; its reading number `i` of the clock is `clock i`.
  abbrev pub send_due :
      (clock : ℕ → ℕ) → ℕ → Net Info → List Timed → Option (Net Info × List Timed × ℕ)
  send_due clock i w [] = some (w, [], i)
  send_due clock i w (x ∷ q) = elim (leb x.time (clock i)) [
    | true ↦ handle w x.item >>= λ (w', o). send_due clock (suc i) w' q
    | false ↦ some (w, x ∷ q, suc i)
  ]

  abbrev pub check_on : (clock : ℕ → ℕ) → Net Info → Delay → List Timed → Option (Net Info × Delay)
  check_on clock w q [] = some (w, q)
  check_on clock w q (x ∷ mp) = send_due clock 0 w (x ∷ mp) >>= λ (w', rest, i).
      some (w', record q { delay_mp = rest; timer = timer_for (clock i) rest })

  unfoldable pub check : (clock : ℕ → ℕ) → Net Info → Delay → Option (Net Info × Delay)
  check clock w q = check_on clock w q q.delay_mp

  -- `random_drop` with the number that get_fake_random_number returns.
  unfoldable pub delay_send :
      (now : ℕ) (allocated : Bool) (random_drop random : ℕ)
      → Net Info
      → Delay
      → (delay : ℕ) → Dest
      → List ℕ
      → Option (Net Info × Delay × Reply)
  delay_send now allocated random_drop random w q delay d s =
      if (d.cook && not (random_drop == 0)) && ltb (random % 10000) random_drop
      then some (w, q, ok)
      else add now allocated w q delay d s

  -- The slow path: each packet with its delay.
  abbrev pub delay_send_each :
      (ℕ → Moment)
      → (random_drop : ℕ) → ℕ
      → Net Info
      → Delay
      → Dest
      → List (ℕ × List ℕ)
      → Option (Net Info × Delay)
  delay_send_each at drop i w q d [] = some (w, q)
  delay_send_each at drop i w q d ((delay, s) ∷ ss) =
      delay_send (at i).now (at i).allocated drop (at i).random w q delay d s >>= λ (w', q', r).
      delay_send_each at drop (suc i) w' q' d ss

  unfoldable pub delay_send_batch :
      (ℕ → Moment)
      → (random_drop : ℕ) → Net Info
      → Delay
      → Dest
      → List (ℕ × List ℕ)
      → Option (Net Info × Delay)
  delay_send_batch at drop w q d ss =
      if (ltb 1 (length ss) && (drop == 0)) && all_zero ss
      then my_send_batch Info g w d (packets ss) >>= (λ (w', o). some (w', q))
      else delay_send_each at drop 0 w q d ss
